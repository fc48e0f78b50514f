-- ===== src/Client/Loop.antt =====
-- src/client/client_deamon.c: `client_deamon_thread`, the loop of the client's thread.
pub mod Polls
pub mod Attend
pub mod Watched
use simple_mqtt.Base.{
  ℕ, zero, suc, ◌+◌, Bool, true, false, List, [], ◌∷◌, ◌==◌, if◌then◌else◌, Outcome, ok, stuck,
  ◌>>=◌, length,
}
use simple_mqtt.Client.Process.{Send}
use simple_mqtt.Client.Receive.{Outside, process_socket_event}
use simple_mqtt.Client.Connection.{Session}
use simple_mqtt.Client.Timer.{Tick, process_timer_event}

-- What epoll_wait(2) comes to: the descriptors that are ready, at most three of them, or -1, with EINTR or
-- with another error.
pub data Polled : Type 0 where
  ready : List ℕ → Polled
  interrupted failed : Polled

-- The descriptors of `deamon_context_t`, and what the operating system does: epoll_wait(2), by the number of
-- the call, and what happens in each event, by its number; `rounds` is the fuel that
-- `process_socket_event` gets in it.
pub record Surroundings : Type 0 where
  pub sock_fd : ℕ
  pub timer_fd : ℕ
  pub epoll_wait : ℕ → Polled
  pub outside : ℕ → Outside
  pub tick : ℕ → Tick
  pub rounds : ℕ → ℕ

-- One round of the for loop. The return codes are not looked at.
pub thread_event : Surroundings → ℕ → ℕ → Session → Outcome Session
thread_event around event fd session =
    if fd == around.sock_fd
    then (do
      result ← process_socket_event (around.rounds event) (around.outside event) session.world 0
      ok (record session { world = result.0 }))
    else if fd == around.timer_fd
    then (do
      ticked ← process_timer_event (around.outside event).send (around.tick event) session
      ok ticked.session)
    else ok session

-- The for loop, from the event with this number on.
pub thread_events : Surroundings → ℕ → List ℕ → Session → Outcome Session
unfolding thread_event
thread_events around event [] session = ok session
thread_events around event (fd ∷ fds) session = do
  session' ← thread_event around event fd session
  thread_events around (event + 1) fds session'

-- The rest of a round of the while loop. `again` is the next one, after events up to this number.
pub after_poll :
    Polled → Surroundings → ℕ → Session → (ℕ → Session → Outcome Session) → Outcome Session
unfolding thread_events
after_poll (ready fds) around event session again = do
  session' ← thread_events around event fds session
  again (event + length fds) session'
after_poll interrupted around event session again = again event session
after_poll failed around event session again = ok session

-- The while loop, after some calls of epoll_wait(2) and some events. With no fuel left it is still running.
unfoldable pub client_deamon_thread : ℕ → Surroundings → ℕ → ℕ → Session → Outcome Session
unfolding after_poll
client_deamon_thread zero around calls event session = stuck
client_deamon_thread (suc fuel) around calls event session =
    after_poll (around.epoll_wait calls) around event session
      (client_deamon_thread fuel around (calls + 1))
