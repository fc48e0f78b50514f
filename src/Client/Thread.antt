-- ===== src/Client/Thread.antt =====
-- src/client/client_deamon.c: `client_deamon_create` and `init_global_timer`, which open what the client's thread
-- waits on, start the thread and give everything back.
pub mod Released
use simple_mqtt.Base.{
  ℕ, ◌+◌, Bool, true, false, not, ◌&&◌, Option, none, some, List, [], ◌∷◌, ◌++◌, if◌then◌else◌,
  Outcome, ok, fault, stuck, ◌>>=◌,
}
use simple_mqtt.Message.Codes

-- What a call of pthread_join(3) comes to: it returns a code, its behaviour is not defined, as it may be for
-- an identifier that is not that of a thread, or it waits for ever.
pub data Join : Type 0 where
  joined : ℕ → Join
  undefined : Join
  waits : Join

-- What the operating system and the allocator do: timerfd_create(2), timerfd_settime(2), epoll_create1(2)
-- and epoll_ctl(2) for the socket and for the timer, pthread_create(3), where `none` and `false` are
-- failures; and pthread_join(3), for the identifier that it is called with.
pub record Host : Type 0 where
  pub ctx_granted : Bool
  pub timer : Option ℕ
  pub timer_set : Bool
  pub epoll : Option ℕ
  pub socket_added : Bool
  pub timer_added : Bool
  pub thread_created : Bool
  pub join : ℕ → Join

-- The descriptors opened and closed so far, in order, the allocations and releases of a context, and the
-- threads started.
pub record Trace : Type 0 where
  pub opened : List ℕ
  pub closed : List ℕ
  pub allocated : ℕ
  pub freed : ℕ
  pub started : ℕ

abbrev pub open_fd : ℕ → Trace → Trace
open_fd fd trace = record trace { opened = trace.opened ++ (fd ∷ []) }

abbrev pub close_fd : ℕ → Trace → Trace
close_fd fd trace = record trace { closed = trace.closed ++ (fd ∷ []) }

-- What it returns, where `none` is -1. The flag is for timerfd_settime(2).
unfoldable pub init_global_timer : Option ℕ → Bool → Trace → Trace × Option ℕ
init_global_timer none timer_set trace = (trace, none)
init_global_timer (some fd) true trace = (open_fd fd trace, some fd)
init_global_timer (some fd) false trace = (close_fd fd (open_fd fd trace), none)

-- A return code, where `none` is -1, with the trace that the call leaves.
abbrev pub Created : Type 0
Created = Outcome (Trace × Option ℕ)

-- The code that pthread_join(3) returns is not looked at.
abbrev pub behind_join {ℓ} : {A : Type ℓ} → Join → A → Outcome A
behind_join (joined code) result = ok result
behind_join undefined result = fault
behind_join waits result = stuck

-- From the first call of epoll_ctl(2) to the label `close2`. `tid`, which pthread_join(3) gets, is what
-- pthread_create(3) has returned, so it is 0.
pub start_thread : Host → Trace → Created
start_thread host trace =
    if host.socket_added && host.timer_added && host.thread_created
    then behind_join (host.join 0)
        (record trace { started = trace.started + 1 }, some Codes.mqtt_success)
    else ok (trace, none)

-- The labels `close2` and `close1`, around what is between them.
pub with_epoll : Host → Option ℕ → ℕ → Trace → Created
unfolding start_thread
with_epoll host none timer_fd trace = ok (close_fd timer_fd trace, none)
with_epoll host (some epoll_fd) timer_fd trace = do
  result ← start_thread host (open_fd epoll_fd trace)
  ok (close_fd timer_fd (close_fd epoll_fd result.0), result.1)

pub with_timer : Host → Trace × Option ℕ → Created
unfolding with_epoll
with_timer host (trace, none) = ok (trace, none)
with_timer host (trace, some timer_fd) = with_epoll host host.epoll timer_fd trace

-- `ph_ok` says that `ph` is not NULL. The context is freed at the label `free`.
unfoldable pub client_deamon_create : Host → Bool → Trace → Created
unfolding init_global_timer with_timer
client_deamon_create host ph_ok trace =
    if not ph_ok
    then ok (trace, some Codes.mqtt_invalid_param)
    else if not host.ctx_granted
    then ok (trace, some Codes.mqtt_memory_nobuffer)
    else (do
      result ← with_timer host (
          init_global_timer host.timer host.timer_set
            (record trace { allocated = trace.allocated + 1 }))
      ok (record result.0 { freed = result.0.freed + 1 }, result.1))
