-- ===== src/Client/Loop/Attend.antt =====
-- src/client/client_deamon.c: what the client's thread is to do with the events that it waits for, the ticks of
-- the timer among them, said without the descriptors, the buffer and the parsers.
use simple_mqtt.Base.{
  ℕ, ◌+◌, ◌≡◌, ◌≢◌, Bool, not, Option, none, some, List, [], ◌∷◌, leb, if◌then◌else◌, Outcome, ok,
  fault, ◌>>=◌,
}
use simple_mqtt.Client.Process.{Send}
use simple_mqtt.Client.Receive.Incoming.{Incoming, View, view, said, replay}
use simple_mqtt.Client.Connection.{Client, Session}
use simple_mqtt.Client.Timer.{Tick}
use simple_mqtt.Client.Timer.Expiry.{any_expired}
use simple_mqtt.Client.Loop.{ready, interrupted, failed, Surroundings}
use simple_mqtt.Client.Loop.Polls.{Burst}

-- What a call of epoll_wait(2) finds: packets at the socket, a descriptor that the thread does not know,
-- a signal, or the timer.
pub data Event : Type 0 where
  arrival : List Incoming → Event
  unknown : ℕ → Event
  interruption timer : Event

-- What there is to see, and when the keep alive time began.
pub record Watch : Type 0 where
  pub seen : View
  pub since : ℕ

abbrev pub watch : Session → Watch
watch session = record { seen = view session.world; since = session.keep_alive_timestamp }

-- No message may be late: the thread would read memory that it has freed.
abbrev pub unless_late : Client → Tick → Watch → Outcome Watch
unless_late client tick w =
    if any_expired client.timeout_sec tick.now w.seen.send_list then fault else ok w

-- A ping, by the answer of send(2).
abbrev pub ping : Client → Tick → Option ℕ → Watch → Outcome Watch
ping client tick none w = ok (record w { seen = said none (0xc0 ∷ 0 ∷ []) w.seen })
ping client tick (some sent) w =
    unless_late client tick
      (record { seen = said (some sent) (0xc0 ∷ 0 ∷ []) w.seen; since = tick.later })

-- A tick, if there is one to read. The server is pinged when the keep alive time is over.
abbrev pub attend_tick : Send → Client → Tick → Watch → Outcome Watch
attend_tick send client tick w =
    if not tick.readable
    then ok w
    else if leb (w.since + client.keep_alive) tick.now
    then ping client tick (send w.seen.attempts (0xc0 ∷ 0 ∷ [])) w
    else unless_late client tick w

module _ (around : Surroundings) (send : Send) (pub_cb : Bool) where
  -- The events from this number on, in order.
  abbrev pub attend : Client → ℕ → List Event → Watch → Outcome Watch
  attend client event [] w = ok w
  attend client event (arrival packets ∷ events) w = replay send pub_cb packets w.seen >>= λ v.
      attend client (event + 1) events (record w { seen = v })
  attend client event (unknown fd ∷ events) w = attend client (event + 1) events w
  attend client event (interruption ∷ events) w = attend client event events w
  attend client event (timer ∷ events) w =
      attend_tick send client (around.tick event) w >>= attend client (event + 1) events

  -- The calls of epoll_wait(2) find these, one event each, and then one fails.
  abbrev pub Unfolds : ℕ → ℕ → List Event → Type 0
  Unfolds calls event [] = around.epoll_wait calls ≡ failed
  Unfolds calls event (arrival packets ∷ events) =
      (around.epoll_wait calls ≡ ready (around.sock_fd ∷ []))
      × Burst around send pub_cb event packets
      × Unfolds (calls + 1) (event + 1) events
  Unfolds calls event (unknown fd ∷ events) =
      (around.epoll_wait calls ≡ ready (fd ∷ []))
      × (fd ≢ around.sock_fd)
      × (fd ≢ around.timer_fd)
      × Unfolds (calls + 1) (event + 1) events
  Unfolds calls event (interruption ∷ events) =
      (around.epoll_wait calls ≡ interrupted) × Unfolds (calls + 1) event events
  Unfolds calls event (timer ∷ events) =
      (around.epoll_wait calls ≡ ready (around.timer_fd ∷ []))
      × (around.timer_fd ≢ around.sock_fd)
      × ((around.outside event).send ≡ send)
      × Unfolds (calls + 1) (event + 1) events
