-- ===== src/Client/Loop/Polls.antt =====
-- src/client/client_deamon.c: the theorem that `client_deamon_thread` does with the packets of its events what
-- the description of the client says.
use simple_mqtt.Base.{
  >>=_assoc, >>=_ext, ℕ, zero, suc, ◌+◌, ◌<◌, ◌≡◌, ◌≢◌, refl, ap, sym, ◌∙◌, arith, Bool, false,
  List, [], ◌∷◌, ◌++◌, map, All, length, ne→==, eq→==, Outcome, ok, err, fault, stuck, ◌>>=◌,
}
use simple_mqtt.Client.Process.{World, Send}
use simple_mqtt.Client.Receive.{listening, process_socket_event}
use simple_mqtt.Client.Receive.Incoming.{Incoming, bytes_of, View, view, serve, replay}
use simple_mqtt.Client.Receive.Arrivals.{Arrives}
use simple_mqtt.Client.Receive.Replay.{Fits, shown, cut_off, process_socket_event-replay}
use simple_mqtt.Client.Connection.{Session}
use simple_mqtt.Client.Timer.{process_timer_event}
use simple_mqtt.Client.Loop.{
  ready, interrupted, failed, Surroundings, thread_event, thread_events, after_poll,
  client_deamon_thread,
}

-- What a call of epoll_wait(2) finds: packets at the socket, a signal, a descriptor that the thread does not
-- know, or the timer, which has no tick to read.
pub data Poll : Type 0 where
  burst : List Incoming → Poll
  stranger : ℕ → Poll
  signal no_tick : Poll

-- All the packets, in order.
abbrev pub packets_of : List Poll → List Incoming
packets_of [] = []
packets_of (burst packets ∷ polls) = packets ++ packets_of polls
packets_of (stranger fd ∷ polls) = packets_of polls
packets_of (signal ∷ polls) = packets_of polls
packets_of (no_tick ∷ polls) = packets_of polls

module _ (around : Surroundings) (send : Send) (pub_cb : Bool) where
  -- The packets of an event come in until recv(2) fails, with the same callbacks and the same connection.
  pub record Burst (event : ℕ) (packets : List Incoming) : Type 0 where
    pub same_send : (around.outside event).send ≡ send
    pub same_callbacks : listening (around.outside event) ≡ pub_cb
    pub fits : All Fits packets
    pub arrives : Arrives (around.outside event) 0 (map bytes_of packets)
    pub enough : length packets < around.rounds event

  -- The calls of epoll_wait(2) find these, one event each, and then one fails.
  abbrev pub Happens : ℕ → ℕ → List Poll → Type 0
  Happens calls event [] = around.epoll_wait calls ≡ failed
  Happens calls event (burst packets ∷ polls) =
      (around.epoll_wait calls ≡ ready (around.sock_fd ∷ []))
      × Burst event packets
      × Happens (calls + 1) (event + 1) polls
  Happens calls event (stranger fd ∷ polls) =
      (around.epoll_wait calls ≡ ready (fd ∷ []))
      × (fd ≢ around.sock_fd)
      × (fd ≢ around.timer_fd)
      × Happens (calls + 1) (event + 1) polls
  Happens calls event (signal ∷ polls) =
      (around.epoll_wait calls ≡ interrupted) × Happens (calls + 1) event polls
  Happens calls event (no_tick ∷ polls) =
      (around.epoll_wait calls ≡ ready (around.timer_fd ∷ []))
      × (around.timer_fd ≢ around.sock_fd)
      × ((around.tick event).readable ≡ false)
      × Happens (calls + 1) (event + 1) polls

-- What there is to see where the thread ends.
abbrev pub seen : Session → Outcome View
seen session = ok (view session.world)

replay-append :
    (send : Send) (pub_cb : Bool) (xs ys : List Incoming) (v : View)
    → replay send pub_cb (xs ++ ys) v ≡ (replay send pub_cb xs v >>= replay send pub_cb ys)
replay-append send pub_cb [] ys v = refl
replay-append send pub_cb (p ∷ xs) ys v =
    >>=_ext (serve send pub_cb p v) _ _ (replay-append send pub_cb xs ys)
    ∙ sym (>>=_assoc (serve send pub_cb p v) (replay send pub_cb xs) (replay send pub_cb ys))

-- The rest of the thread, behind a call of `process_socket_event`.
unfoldable pub view_of : View × ℕ → Outcome View
view_of (v, ret) = ok v

pub cut_off-view : (d : Outcome View) → ((d >>= cut_off) >>= view_of) ≡ d
unfolding view_of
cut_off-view (ok v) = refl
cut_off-view (err e) = refl
cut_off-view fault = refl
cut_off-view stuck = refl

behind :
    (session : Session) (m : Outcome (World × ℕ)) (next : Session → Outcome Session)
    (described : View → Outcome View)
    → ((s : Session) → (next s >>= seen) ≡ described (view s.world))
    → (((m >>= λ r. ok (record session { world = r.0 })) >>= next) >>= seen)
      ≡ (((m >>= shown) >>= view_of) >>= described)
unfolding view_of
behind session (ok (world, ret)) next described h = h (record session { world = world })
behind session (err e) next described h = refl
behind session fault next described h = refl
behind session stuck next described h = refl

module _ (around : Surroundings) (send : Send) (pub_cb : Bool) where
  burst_lem :
      (event : ℕ) (session : Session) (packets : List Incoming) (next : Session → Outcome Session)
      (described : View → Outcome View)
      → Burst around send pub_cb event packets
      → ((s : Session) → (next s >>= seen) ≡ described (view s.world))
      → ((thread_event around event around.sock_fd session >>= next) >>= seen)
        ≡ (replay send pub_cb packets (view session.world) >>= described)
  unfolding thread_event
  burst_lem event session packets next described b h =
      rw (eq→== around.sock_fd around.sock_fd refl) (
        behind session
          (process_socket_event (around.rounds event) (around.outside event) session.world 0) next
          described h
        ∙ ap (λ d. (d >>= view_of) >>= described)
            (process_socket_event-replay (around.outside event) session.world 0
              (around.rounds event) packets b.fits b.arrives b.enough)
        ∙ ap (λ d. d >>= described) (cut_off-view _ ∙ rw (b.same_send, b.same_callbacks) refl))

  -- For every sequence of events, in each of which the thread finds packets at the socket, a signal, a
  -- descriptor that it does not know, or the timer without a tick, until a call of epoll_wait(2) fails:
  -- fuel for one call more than there are events is enough for `client_deamon_thread`. What the
  -- application has heard, what was sent, and the send list are then those of the description `replay`
  -- for all the packets in order, however they are divided among the events; and the thread is undefined
  -- exactly where the description is.
  pub client_deamon_thread-replay :
      (polls : List Poll) (fuel calls event : ℕ) (session : Session)
      → length polls < fuel
      → Happens around send pub_cb calls event polls
      → (client_deamon_thread fuel around calls event session >>= seen)
        ≡ replay send pub_cb (packets_of polls) (view session.world)
  unfolding client_deamon_thread after_poll thread_events thread_event process_timer_event
  client_deamon_thread-replay polls zero calls event session more happens = absurd (omega arith)
  client_deamon_thread-replay [] (suc fuel) calls event session more happens = rw happens refl
  client_deamon_thread-replay (signal ∷ polls) (suc fuel) calls event session more (poll, rest) =
      rw poll (client_deamon_thread-replay polls fuel (calls + 1) event session (omega arith) rest)
  client_deamon_thread-replay (stranger fd ∷ polls) (suc fuel) calls event session more
        (poll, not_socket, not_timer, rest) =
      rw (poll, ne→== fd around.sock_fd not_socket, ne→== fd around.timer_fd not_timer)
        (client_deamon_thread-replay polls fuel (calls + 1) (event + 1) session (omega arith) rest)
  client_deamon_thread-replay (no_tick ∷ polls) (suc fuel) calls event session more
        (poll, apart, silent, rest) =
      rw
        (
          poll,
          ne→== around.timer_fd around.sock_fd apart,
          eq→== around.timer_fd around.timer_fd refl,
          silent,
        )
        (client_deamon_thread-replay polls fuel (calls + 1) (event + 1) session (omega arith) rest)
  client_deamon_thread-replay (burst packets ∷ polls) (suc fuel) calls event session more
        (poll, b, rest) =
      let next : Session → Outcome Session =
        client_deamon_thread fuel around (calls + 1) (event + 1) in
      rw (poll, replay-append send pub_cb packets (packets_of polls) (view session.world))
        (ap (λ m. m >>= seen)
            (>>=_assoc (thread_event around event around.sock_fd session) (λ s. ok s) next)
          ∙ burst_lem event session packets next (replay send pub_cb (packets_of polls)) b (λ s.
            client_deamon_thread-replay polls fuel (calls + 1) (event + 1) s (omega arith) rest))
