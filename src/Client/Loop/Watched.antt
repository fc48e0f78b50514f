-- ===== src/Client/Loop/Watched.antt =====
-- src/client/client_deamon.c: the theorem that `client_deamon_thread` does with its events, the ticks of the timer
-- among them, what the description says.
use simple_mqtt.Base.{
  ℕ, zero, suc, ◌+◌, ◌<◌, ◌≡◌, refl, ap, sym, ◌∙◌, arith, Bool, true, false, Option, none, some,
  List, [], ◌∷◌, length, leb, ne→==, eq→==, Bool-cases, if◌then◌else◌, inl, inr, Outcome, ok, err,
  fault, stuck, ◌>>=◌, Yields-ok, >>=_assoc,
}
use simple_mqtt.Client.Keep.Laws.{Distinct}
use simple_mqtt.Client.Process.{World, Send}
use simple_mqtt.Client.Receive.{process_socket_event}
use simple_mqtt.Client.Receive.Incoming.{Incoming, View, view, replay}
use simple_mqtt.Client.Receive.Replay.{shown, process_socket_event-replay}
use simple_mqtt.Client.Receive.Apart.{Apart, replay-Apart}
use simple_mqtt.Client.Connection.{Session}
use simple_mqtt.Client.Timer.{Tick, Ticked, process_timer_event}
use simple_mqtt.Client.Timer.Expiry.{any_expired, process_timer_event_lem}
use simple_mqtt.Client.Timer.Keepalive.{ping_outcome, process_timer_event_ping}
use simple_mqtt.Client.Loop.{
  Surroundings, thread_event, thread_events, after_poll, client_deamon_thread,
}
use simple_mqtt.Client.Loop.Polls.{Burst, view_of, cut_off-view}
use simple_mqtt.Client.Loop.Attend.{
  Event, arrival, unknown, interruption, timer, Watch, watch, unless_late, ping, attend_tick,
  attend, Unfolds,
}

-- What there is to see where the thread ends.
abbrev pub watched : Session → Outcome Watch
watched session = ok (watch session)

-- A part of the thread that leaves the session like this.
abbrev moved : Session → World → ℕ → Session
moved session world since = record session { world = world; keep_alive_timestamp = since }

-- The rest of the thread, behind a call of `process_socket_event`.
behind_socket :
    (session : Session) (m : Outcome (World × ℕ)) (d : Outcome View)
    (next : Session → Outcome Session) (described : View → Outcome Watch)
    → d ≡ ((m >>= shown) >>= view_of)
    → ((world : World)
        → d ≡ ok (view world)
        → (next (record session { world = world }) >>= watched) ≡ described (view world))
    → (((m >>= λ r. ok (record session { world = r.0 })) >>= next) >>= watched) ≡ (d >>= described)
unfolding view_of
behind_socket session (ok (world, ret)) d next described same h = h world same ∙ rw same refl
behind_socket session (err e) d next described same h = rw same refl
behind_socket session fault d next described same h = rw same refl
behind_socket session stuck d next described same h = rw same refl

-- The rest of the thread does what is described, from any state on where the identifiers differ.
abbrev Follows : Session → (Session → Outcome Session) → (Watch → Outcome Watch) → Type 0
Follows session next described =
    (world : World) (since : ℕ)
    → Distinct world.send_list
    → (next (moved session world since) >>= watched)
      ≡ described (record { seen = view world; since = since })

abbrev calm : Bool → Session → Outcome Ticked
calm b session = if b then fault else ok (record { session = session; timeouts = []; ret = some 0 })

behind_late :
    (b : Bool) (session : Session) (next : Session → Outcome Session)
    (described : Watch → Outcome Watch)
    → (next session >>= watched) ≡ described (watch session)
    → (((calm b session >>= λ ticked. ok ticked.session) >>= next) >>= watched)
      ≡ ((if b then fault else ok (watch session)) >>= described)
behind_late true session next described h = refl
behind_late false session next described h = h

behind_ping :
    (sent : Option ℕ) (t : Tick) (session : Session) (next : Session → Outcome Session)
    (described : Watch → Outcome Watch)
    → Distinct session.world.send_list
    → Follows session next described
    → (((ping_outcome sent t session >>= λ ticked. ok ticked.session) >>= next) >>= watched)
      ≡ (ping session.client t sent (watch session) >>= described)
unfolding ping_outcome
behind_ping none t session next described apart h = h _ session.keep_alive_timestamp apart
behind_ping (some sent) t session next described apart h =
    behind_late (any_expired session.client.timeout_sec t.now session.world.send_list) _ next
      described (h _ t.later apart)

-- A tick, in its three cases.
tick_due :
    (send : Send) (t : Tick) (session : Session)
    → t.readable ≡ true
    → leb (session.keep_alive_timestamp + session.client.keep_alive) t.now ≡ true
    → attend_tick send session.client t (watch session)
      ≡ ping session.client t (send session.world.attempts (0xc0 ∷ 0 ∷ [])) (watch session)
tick_due send t session there due = simp (there, due)

tick_early :
    (send : Send) (t : Tick) (session : Session)
    → t.readable ≡ true
    → leb (session.keep_alive_timestamp + session.client.keep_alive) t.now ≡ false
    → attend_tick send session.client t (watch session)
      ≡ unless_late session.client t (watch session)
tick_early send t session there early = simp (there, early)

behind_tick :
    (send : Send) (t : Tick) (session : Session) (next : Session → Outcome Session)
    (described : Watch → Outcome Watch)
    → Distinct session.world.send_list
    → Follows session next described
    → (((process_timer_event send t session >>= λ ticked. ok ticked.session) >>= next) >>= watched)
      ≡ (attend_tick send session.client t (watch session) >>= described)
unfolding process_timer_event
behind_tick send t session next described apart h = elim (Bool-cases t.readable) [
  | inl there ↦
      elim (Bool-cases (leb (session.keep_alive_timestamp + session.client.keep_alive) t.now)) [
        | inl due ↦
            ap rest
              (process_timer_event_ping send t session there (ground (arith, due)) (λ n e. apart))
            ∙ behind_ping (send session.world.attempts (0xc0 ∷ 0 ∷ [])) t session next described
                apart h
            ∙ ap (λ d. d >>= described) (sym (tick_due send t session there due))
        | inr early ↦
            ap rest (process_timer_event_lem send t session there (ground (arith, early)) apart)
            ∙ behind_late (any_expired session.client.timeout_sec t.now session.world.send_list)
                session next described (h session.world session.keep_alive_timestamp apart)
            ∙ ap (λ d. d >>= described) (sym (tick_early send t session there early))
      ]
  | inr silent ↦ rw silent (h session.world session.keep_alive_timestamp apart)
]
  where
    rest : Outcome Ticked → Outcome Watch
    rest m = ((m >>= λ ticked. ok ticked.session) >>= next) >>= watched

module _ (around : Surroundings) (send : Send) (pub_cb : Bool) where
  behind_packets :
      (event : ℕ) (session : Session) (packets : List Incoming) (next : Session → Outcome Session)
      (described : Watch → Outcome Watch)
      → Burst around send pub_cb event packets
      → Distinct session.world.send_list
      → Follows session next described
      → ((thread_event around event around.sock_fd session >>= next) >>= watched) ≡ (
          replay send pub_cb packets (view session.world) >>= λ v.
          described (record { seen = v; since = session.keep_alive_timestamp }))
  unfolding thread_event
  behind_packets event session packets next described b apart h =
      rw (eq→== around.sock_fd around.sock_fd refl) (
        behind_socket session
          (process_socket_event (around.rounds event) (around.outside event) session.world 0)
          (replay send pub_cb packets (view session.world)) next
          (λ v. described (record { seen = v; since = session.keep_alive_timestamp }))
          (sym (
            ap (λ d. d >>= view_of)
              (process_socket_event-replay (around.outside event) session.world 0
                (around.rounds event) packets b.fits b.arrives b.enough)
            ∙ cut_off-view _
            ∙ rw (b.same_send, b.same_callbacks) refl))
          (λ world same. h world session.keep_alive_timestamp (
            Yields-ok Apart (replay send pub_cb packets (view session.world))
              (replay-Apart send pub_cb packets (view session.world) apart) same)))

  -- For every sequence of events, in each of which the thread finds packets at the socket, a descriptor that it
  -- does not know, a signal, or the timer, until a call of epoll_wait(2) fails, where no two messages that
  -- wait at first have the same identifier: fuel for one call more than there are events is enough for
  -- `client_deamon_thread`. What the application has heard, what was sent, PINGREQ packets included, the send
  -- list and the time of the last ping are then those of the description `attend`, which answers packets
  -- as they come and attends to each tick with the state that the events before it have left; and the
  -- thread is undefined exactly where the description is.
  pub client_deamon_thread-attend :
      (events : List Event) (fuel calls event : ℕ) (session : Session)
      → length events < fuel
      → Distinct session.world.send_list
      → Unfolds around send pub_cb calls event events
      → (client_deamon_thread fuel around calls event session >>= watched)
        ≡ attend around send pub_cb session.client event events (watch session)
  unfolding client_deamon_thread after_poll thread_events thread_event
  client_deamon_thread-attend events zero calls event session more apart unfolds =
      absurd (omega arith)
  client_deamon_thread-attend [] (suc fuel) calls event session more apart unfolds = rw unfolds refl
  client_deamon_thread-attend (interruption ∷ events) (suc fuel) calls event session more apart
        (poll, rest) =
      rw poll
        (client_deamon_thread-attend events fuel (calls + 1) event session (omega arith) apart rest)
  client_deamon_thread-attend (unknown fd ∷ events) (suc fuel) calls event session more apart
        (poll, not_socket, not_timer, rest) =
      rw (poll, ne→== fd around.sock_fd not_socket, ne→== fd around.timer_fd not_timer)
        (client_deamon_thread-attend events fuel (calls + 1) (event + 1) session (omega arith) apart
          rest)
  client_deamon_thread-attend (timer ∷ events) (suc fuel) calls event session more apart
        (poll, other, same_send, rest) =
      let next : Session → Outcome Session =
        client_deamon_thread fuel around (calls + 1) (event + 1) in
      rw
        (
          poll,
          ne→== around.timer_fd around.sock_fd other,
          eq→== around.timer_fd around.timer_fd refl,
          same_send,
        )
        (ap (λ m. m >>= watched)
            (>>=_assoc
              (process_timer_event send (around.tick event) session >>= λ ticked. ok ticked.session)
              (λ s. ok s) next)
          ∙ behind_tick send (around.tick event) session next
              (attend around send pub_cb session.client (event + 1) events) apart
              (λ world since h.
                client_deamon_thread-attend events fuel (calls + 1) (event + 1)
                  (moved session world since) (omega arith) h rest))
  client_deamon_thread-attend (arrival packets ∷ events) (suc fuel) calls event session more apart
        (poll, b, rest) =
      let next : Session → Outcome Session =
        client_deamon_thread fuel around (calls + 1) (event + 1) in
      rw poll (
        ap (λ m. m >>= watched)
          (>>=_assoc (thread_event around event around.sock_fd session) (λ s. ok s) next)
        ∙ behind_packets event session packets next
            (attend around send pub_cb session.client (event + 1) events) b apart
            (λ world since h.
              client_deamon_thread-attend events fuel (calls + 1) (event + 1)
                (moved session world since) (omega arith) h rest))
