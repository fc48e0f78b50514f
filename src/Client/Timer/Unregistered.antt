-- ===== src/Client/Timer/Unregistered.antt =====
-- src/client/client_deamon.c: the theorem on `process_timer_event` without a callback.
use simple_mqtt.Base.{
  ap, ℕ, ◌+◌, ◌<◌, ◌≡◌, refl, ◌∙◌, true, false, none, some, List, [], ◌∷◌, ◌++◌, append_assoc,
  append-nil, gt→leb, ltb, if◌then◌else◌, Bool-cases, inl, inr, ok, fault,
}
use simple_mqtt.Client.Callbacks.{Callbacks, timeout_callback_register}
use simple_mqtt.Client.Keep.{MessageSend}
use simple_mqtt.Client.Process.{Send}
use simple_mqtt.Client.Connection.{Session}
use simple_mqtt.Client.Timer.{Tick, is_expired, timeout_loop, check_timeouts, process_timer_event}
use simple_mqtt.Client.Timer.Expiry.{any_expired}

timeout_loop_null :
    (timeout_sec now : ℕ) (before list timeouts : List MessageSend)
    → timeout_loop false timeout_sec now before list timeouts
      ≡ (if any_expired timeout_sec now list then fault else ok (before ++ list, timeouts))
unfolding timeout_loop is_expired
timeout_loop_null timeout_sec now before [] timeouts = rw (append-nil before) refl
timeout_loop_null timeout_sec now before (m ∷ list) timeouts =
    elim (Bool-cases (ltb (m.timestamp + timeout_sec) now)) [
      | inl late ↦ rw late refl
      | inr timely ↦ rw timely (
          timeout_loop_null timeout_sec now (before ++ (m ∷ [])) list timeouts
          ∙ rw (append_assoc before (m ∷ []) list) refl)
    ]

check_timeouts_null :
    (callbacks : Callbacks) (now : ℕ) (session : Session)
    → callbacks.timeout_cb ≡ none
    → check_timeouts callbacks now session ≡ (
        if any_expired session.client.timeout_sec now session.world.send_list
        then fault
        else ok (record { session = session; timeouts = []; ret = some 0 }))
unfolding check_timeouts
check_timeouts_null callbacks now session null =
    rw (null, timeout_loop_null session.client.timeout_sec now [] session.world.send_list [])
      (elim (Bool-cases (any_expired session.client.timeout_sec now session.world.send_list)) [
        | inl late ↦ rw late refl
        | inr timely ↦ rw timely refl
      ])

-- After `timeout_callback_register` with NULL, which returns 0, a tick before the time of a ping is undefined
-- just when some message that waits is late, whatever identifiers the messages have: NULL is called.
-- Otherwise the tick changes nothing and returns MQTT_SUCCESS.
pub process_timer_event_null :
    (send : Send) (tick : Tick) (session : Session) (callbacks : Callbacks)
    → (tick.callbacks, 0) ≡ timeout_callback_register none callbacks
    → tick.readable ≡ true
    → tick.now < session.keep_alive_timestamp + session.client.keep_alive
    → process_timer_event send tick session ≡ (
        if any_expired session.client.timeout_sec tick.now session.world.send_list
        then fault
        else ok (record { session = session; timeouts = []; ret = some 0 }))
unfolding process_timer_event timeout_callback_register
process_timer_event_null send tick session callbacks registered readable early = simp (
  readable,
  gt→leb (session.keep_alive_timestamp + session.client.keep_alive) tick.now early,
  check_timeouts_null tick.callbacks tick.now session (ap (λ r. r.0.timeout_cb) registered),
)
