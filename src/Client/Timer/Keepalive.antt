-- ===== src/Client/Timer/Keepalive.antt =====
-- src/client/client_deamon.c: the theorem on a ping of `process_timer_event`.
use simple_mqtt.Base.{
  ℕ, ◌+◌, ◌≤◌, ◌≡◌, refl, arith, true, Option, none, some, [], ◌∷◌, take, emit, le→leb,
  if◌then◌else◌, Outcome, ok, fault, ◌>>=◌,
}
use simple_mqtt.Message.Ping.{pingreq_message_build}
use simple_mqtt.Client.Keep.Laws.{Distinct}
use simple_mqtt.Client.Process.{Send, if_sent, after_send, network_send, succeed, pingreq_msg_sent}
use simple_mqtt.Client.Connection.{Session}
use simple_mqtt.Client.Api.Subscribed.{sent_world}
use simple_mqtt.Client.Timer.{Tick, Ticked, after_ping, process_timer_event}
use simple_mqtt.Client.Timer.Expiry.{any_expired, check_timeouts_lem}

-- What a ping comes to, by what send(2) returns.
unfoldable pub ping_outcome : Option ℕ → Tick → Session → Outcome Ticked
ping_outcome none tick session = ok (record {
  session = record session {
    world = record session.world { attempts = session.world.attempts + 1 };
  };
  timeouts = [];
  ret = some 26;
})
ping_outcome (some sent) tick session =
    if any_expired session.client.timeout_sec tick.now session.world.send_list
    then fault
    else ok (record {
      session = record session {
        world = sent_world session.world (take sent (0xc0 ∷ 0 ∷ []));
        keep_alive_timestamp = tick.later;
      };
      timeouts = [];
      ret = some 0;
    })

ping_packet : pingreq_message_build (some 2) (some 2) ≡ ok (0xc0 ∷ 0 ∷ [])
unfolding pingreq_message_build emit
ping_packet = ground arith

after_ping_lem :
    (sent : Option ℕ) (tick : Tick) (session : Session)
    → ((n : ℕ) → sent ≡ some n → Distinct session.world.send_list)
    → (if_sent (after_send sent session.world (0xc0 ∷ 0 ∷ [])) succeed >>= after_ping tick session)
      ≡ ping_outcome sent tick session
unfolding ping_outcome after_ping if_sent after_send
after_ping_lem none tick session distinct = refl
after_ping_lem (some sent) tick session distinct =
    check_timeouts_lem tick.callbacks tick.now
      (record session {
        world = sent_world session.world (take sent (0xc0 ∷ 0 ∷ []));
        keep_alive_timestamp = tick.later;
      })
      (distinct sent refl)

-- When the keep alive time is over, a tick sends one PINGREQ packet. If send(2) fails, it returns
-- MQTT_MESSAGE_SEND_ERROR, whatever messages wait. If it succeeds, no two messages that wait are to have
-- the same identifier: if none of them is late, the keep alive time starts again, nothing else
-- changes and it returns MQTT_SUCCESS; if one is, its behaviour is undefined: it calls `timeout_cb` without a
-- test for NULL, and then reads the node it has just freed.
pub process_timer_event_ping :
    (send : Send) (tick : Tick) (session : Session)
    → tick.readable ≡ true
    → session.keep_alive_timestamp + session.client.keep_alive ≤ tick.now
    → ((n : ℕ)
        → send session.world.attempts (0xc0 ∷ 0 ∷ []) ≡ some n
        → Distinct session.world.send_list)
    → process_timer_event send tick session
      ≡ ping_outcome (send session.world.attempts (0xc0 ∷ 0 ∷ [])) tick session
unfolding process_timer_event ping_outcome pingreq_msg_sent network_send
process_timer_event_ping send tick session readable due distinct = simp (
  readable,
  le→leb (session.keep_alive_timestamp + session.client.keep_alive) tick.now due,
  ping_packet,
  after_ping_lem (send session.world.attempts (0xc0 ∷ 0 ∷ [])) tick session distinct,
)
