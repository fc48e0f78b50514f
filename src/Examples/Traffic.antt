-- ===== src/Examples/Traffic.antt =====
-- Streams of packets at concrete inputs.
use simple_mqtt.Base.{
  true, false, ◌-◌, ℕ, none, ◌≡◌, refl, inl, inr, arith, Option, some, List, [], ◌∷◌, Bytes, ok,
  ◌==◌, if◌then◌else◌, ◌>>=◌,
}
use simple_mqtt.Message.Remain.Bounds.{encoding}
use simple_mqtt.Message.Publish.{type_with_flags}
use simple_mqtt.Message.Ack.RoundTrip.{pubrec}
use simple_mqtt.Client.Keep.{MessageSend}
use simple_mqtt.Client.Process.{World}
use simple_mqtt.Client.Receive.{Outside, is_ignored, process_socket_event}
use simple_mqtt.Client.Receive.Incoming.{
  Incoming, publish, acknowledgement, suback, pingresp, unexpected,
}
use simple_mqtt.Client.Receive.Misaligned.{process_socket_event_misaligned}
use simple_mqtt.Client.Receive.Replay.{shown, process_socket_event-replay}
use simple_mqtt.Client.Callbacks.{default_callbacks}
use simple_mqtt.Client.Loop.{Surroundings, ready, interrupted, failed, client_deamon_thread}
use simple_mqtt.Client.Loop.Polls.{
  Poll, burst, stranger, signal, no_tick, seen, client_deamon_thread-replay,
}
use simple_mqtt.Client.Loop.Attend.{Event, arrival, unknown, interruption, timer}
use simple_mqtt.Client.Loop.Watched.{watched, client_deamon_thread-attend}
use simple_mqtt.Examples.Ticks.{tick}
use simple_mqtt.Examples.Calls.{fresh, recent}
use simple_mqtt.Examples.Loop.{idle, two_calls}

-- A connection that stores these, call by call, and fails then.
abbrev nth : List Bytes → ℕ → Option Bytes
nth [] n = none
nth (b ∷ bs) n = if n == 0 then some b else nth bs (n - 1)

abbrev these_calls : List Bytes → Outside
these_calls parts = record idle_calls { recv = λ n len. nth parts n }
  where
    idle_calls : Outside
    idle_calls = two_calls [] []

-- A message that waits for an acknowledgement.
abbrev waiting : ℕ → MessageSend
waiting packet_id = record {
  packet_id = packet_id;
  message = 7 ∷ [];
  message_len = 1;
  qos = 1;
  timestamp = 0;
}

abbrev busy : World
busy = record idle { send_list = waiting 258 ∷ waiting 3 ∷ [] }

-- A message with QoS 1 under the identifier 258, a PUBREC, a SUBACK, a PINGREQ, and a PINGRESP.
abbrev packets : List Incoming
packets =
    publish record { dup = 0; qos = 1; retain = 1; packet_id = 258 } ((97 ∷ []), (9 ∷ []))
    ∷ acknowledgement pubrec 7
    ∷ suback 3 (1 ∷ 0x80 ∷ [])
    ∷ unexpected 0xc0 []
    ∷ pingresp
    ∷ []

abbrev traffic : Outside
traffic = these_calls (
    (0x33 ∷ 6 ∷ 0 ∷ 1 ∷ 97 ∷ [])
    ∷ (1 ∷ 2 ∷ 9 ∷ [])
    ∷ (0x50 ∷ 2 ∷ 0 ∷ 7 ∷ [])
    ∷ (0x90 ∷ 4 ∷ 0 ∷ 3 ∷ 1 ∷ [])
    ∷ (0x80 ∷ [])
    ∷ (0xc0 ∷ 0 ∷ [])
    ∷ (0xd0 ∷ 0 ∷ [])
    ∷ [])

process_socket_event-replay_example :
    (process_socket_event 6 traffic busy 0 >>= shown)
    ≡ ok (
      record {
        send_list = waiting 3 ∷ [];
        attempts = 2;
        wire = (0x40 ∷ 2 ∷ 1 ∷ 2 ∷ []) ∷ (0x60 ∷ 2 ∷ 0 ∷ 7 ∷ []) ∷ [];
        heard = ((97 ∷ []), (9 ∷ [])) ∷ [];
      },
      28,
    )
unfolding encoding type_with_flags is_ignored
process_socket_event-replay_example =
    process_socket_event-replay traffic busy 0 6 packets
      (
        (omega arith, omega arith, omega arith),
        (
          omega arith,
          (
            (omega arith, (refl, (refl, tt)), omega arith),
            ((omega arith, refl, omega arith), (tt, tt)),
          ),
        ),
      )
      (inr (
        refl,
        omega arith,
        refl,
        inl (refl, inr (refl, omega arith, refl, inl (refl, inl (refl, refl)))),
      ))
      (omega arith)

-- A message with QoS 0, a signal, the timer without a tick, and a PUBREC with the rest of the packets.
abbrev polled : List Poll
polled =
    burst (publish record { dup = 0; qos = 0; retain = 0; packet_id = 0 } ((98 ∷ []), []) ∷ [])
    ∷ signal
    ∷ no_tick
    ∷ stranger 9
    ∷ burst (acknowledgement pubrec 7 ∷ pingresp ∷ [])
    ∷ []

abbrev surroundings : Surroundings
surroundings = record {
  sock_fd = 5;
  timer_fd = 6;
  epoll_wait = λ n.
      if n == 0
      then ready (5 ∷ [])
      else if n == 1
      then interrupted
      else if n == 2
      then ready (6 ∷ [])
      else if n == 3
      then ready (9 ∷ [])
      else if n == 4
      then ready (5 ∷ [])
      else failed;
  outside = λ n.
      if n == 0
      then these_calls ((0x30 ∷ 3 ∷ 0 ∷ 1 ∷ 98 ∷ []) ∷ [])
      else these_calls ((0x50 ∷ 2 ∷ 0 ∷ 7 ∷ []) ∷ (0xd0 ∷ 0 ∷ []) ∷ []);
  tick = λ n. record { readable = false; now = 0; later = 0; callbacks = default_callbacks 1 2 };
  rounds = λ n. 3;
}

client_deamon_thread-replay_example :
    (client_deamon_thread 6 surroundings 0 0 (fresh []) >>= seen)
    ≡ ok (record {
      send_list = [];
      attempts = 1;
      wire = (0x60 ∷ 2 ∷ 0 ∷ 7 ∷ []) ∷ [];
      heard = ((98 ∷ []), []) ∷ [];
    })
unfolding encoding type_with_flags
client_deamon_thread-replay_example =
    client_deamon_thread-replay surroundings (two_calls [] []).send true polled 6 0 0 (fresh [])
      (omega arith)
      (
        refl,
        record {
          same_send = refl;
          same_callbacks = refl;
          fits = ((omega arith, omega arith, omega arith), tt);
          arrives = inl (refl, refl);
          enough = omega arith;
        },
        (
          refl,
          (
            refl,
            (λ e. omega (arith, e)),
            refl,
            (
              refl,
              (λ e. omega (arith, e)),
              (λ e. omega (arith, e)),
              (
                refl,
                record {
                  same_send = refl;
                  same_callbacks = refl;
                  fits = (omega arith, (tt, tt));
                  arrives = inl (refl, inl (refl, refl));
                  enough = omega arith;
                },
                refl,
              ),
            ),
          ),
        ),
      )

-- A PINGRESP and a PUBREC with identifier 7, of which five bytes and then one are received.
abbrev misaligned : Outside
misaligned = these_calls ((0xd0 ∷ 0 ∷ 0x50 ∷ 2 ∷ 0 ∷ []) ∷ (7 ∷ []) ∷ [])

process_socket_event_misaligned_example : process_socket_event 2 misaligned busy 0 ≡ ok (busy, 28)
process_socket_event_misaligned_example =
    process_socket_event_misaligned misaligned busy 0 0 0x50 2 0 7 (omega arith) refl refl refl

-- A signal, a tick, a message with QoS 1 under the identifier of the message that waits, a tick when the
-- keep alive time is over, and a descriptor that is not known.
abbrev attended : List Event
attended =
    interruption
    ∷ timer
    ∷ arrival
        (publish record { dup = 0; qos = 1; retain = 0; packet_id = 3 } ((97 ∷ []), (9 ∷ [])) ∷ [])
    ∷ timer
    ∷ unknown 9
    ∷ []

abbrev busy_hour : Surroundings
busy_hour = record {
  sock_fd = 5;
  timer_fd = 6;
  epoll_wait = λ n.
      if n == 0
      then interrupted
      else if n == 1
      then ready (6 ∷ [])
      else if n == 2
      then ready (5 ∷ [])
      else if n == 3
      then ready (6 ∷ [])
      else if n == 4
      then ready (9 ∷ [])
      else failed;
  outside = λ n.
      if n == 1
      then these_calls ((0x32 ∷ 6 ∷ 0 ∷ 1 ∷ 97 ∷ []) ∷ (0 ∷ 3 ∷ 9 ∷ []) ∷ [])
      else two_calls [] [];
  tick = λ n. if n == 0 then tick 1005 else tick 1060;
  rounds = λ n. 2;
}

client_deamon_thread-attend_example :
    (client_deamon_thread 6 busy_hour 0 0 (fresh (recent ∷ [])) >>= watched)
    ≡ ok (record {
      seen = record {
        send_list = [];
        attempts = 2;
        wire = (0x40 ∷ 2 ∷ 0 ∷ 3 ∷ []) ∷ (0xc0 ∷ 0 ∷ []) ∷ [];
        heard = ((97 ∷ []), (9 ∷ [])) ∷ [];
      };
      since = 1060;
    })
unfolding encoding type_with_flags
client_deamon_thread-attend_example =
    client_deamon_thread-attend busy_hour (two_calls [] []).send true attended 6 0 0
      (fresh (recent ∷ [])) (omega arith) (tt, tt)
      (
        refl,
        (
          refl,
          (λ e. omega (arith, e)),
          refl,
          (
            refl,
            record {
              same_send = refl;
              same_callbacks = refl;
              fits = ((omega arith, omega arith, omega arith), tt);
              arrives = inr (refl, omega arith, refl, refl);
              enough = omega arith;
            },
            (
              refl,
              (λ e. omega (arith, e)),
              refl,
              (refl, (λ e. omega (arith, e)), (λ e. omega (arith, e)), refl),
            ),
          ),
        ),
      )
