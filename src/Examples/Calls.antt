-- ===== src/Examples/Calls.antt =====
-- The calls of an application, the timer and the thread at concrete inputs.
use simple_mqtt.Base.{
  ◌≢◌, ℕ, ◌≡◌, refl, arith, true, false, none, some, List, [], ◌∷◌, length, ok, stuck,
}
use simple_mqtt.Message.Remain.Bounds.{encoding}
use simple_mqtt.Client.Keep.{MessageSend}
use simple_mqtt.Client.Connection.{
  Received, bytes, timed_out, broken, System, Session, Waited, message_send_and_wait_ack,
}
use simple_mqtt.Client.Connection.Waiting.{
  Bounded, message_send_and_wait_ack_closed, message_send_and_wait_ack_ends,
}
use simple_mqtt.Client.Api.{
  next_packet_id, mqtt_client_create, mqtt_client_destroy, mqtt_client_subscribe,
}
use simple_mqtt.Client.Api.Ends.{mqtt_client_create-ne-stuck}
use simple_mqtt.Client.Api.Created.{mqtt_client_create_closes}
use simple_mqtt.Client.Api.Connected.{
  Answered, config_of, connect_packet, heard, mqtt_client_create_accepted,
  mqtt_client_create_refused,
}
use simple_mqtt.Client.Api.Subscribed.{
  Subscribes, mqtt_client_subscribe_lem, mqtt_client_subscribe_codes,
}
use simple_mqtt.Examples.Connecting.{keep, id_only, id_only-Fit}

abbrev everything : (ℕ → ℕ → Received) → System
everything recv = record {
  socket = some 5;
  address_known = true;
  accepted = true;
  send = λ n message. some (length message);
  recv = recv;
  message_granted = true;
  payload_granted = true;
  copy_granted = true;
  node_granted = true;
  junk = 1;
  time = 1000;
}

abbrev pub fresh : List MessageSend → Session
fresh list = record {
  client = record {
    connected = false;
    socket_fd = some 5;
    keep_alive = 60;
    timeout_sec = 10;
    client_id = none;
    client_id_len = 0;
    sp = 0;
    packet_id_next = 1;
  };
  world = record { send_list = list; attempts = 0; wire = []; delivered = [] };
  receptions = 0;
  closed = [];
  keep_alive_timestamp = 1000;
}

-- A message that waits since the time 1000.
abbrev pub recent : MessageSend
recent = record { packet_id = 3; message = 7 ∷ []; message_len = 1; qos = 1; timestamp = 1000 }

message_send_and_wait_ack_closed_example :
    message_send_and_wait_ack 50 (everything (λ n len. bytes [])) (7 ∷ []) 5 (fresh []).world 0 0
    ≡ stuck
message_send_and_wait_ack_closed_example =
    message_send_and_wait_ack_closed (everything (λ n len. bytes [])) (7 ∷ []) 5 (λ n len. refl)
      (λ n e. cc) 50 (fresh []).world 0

message_send_and_wait_ack_ends_example :
    (w : Waited) × (message_send_and_wait_ack 4
        (everything (λ n len. timed_out))
        (7 ∷ [])
        5
        (fresh []).world
        0
        0
      ≡ ok w)
    × Bounded (fresh []).world 0 3 w
message_send_and_wait_ack_ends_example =
    message_send_and_wait_ack_ends (everything (λ n len. timed_out)) (7 ∷ []) 5 (λ n len e. cc)
      (fresh []).world 0

-- The server answers with a CONNACK packet with these flags and this code.
abbrev answers : ℕ → ℕ → System
answers flags code = everything (λ n len. bytes (0x20 ∷ 2 ∷ flags ∷ code ∷ []))

-- It accepts the connection.
abbrev answering : System
answering = answers 1 0

answering-Answered :
    (flags code : ℕ) (session : Session)
    → session.world.attempts ≡ 0
    → Answered
        (answers flags code)
        session.world.attempts
        session.receptions
        (connect_packet id_only keep)
        (length (connect_packet id_only keep))
        flags
        code
answering-Answered flags code session e = record {
  socket_there = λ p. cc;
  known = refl;
  accepted = refl;
  message_granted = refl;
  payload_granted = refl;
  copy_granted = refl;
  junk_there = omega arith;
  is_sent = refl;
  answer = refl;
}

-- The session behind an accepted connection.
abbrev connected : Session
connected = record (heard (fresh []) (connect_packet id_only keep)) {
  client = record (fresh []).client {
    connected = true;
    socket_fd = some 0;
    keep_alive = 60;
    client_id = some (105 ∷ 100 ∷ []);
    client_id_len = 2;
    sp = 1;
    packet_id_next = 1;
  };
  closed = some 5 ∷ [];
  keep_alive_timestamp = 1000;
}

mqtt_client_create_accepted_example :
    mqtt_client_create 1 answering true (some (config_of id_only keep)) (fresh [])
    ≡ ok (connected, 0)
unfolding encoding
mqtt_client_create_accepted_example =
    mqtt_client_create_accepted 0 answering id_only keep (fresh [])
      (length (connect_packet id_only keep)) 1 id_only-Fit (answering-Answered 1 0 (fresh []) refl)
      (omega arith)

mqtt_client_create_refused_example :
    mqtt_client_create 1 (answers 0 5) true (some (config_of id_only keep)) (fresh [])
    ≡ ok (
      record (heard (fresh []) (connect_packet id_only keep)) {
        client = record (fresh []).client { socket_fd = some 0; sp = 0 };
        closed = some 5 ∷ [];
      },
      11,
    )
unfolding encoding
mqtt_client_create_refused_example =
    mqtt_client_create_refused 0 (answers 0 5) id_only keep (fresh [])
      (length (connect_packet id_only keep)) 0 5 id_only-Fit
      (answering-Answered 0 5 (fresh []) refl) (omega arith) (omega arith)

mqtt_client_create-ne-stuck_example :
    mqtt_client_create 4
      (everything (λ n len. timed_out))
      true
      (some (config_of id_only keep))
      (fresh [])
    ≢ stuck
mqtt_client_create-ne-stuck_example =
    mqtt_client_create-ne-stuck (everything (λ n len. timed_out)) true
      (some (config_of id_only keep)) (fresh []) (λ n len e. cc)

mqtt_client_create_closes_example :
    (connected.closed ≡ some 5 ∷ [])
    × (connected.client.socket_fd ≡ some 0)
    × ((mqtt_client_destroy (some 0) connected).0.closed ≡ some 5 ∷ some 0 ∷ [])
unfolding encoding
mqtt_client_create_closes_example =
    mqtt_client_create_closes 1 answering (config_of id_only keep) (fresh []) connected 0 (some 0)
      (λ e. cc) refl refl
      (mqtt_client_create_accepted 0 answering id_only keep (fresh [])
        (length (connect_packet id_only keep)) 1 id_only-Fit
        (answering-Answered 1 0 (fresh []) refl) (omega arith))

abbrev pub no_answer : System
no_answer = everything (λ n len. broken)

mqtt_client_subscribe_lem_example :
    mqtt_client_subscribe no_answer true (fresh []) (some (97 ∷ [])) 1 1
    ≡ ok (
      record (fresh []) {
        client = record (fresh []).client { packet_id_next = 2 };
        world = record {
          send_list =
              record {
                packet_id = 1;
                message = 0x80 ∷ 6 ∷ 0 ∷ 1 ∷ 0 ∷ 1 ∷ 97 ∷ 1 ∷ [];
                message_len = 8;
                qos = 1;
                timestamp = 0;
              }
              ∷ [];
          attempts = 1;
          wire = (0x80 ∷ 6 ∷ 0 ∷ 1 ∷ 0 ∷ 1 ∷ 97 ∷ 1 ∷ []) ∷ [];
          delivered = [];
        };
      },
      0,
    )
unfolding encoding next_packet_id
mqtt_client_subscribe_lem_example =
    mqtt_client_subscribe_lem no_answer (fresh []) (97 ∷ []) 1 8 (λ e. cc) (omega arith) refl refl
      refl refl

mqtt_client_subscribe_codes_example : Subscribes (fresh []) (fresh []) 2
unfolding mqtt_client_subscribe
mqtt_client_subscribe_codes_example =
    mqtt_client_subscribe_codes no_answer (fresh []) true (some []) 0 1 (fresh []) 2 refl
