-- ===== src/Examples/Ticks.antt =====
-- The timer and the thread at concrete inputs.
use simple_mqtt.Base.{
  false, Bool, false, List, ℕ, ◌≡◌, refl, arith, true, none, some, [], ◌∷◌, ok, fault,
}
use simple_mqtt.Message.Remain.Bounds.{encoding}
use simple_mqtt.Client.Callbacks.{default_callbacks}
use simple_mqtt.Client.Keep.{MessageSend}
use simple_mqtt.Client.Connection.{Session}
use simple_mqtt.Client.Api.{next_packet_id, mqtt_client_subscribe}
use simple_mqtt.Client.Timer.{Tick, process_timer_event}
use simple_mqtt.Client.Timer.Expiry.{process_timer_event_lem}
use simple_mqtt.Client.Thread.{joined, Trace, Host, client_deamon_create}
use simple_mqtt.Client.Thread.Released.{Tidy, Ends, client_deamon_create-Tidy}
use simple_mqtt.Client.Api.Subscribed.{mqtt_client_subscribe_lem}
use simple_mqtt.Message.Subscribe.{subscribe_message_len_calc}
use simple_mqtt.Client.Subscriptions.{Subscription, subscriptions, subscriptions_then_timer}
use simple_mqtt.Client.Keep.Laws.{Distinct}
use simple_mqtt.Examples.Calls.{fresh, no_answer, recent}
use simple_mqtt.Client.Callbacks.{timeout_callback_register}
use simple_mqtt.Client.Timer.Keepalive.{ping_outcome, process_timer_event_ping}
use simple_mqtt.Client.Timer.Unregistered.{process_timer_event_null}

abbrev pub tick : ℕ → Tick
tick now = record { readable = true; now = now; later = now; callbacks = default_callbacks 1 2 }

process_timer_event_lem_example :
    process_timer_event no_answer.send (tick 1005) (fresh (recent ∷ []))
    ≡ ok (record { session = fresh (recent ∷ []); timeouts = []; ret = some 0 })
process_timer_event_lem_example =
    process_timer_event_lem no_answer.send (tick 1005) (fresh (recent ∷ [])) refl (omega arith)
      (tt, tt)

process_timer_event_ping_example :
    process_timer_event no_answer.send (tick 1060) (fresh [])
    ≡ ping_outcome (some 2) (tick 1060) (fresh [])
process_timer_event_ping_example =
    process_timer_event_ping no_answer.send (tick 1060) (fresh []) refl (omega arith) (λ n e. tt)

-- Without a callback for a message that is late.
abbrev unanswered : Tick
unanswered = record (tick 1005) { callbacks = record { publish_cb = some 1; timeout_cb = none } }

-- Two messages that are late, with one identifier.
abbrev late : MessageSend
late = record recent { timestamp = 3 }

process_timer_event_null_example :
    process_timer_event no_answer.send unanswered (fresh (recent ∷ late ∷ [])) ≡ fault
unfolding timeout_callback_register
process_timer_event_null_example =
    process_timer_event_null no_answer.send unanswered (fresh (recent ∷ late ∷ []))
      (default_callbacks 1 2) refl refl (omega arith)

-- The topic "a" three times, where the second time the memory for the packet is not granted.
abbrev subscription : Bool → Subscription
subscription granted = record {
  system = record no_answer { message_granted = granted };
  client_ok = true;
  topic = some (97 ∷ []);
  topic_len = 1;
  qos = 1;
}

abbrev three : List Subscription
three = subscription true ∷ subscription false ∷ subscription true ∷ []

-- A message as such a call leaves it.
abbrev kept : ℕ → MessageSend
kept packet_id = record {
  packet_id = packet_id;
  message = 0x80 ∷ 6 ∷ 0 ∷ packet_id ∷ 0 ∷ 1 ∷ 97 ∷ 1 ∷ [];
  message_len = 8;
  qos = 1;
  timestamp = 0;
}

-- The session behind them.
abbrev subscribed : Session
subscribed = record (fresh []) {
  client = record (fresh []).client { packet_id_next = 3 };
  world = record {
    send_list = kept 1 ∷ kept 2 ∷ [];
    attempts = 2;
    wire = (kept 1).message ∷ (kept 2).message ∷ [];
    delivered = [];
  };
}

abbrev once : Session
once = record (fresh []) {
  client = record (fresh []).client { packet_id_next = 2 };
  world = record {
    send_list = kept 1 ∷ [];
    attempts = 1;
    wire = (kept 1).message ∷ [];
    delivered = [];
  };
}

refused :
    mqtt_client_subscribe
      (record no_answer { message_granted = false })
      true
      once
      (some (97 ∷ []))
      1
      1
    ≡ ok (once, 3)
unfolding mqtt_client_subscribe subscribe_message_len_calc
refused = refl

three_run : subscriptions three (fresh []) ≡ ok subscribed
unfolding encoding next_packet_id
three_run =
    rw
      (
        mqtt_client_subscribe_lem no_answer (fresh []) (97 ∷ []) 1 8 (λ e. cc) (omega arith) refl
            refl refl refl,
        refused,
      )
      (rw
        (mqtt_client_subscribe_lem no_answer once (97 ∷ []) 1 8 (λ e. cc) (omega arith) refl refl
          refl refl)
        refl)

subscriptions_then_timer_example :
    Distinct (kept 1 ∷ kept 2 ∷ [])
    × (process_timer_event no_answer.send (tick 1001) subscribed ≡ fault)
subscriptions_then_timer_example =
    subscriptions_then_timer three no_answer.send (tick 1001) (fresh []) subscribed refl refl
      (omega arith) three_run refl (omega arith)

-- An operating system that does all it is asked, and returns from pthread_join(3) at once, with an error.
abbrev willing : Host
willing = record {
  ctx_granted = true;
  timer = some 6;
  timer_set = true;
  epoll = some 7;
  socket_added = true;
  timer_added = true;
  thread_created = true;
  join = λ tid. joined 3;
}

-- Nothing opened, allocated or started yet.
abbrev untouched : Trace
untouched = record { opened = []; closed = []; allocated = 0; freed = 0; started = 0 }

client_deamon_create-Tidy_example :
    Ends (joined 3) (Tidy untouched) (client_deamon_create willing true untouched)
client_deamon_create-Tidy_example = client_deamon_create-Tidy willing true untouched

-- The error of pthread_join(3) is not looked at.
willing_run :
    client_deamon_create willing true untouched
    ≡ ok (
      record { opened = 6 ∷ 7 ∷ []; closed = 7 ∷ 6 ∷ []; allocated = 1; freed = 1; started = 1 },
      some 0,
    )
unfolding client_deamon_create
willing_run = refl
