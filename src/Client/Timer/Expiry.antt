-- ===== src/Client/Timer/Expiry.antt =====
-- src/client/client_deamon.c: theorems on `process_timer_event`.
use simple_mqtt.Base.{
  ◌>>◌, defined_if, All, ℕ, ◌+◌, ◌<◌, ◌≡◌, ◌≢◌, refl, ◌∙◌, sym, arith, Bool, true, false, ◌||◌,
  some, List, [], ◌∷◌, ◌++◌, append_assoc, append-nil, Bytes, take, gt→leb, length, IsU16, ltb,
  lt→ltb, if◌then◌else◌, Bool-cases, inl, inr, Outcome, ok, fault,
}
use simple_mqtt.Client.Keep.{MessageSend, message_send_find}
use simple_mqtt.Client.Keep.Laws.{Absent, Distinct, Absent-snoc}
use simple_mqtt.Client.Callbacks.{Callbacks, is_registered}
use simple_mqtt.Client.Process.{Send}
use simple_mqtt.Client.Connection.{System, Session}
use simple_mqtt.Client.Api.{next_packet_id, mqtt_client_subscribe}
use simple_mqtt.Client.Api.Subscribed.{mqtt_client_subscribe_lem, subscribe_packet, sent_world}
use simple_mqtt.Client.Timer.{
  Tick, is_expired, remove_expired, timeout_loop, check_timeouts, process_timer_event,
}

-- Some message has not been acknowledged in time.
abbrev pub any_expired : ℕ → ℕ → List MessageSend → Bool
any_expired timeout_sec now [] = false
any_expired timeout_sec now (m ∷ list) =
    ltb (m.timestamp + timeout_sec) now || any_expired timeout_sec now list

-- No message of the second list has the identifier of one of the first.
abbrev Apart : List MessageSend → List MessageSend → Type 0
Apart before rest = All (λ m. Absent m.packet_id before) rest

find-Absent :
    (list : List MessageSend) (packet_id : ℕ)
    → Absent packet_id list
    → message_send_find list packet_id ≡ 1
unfolding message_send_find
find-Absent [] packet_id absent = refl
find-Absent (m ∷ list) packet_id (ne, absent) = ground (arith, find-Absent list packet_id absent)

Apart-snoc :
    (before : List MessageSend) (curr : MessageSend) (next : List MessageSend)
    → Apart before next
    → Absent curr.packet_id next
    → Apart (before ++ (curr ∷ [])) next
Apart-snoc before curr [] apart absent = tt
Apart-snoc before curr (m ∷ next) (h, apart) (ne, absent) = (
  Absent-snoc m.packet_id before curr h (λ e. ne (sym e)),
  Apart-snoc before curr next apart absent,
)

-- Where no two messages have the same identifier, the first one that is late is read after it has been
-- freed.
timeout_loop_lem :
    (registered : Bool) (timeout_sec now : ℕ) (before list timeouts : List MessageSend)
    → Distinct list
    → Apart before list
    → timeout_loop registered timeout_sec now before list timeouts
      ≡ (if any_expired timeout_sec now list then fault else ok (before ++ list, timeouts))
unfolding timeout_loop is_expired remove_expired
timeout_loop_lem registered timeout_sec now before [] timeouts distinct apart =
    rw (append-nil before) refl
timeout_loop_lem registered timeout_sec now before (m ∷ list) timeouts (absent, distinct)
      (here, apart) =
    elim (Bool-cases (ltb (m.timestamp + timeout_sec) now)) [
      | inl late ↦ rw late (rw (find-Absent before m.packet_id here) (faulty registered))
      | inr timely ↦ rw timely (
          timeout_loop_lem registered timeout_sec now (before ++ (m ∷ [])) list timeouts distinct
            (Apart-snoc before m list apart absent)
          ∙ rw (append_assoc before (m ∷ []) list) refl)
    ]
  where
    faulty :
        (b : Bool)
        → ◌≡◌ {A = Outcome (List MessageSend × List MessageSend)} (defined_if b >> fault) fault
    faulty true = refl
    faulty false = refl

Apart-nil : (list : List MessageSend) → Apart [] list
Apart-nil [] = tt
Apart-nil (m ∷ list) = (tt, Apart-nil list)

pub check_timeouts_lem :
    (callbacks : Callbacks) (now : ℕ) (session : Session)
    → Distinct session.world.send_list
    → check_timeouts callbacks now session ≡ (
        if any_expired session.client.timeout_sec now session.world.send_list
        then fault
        else ok (record { session = session; timeouts = []; ret = some 0 }))
unfolding check_timeouts
check_timeouts_lem callbacks now session distinct =
    rw
      (timeout_loop_lem (is_registered callbacks.timeout_cb) session.client.timeout_sec now []
        session.world.send_list [] distinct (Apart-nil session.world.send_list))
      (elim (Bool-cases (any_expired session.client.timeout_sec now session.world.send_list)) [
        | inl late ↦ rw late refl
        | inr timely ↦ rw timely refl
      ])

-- A tick whose time is not yet that of a ping, where no two messages that wait have the same identifier.
-- If none of them is late, it changes nothing, calls no callback and returns MQTT_SUCCESS. If one
-- is late, its behaviour is undefined: it calls `timeout_cb` without a test for NULL, and then reads
-- the node it has just freed.
pub process_timer_event_lem :
    (send : Send) (tick : Tick) (session : Session)
    → tick.readable ≡ true
    → tick.now < session.keep_alive_timestamp + session.client.keep_alive
    → Distinct session.world.send_list
    → process_timer_event send tick session ≡ (
        if any_expired session.client.timeout_sec tick.now session.world.send_list
        then fault
        else ok (record { session = session; timeouts = []; ret = some 0 }))
unfolding process_timer_event
process_timer_event_lem send tick session readable early distinct = simp (
  readable,
  gt→leb (session.keep_alive_timestamp + session.client.keep_alive) tick.now early,
  check_timeouts_lem tick.callbacks tick.now session distinct,
)

-- A subscription as the only message that waits, and a tick behind it, before the time of a ping: if the clock
-- shows more than `timeout_sec`, the loop reads memory that it has freed, however short ago the subscription
-- was sent, as no message has another timestamp than 0.
pub subscribe_then_timer :
    (system : System) (send : Send) (tick : Tick) (session : Session) (topic : Bytes) (qos sent : ℕ)
    → topic ≢ []
    → IsU16 (length topic)
    → system.message_granted ≡ true
    → system.node_granted ≡ true
    → system.copy_granted ≡ true
    → system.send session.world.attempts (subscribe_packet session.client.packet_id_next topic qos)
      ≡ some sent
    → session.world.send_list ≡ []
    → tick.readable ≡ true
    → tick.now < session.keep_alive_timestamp + session.client.keep_alive
    → session.client.timeout_sec < tick.now
    → (session' : Session) × (mqtt_client_subscribe system true session
          (some topic)
          (length topic)
          qos
        ≡ ok (session', 0))
      × (process_timer_event send tick session' ≡ fault)
subscribe_then_timer system send tick session topic qos sent ne len grant node copy is_sent empty
      readable early late =
    let packet_id = session.client.packet_id_next in
    let message = subscribe_packet packet_id topic qos in
    let kept : MessageSend = record {
      packet_id = packet_id;
      message = message;
      message_len = length message;
      qos = qos;
      timestamp = 0;
    } in
    let session' : Session = record session {
      client = record session.client { packet_id_next = next_packet_id packet_id };
      world = record (sent_world session.world (take sent message)) {
        send_list = session.world.send_list ++ (kept ∷ []);
      };
    } in
    (
      session',
      mqtt_client_subscribe_lem system session topic qos sent ne len grant node copy is_sent,
      process_timer_event_lem send tick session' readable early (rw empty (tt, tt))
          ∙ rw (empty, lt→ltb (0 + session.client.timeout_sec) tick.now (omega arith)) refl,
    )
