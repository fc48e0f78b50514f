-- ===== src/Client/Subscriptions.antt =====
-- src/client/client.c and client_deamon.c: theorems on an application that subscribes again and again, and
-- on the timer behind that.
use simple_mqtt.Base.{
  ℕ, suc, ◌+◌, ◌%◌, ◌≤◌, ◌<◌, ◌≡◌, refl, ap, ◌∙◌, subst, arith, Bool, true, false, ◌||◌, ◌&&◌,
  Option, some, List, [], ◌∷◌, ◌++◌, Bytes, All, length, length-append, ltb, if◌then◌else◌, Outcome,
  ok, fault, ◌>>=◌, inl, inr, >>=-eq-ok,
}
use simple_mqtt.Client.Keep.{MessageSend}
use simple_mqtt.Client.Keep.Laws.{Absent, Distinct, Distinct-snoc}
use simple_mqtt.Client.Process.{Send}
use simple_mqtt.Client.Connection.{System, Session}
use simple_mqtt.Client.Api.{next_packet_id, mqtt_client_subscribe}
use simple_mqtt.Client.Api.Subscribed.{next_packet_id_lem, Subscribes, mqtt_client_subscribe_codes}
use simple_mqtt.Client.Timer.{Tick, process_timer_event}
use simple_mqtt.Client.Timer.Expiry.{any_expired, process_timer_event_lem}

-- The arguments of a call of `mqtt_client_subscribe`, and what the operating system does in it.
pub record Subscription : Type 0 where
  pub system : System
  pub client_ok : Bool
  pub topic : Option Bytes
  pub topic_len : ℕ
  pub qos : ℕ

-- The calls one after the other, whatever each of them returns.
abbrev pub subscriptions : List Subscription → Session → Outcome Session
subscriptions [] session = ok session
subscriptions (s ∷ calls) session = do
  result ← mqtt_client_subscribe s.system s.client_ok session s.topic s.topic_len s.qos
  subscriptions calls result.0

-- The identifiers of the messages are at most `n`, no two are the same, and the next one follows `n`.
record Numbered (n : ℕ) (session : Session) : Type 0 where
  next : session.client.packet_id_next ≡ 1 + n % 65535
  below : All (λ m. (m.packet_id ≤ n) × (m.timestamp ≡ 0)) session.world.send_list
  distinct : Distinct session.world.send_list
  few : length session.world.send_list ≤ n

All-snoc :
    (n : ℕ) (list : List MessageSend) (m : MessageSend)
    → All (λ x. (x.packet_id ≤ n) × (x.timestamp ≡ 0)) list
    → m.packet_id ≤ suc n
    → m.timestamp ≡ 0
    → All (λ x. (x.packet_id ≤ suc n) × (x.timestamp ≡ 0)) (list ++ (m ∷ []))
All-snoc n [] m below h zero_stamp = ((h, zero_stamp), tt)
All-snoc n (x ∷ list) m ((le, stamp), below) h zero_stamp =
    ((omega arith, stamp), All-snoc n list m below h zero_stamp)

below-Absent :
    (n : ℕ) (packet_id : ℕ) (list : List MessageSend)
    → All (λ x. (x.packet_id ≤ n) × (x.timestamp ≡ 0)) list
    → n < packet_id
    → Absent packet_id list
below-Absent n packet_id [] below h = tt
below-Absent n packet_id (x ∷ list) ((le, stamp), below) h =
    ((λ e. omega (arith, e)), below-Absent n packet_id list below h)

-- One call keeps this, with one identifier more at most.
subscribed-Numbered :
    (n : ℕ) (session session' : Session) (code : ℕ)
    → n < 65535
    → Numbered n session
    → Subscribes session session' code
    → (n' : ℕ) × (n' ≤ suc n) × Numbered n' session'
unfolding Subscribes
subscribed-Numbered n session session' code small h (inr (ne, next, list)) = (
  n,
  omega arith,
  record {
    next = next ∙ h.next;
    below = rw list h.below;
    distinct = rw list h.distinct;
    few = rw list h.few;
  },
)
subscribed-Numbered n session session' code small h (inl (zero_code, next, (m, id, stamp, list))) =
    (
      suc n,
      omega arith,
      record {
        next = next ∙ ap next_packet_id h.next ∙ next_packet_id_lem n;
        below =
            rw list
              (All-snoc n session.world.send_list m h.below (omega (arith, id, h.next)) stamp);
        distinct = rw list (
            Distinct-snoc session.world.send_list m h.distinct (
              below-Absent n m.packet_id session.world.send_list h.below
                (omega (arith, id, h.next))));
        few = rw list (omega (arith, h.few, length-append session.world.send_list (m ∷ [])));
      },
    )

subscriptions-Numbered :
    (calls : List Subscription) (n : ℕ) (session session' : Session)
    → n + length calls ≤ 65535
    → Numbered n session
    → subscriptions calls session ≡ ok session'
    → (n' : ℕ) × (n' ≤ n + length calls) × Numbered n' session'
subscriptions-Numbered [] n session session' small h e =
    (n, omega arith, subst (Numbered n) (ok-injective e) h)
  where
    ok-injective : {a b : Session} → ok a ≡ ok b → a ≡ b
    ok-injective p = cc
subscriptions-Numbered (s ∷ calls) n session session' small h e =
    let ((middle, code), first, rest) =
      >>=-eq-ok (mqtt_client_subscribe s.system s.client_ok session s.topic s.topic_len s.qos)
        (λ result. subscriptions calls result.0) e in
    let (n', le, numbered) = subscribed-Numbered n session middle code (omega arith) h (
      mqtt_client_subscribe_codes s.system session s.client_ok s.topic s.topic_len s.qos middle code
        first) in
    let (last, le', done) =
      subscriptions-Numbered calls n' middle session' (omega (arith, le, small)) numbered rest in
    (last, omega (arith, le, le'), done)

-- Whether there is a message at all.
abbrev pub waits : List MessageSend → Bool
waits [] = false
waits (m ∷ list) = true

any_expired_lem :
    (n timeout_sec now : ℕ) (list : List MessageSend)
    → All (λ x. (x.packet_id ≤ n) × (x.timestamp ≡ 0)) list
    → any_expired timeout_sec now list ≡ (waits list && ltb timeout_sec now)
any_expired_lem n timeout_sec now [] below = refl
any_expired_lem n timeout_sec now (m ∷ list) ((le, stamp), below) =
    let at_zero : m.timestamp + timeout_sec ≡ timeout_sec = omega (arith, stamp) in
    rw (at_zero, any_expired_lem n timeout_sec now list below)
      (absorbed (ltb timeout_sec now) (waits list))
  where
    absorbed : (b w : Bool) → (b || (w && b)) ≡ (true && b)
    absorbed true w = refl
    absorbed false true = refl
    absorbed false false = refl

-- After a connection has begun, with identifier 1 and an empty send list, an application calls
-- `mqtt_client_subscribe` at most 65535 times, with any arguments and any answers of the operating
-- system, and some of the calls may fail. Then no two messages that wait have the same
-- identifier, and a tick before the time of a ping leaves everything as it is and returns MQTT_SUCCESS if no
-- message waits or the clock does not show more than `timeout_sec`; otherwise its behaviour is undefined: it
-- calls `timeout_cb` without a test for NULL, and then reads memory that it has freed, however short ago
-- the messages were sent.
pub subscriptions_then_timer :
    (calls : List Subscription) (send : Send) (tick : Tick) (session session' : Session)
    → session.client.packet_id_next ≡ 1
    → session.world.send_list ≡ []
    → length calls ≤ 65535
    → subscriptions calls session ≡ ok session'
    → tick.readable ≡ true
    → tick.now < session'.keep_alive_timestamp + session'.client.keep_alive
    → Distinct session'.world.send_list
      × (process_timer_event send tick session' ≡ (
          if waits session'.world.send_list && ltb session'.client.timeout_sec tick.now
          then fault
          else ok (record { session = session'; timeouts = []; ret = some 0 })))
subscriptions_then_timer calls send tick session session' first empty few run readable early =
    let start : Numbered 0 session = record {
      next = first;
      below = rw empty tt;
      distinct = rw empty tt;
      few = rw empty (omega arith);
    } in
    let (n, le, h) = subscriptions-Numbered calls 0 session session' (omega arith) start run in
    (
      h.distinct,
      process_timer_event_lem send tick session' readable early h.distinct
          ∙ rw
              (any_expired_lem n session'.client.timeout_sec tick.now session'.world.send_list
                h.below)
              refl,
    )
