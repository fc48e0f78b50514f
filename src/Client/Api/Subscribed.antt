-- ===== src/Client/Api/Subscribed.antt =====
-- src/client/client.c: theorems on `mqtt_client_subscribe`.
use simple_mqtt.Base.{
  ◌||◌, ℕ, zero, suc, ◌+◌, ◌%◌, ◌≡◌, ◌≢◌, refl, arith, Bool, true, false, not, Option, none, some,
  List, [], ◌∷◌, ◌++◌, Bytes, length, take, IsU16, ne→==, ◌==◌, ok, inl, inr, ◌⊎◌,
}
use simple_mqtt.Message.Filters.{TopicFilter, located}
use simple_mqtt.Message.Filters.Errors.{filters_message_build-Coded}
use simple_mqtt.Message.Filters.Wire.{filters_packet}
use simple_mqtt.Message.Subscribe.{subscribe_message_len_calc, subscribe_message_build}
use simple_mqtt.Message.Subscribe.Size.{subscribe_message_built}
use simple_mqtt.Client.Keep.{MessageSend, message_send_add}
use simple_mqtt.Message.Codes.{mqtt_memory_nobuffer}
use simple_mqtt.Client.Keep.Laws.{message_send_add_lem}
use simple_mqtt.Client.Process.{World, network_send, after_send}
use simple_mqtt.Client.Connection.{System, Session}
use simple_mqtt.Client.Api.Returns.{
  Returns, Returns-ok, bind-Returns, on_code-Returns-Coded, if-Returns,
}
use simple_mqtt.Client.Api.{
  on_code, next_packet_id, subscribe_keep, subscribe_sent, mqtt_client_subscribe,
}

-- The SUBSCRIBE packet for one topic.
abbrev pub subscribe_packet : ℕ → Bytes → ℕ → Bytes
subscribe_packet packet_id topic qos = filters_packet 8 true packet_id ((topic, qos) ∷ [])

-- The state behind a call of send(2) that took `sent` bytes.
abbrev pub sent_world : World → Bytes → World
sent_world world sent = record world {
  attempts = world.attempts + 1;
  wire = world.wire ++ (sent ∷ []);
}

-- With memory, a connection and a topic that is not empty, `mqtt_client_subscribe` sends one SUBSCRIBE
-- packet with the next packet identifier, appends a copy of the packet to the send list, where its
-- timestamp is 0 whatever the time is, and goes on to the next identifier.
pub mqtt_client_subscribe_lem :
    (system : System) (session : Session) (topic : Bytes) (qos sent : ℕ)
    → topic ≢ []
    → IsU16 (length topic)
    → system.message_granted ≡ true
    → system.node_granted ≡ true
    → system.copy_granted ≡ true
    → let packet_id = session.client.packet_id_next in
      let message = subscribe_packet packet_id topic qos in
      system.send session.world.attempts message ≡ some sent
      → mqtt_client_subscribe system true session (some topic) (length topic) qos
        ≡ ok (
          record session {
            client = record session.client { packet_id_next = next_packet_id packet_id };
            world = record (sent_world session.world (take sent message)) {
              send_list =
                  session.world.send_list
                  ++ (record {
                    packet_id = packet_id;
                    message = message;
                    message_len = length message;
                    qos = qos;
                    timestamp = 0;
                  }
                      ∷ []);
            };
          },
          0,
        )
unfolding mqtt_client_subscribe subscribe_sent subscribe_keep network_send after_send
mqtt_client_subscribe_lem system session [] qos sent ne len grant node copy is_sent =
    absurd (ne refl)
mqtt_client_subscribe_lem system session (b ∷ topic) qos sent ne len grant node copy is_sent =
    let (calc, built) = subscribe_message_built session.client.packet_id_next (b ∷ topic) qos len in
    simp (
      ne→== (suc (length topic)) 0 (omega arith),
      calc,
      grant,
      built,
      is_sent,
      node,
      copy,
      message_send_add_lem,
    )

-- The message of a subscription, behind those of a list.
abbrev pub Appended : Session → Session → Type 0
Appended session session' =
    (m : MessageSend) × (m.packet_id ≡ session.client.packet_id_next)
    × (m.timestamp ≡ 0)
    × (session'.world.send_list ≡ session.world.send_list ++ (m ∷ []))

-- What a subscription does to the list and to the next identifier, with its return code.
unfoldable pub Subscribes : Session → Session → ℕ → Type 0
Subscribes session session' code =
    ((code ≡ 0)
      × (session'.client.packet_id_next ≡ next_packet_id session.client.packet_id_next)
      × Appended session session')
    ⊎ ((code ≢ 0)
        × (session'.client.packet_id_next ≡ session.client.packet_id_next)
        × (session'.world.send_list ≡ session.world.send_list))

-- What is kept, as the memory for the node and for the copy is granted or not.
kept-Subscribes :
    (node_granted copy_granted : Bool) (session : Session) (message : Bytes) (qos sent : ℕ)
    → Returns (Subscribes session) (
        on_code
          (message_send_add true node_granted copy_granted session.world.send_list
            session.client.packet_id_next message
            (length message)
            qos)
          (λ code. ok (
            record session { world = sent_world session.world (take sent message) },
            mqtt_memory_nobuffer,
          ))
          (λ list. ok (
            record session {
              client = record session.client {
                packet_id_next = next_packet_id session.client.packet_id_next;
              };
              world = record (sent_world session.world (take sent message)) { send_list = list };
            },
            0,
          )))
unfolding Subscribes message_send_add
kept-Subscribes true true session message qos sent =
    rw (message_send_add_lem session.world.send_list session.client.packet_id_next message qos)
      (inl (refl, refl, (_, refl, refl, refl)))
kept-Subscribes true false session message qos sent = inr ((λ e. cc), refl, refl)
kept-Subscribes false copy_granted session message qos sent = inr ((λ e. cc), refl, refl)

module _ (system : System) (session : Session) where
  subscribe_sent-Subscribes :
      (message : Bytes) (qos : ℕ) (sent : Option ℕ)
      → Returns
          (Subscribes session)
          (subscribe_sent system session message qos (after_send sent session.world message))
  unfolding Subscribes subscribe_sent subscribe_keep after_send
  subscribe_sent-Subscribes message qos none = inr ((λ e. cc), refl, refl)
  subscribe_sent-Subscribes message qos (some sent) =
      kept-Subscribes system.node_granted system.copy_granted session message qos sent

  -- Wherever `mqtt_client_subscribe` returns, for whatever arguments: either the code is MQTT_SUCCESS, the
  -- next packet identifier is used up, and a message with it, whose timestamp is 0, stands behind the others
  -- in the send list; or the code is an error, and the identifier and the send list are as they were.
  pub mqtt_client_subscribe_codes :
      (client_ok : Bool) (topic : Option Bytes) (topic_len qos : ℕ) (session' : Session) (code : ℕ)
      → mqtt_client_subscribe system client_ok session topic topic_len qos ≡ ok (session', code)
      → Subscribes session session' code
  unfolding Subscribes mqtt_client_subscribe subscribe_message_build network_send
  mqtt_client_subscribe_codes client_ok none topic_len qos session' code e =
      Returns-ok (Subscribes session) _ (inr ((λ p. cc), refl, refl)) e
  mqtt_client_subscribe_codes client_ok (some topic) topic_len qos session' code e =
      Returns-ok (Subscribes session) _
        (if-Returns (Subscribes session) (not client_ok || topic_len == 0) _ _
          (inr ((λ p. cc), refl, refl))
          (bind-Returns (Subscribes session) (subscribe_message_len_calc filters true) _ (λ size.
            if-Returns (Subscribes session) (not system.message_granted) _ _
              (inr ((λ p. cc), refl, refl))
              (on_code-Returns-Coded (Subscribes session)
                (subscribe_message_build session.client.packet_id_next filters (some size)
                  (some size))
                (λ c. ok (session, c)) _
                (filters_message_build-Coded 8 true session.client.packet_id_next filters
                  (some size) (some size))
                (λ c ne. inr (ne, refl, refl))
                (λ message.
                  subscribe_sent-Subscribes message qos
                    (system.send session.world.attempts message))))))
        e
    where
      filters : List TopicFilter
      filters = located topic topic_len qos ∷ []

pub next_packet_id_lem : (n : ℕ) → next_packet_id (1 + n % 65535) ≡ 1 + suc n % 65535
unfolding next_packet_id
next_packet_id_lem n = ground arith

-- The identifiers of `k` subscriptions after each other, from the one that a connection begins with.
abbrev pub packet_id_after : ℕ → ℕ
packet_id_after zero = 1
packet_id_after (suc k) = next_packet_id (packet_id_after k)

-- The identifier behind `k` subscriptions is 1 + k % 65535: it is never 0, fits into two bytes, and comes
-- back after 65535 subscriptions, not before.
pub packet_id_after_lem : (k : ℕ) → packet_id_after k ≡ 1 + k % 65535
packet_id_after_lem zero = refl
packet_id_after_lem (suc k) = rw (packet_id_after_lem k) (next_packet_id_lem k)
