-- ===== src/Client/Process.antt =====
-- src/client/client_message_process.c, and the switch of `process_socket_event` in
-- src/client/client_deamon.c: what the client does with a packet from the server.
pub mod Senders
pub mod Replies
use simple_mqtt.Base.{
  ℕ, ◌+◌, ◌%◌, Bool, true, false, Option, none, some, List, [], ◌∷◌, ◌++◌, Bytes, take, leb, ◌==◌,
  if◌then◌else◌, Outcome, ok, err, fault, stuck, ◌>>=◌,
}
use simple_mqtt.Message.Codes
use simple_mqtt.Message.Ack.{
  puback_message_build, puback_message_parse, pubrec_message_build, pubrec_message_parse,
  pubrel_message_build, pubrel_message_parse, pubcomp_message_build, pubcomp_message_parse,
  unsuback_message_parse,
}
use simple_mqtt.Message.Ping.{pingreq_message_build}
use simple_mqtt.Message.Publish.{PublishFields, publish_message_parse}
use simple_mqtt.Message.Suback.{suback_message_parse}
use simple_mqtt.Client.Keep.{MessageSend, message_send_remove}

-- What a `publish_callback` is called with. Its two lengths are uint16_t, and its two pointers
-- point into the packet.
pub record Delivery : Type 0 where
  pub topic : Bytes
  pub topic_len : ℕ
  pub payload : Bytes
  pub payload_len : ℕ

-- The global `message_send_list`, the calls of `send` so far, the bytes each of them put on the
-- connection, and the calls of the callback.
pub record World : Type 0 where
  pub send_list : List MessageSend
  pub attempts : ℕ
  pub wire : List Bytes
  pub delivered : List Delivery

-- A handler's return code, with the state it leaves.
abbrev pub Handled : Type 0
Handled = Outcome (World × ℕ)

-- Code that looks at the return code of a call, and goes on in both cases.
unfoldable pub on_return {ℓ} : {A : Type ℓ} → Outcome A → (ℕ → Handled) → (A → Handled) → Handled
on_return (ok a) failed done = done a
on_return (err e) failed done = failed e
on_return fault failed done = fault
on_return stuck failed done = stuck

-- `send(2)`: for the number of the call and the bytes, -1, or how many bytes it takes.
abbrev pub Send : Type 0
Send = ℕ → Bytes → Option ℕ

-- The state after the call, and whether it did not return -1.
unfoldable pub after_send : Option ℕ → World → Bytes → World × Bool
after_send none world message = (record world { attempts = world.attempts + 1 }, false)
after_send (some sent) world message = (
  record world { attempts = world.attempts + 1; wire = world.wire ++ (take sent message ∷ []) },
  true,
)

unfoldable pub network_send : Send → World → Bytes → World × Bool
unfolding after_send
network_send send world message = after_send (send world.attempts message) world message

-- `if (ret == -1) return MQTT_MESSAGE_SEND_ERROR;`
unfoldable pub if_sent : World × Bool → (World → Handled) → Handled
if_sent (world, false) next = ok (world, Codes.mqtt_message_send_error)
if_sent (world, true) next = next world

-- Build a packet, send it, and go on.
pub msg_sent : Send → World → Outcome Bytes → (World → Handled) → Handled
unfolding on_return if_sent network_send
msg_sent send world built next =
    on_return built (λ code. ok (world, code))
      (λ message. if_sent (network_send send world message) next)

abbrev pub succeed : World → Handled
succeed world = ok (world, Codes.mqtt_success)

unfoldable pub pingreq_msg_sent : Send → World → Handled
unfolding msg_sent
pingreq_msg_sent send world = msg_sent send world (pingreq_message_build (some 2) (some 2)) succeed

-- The removal's return code is only logged.
pub remove_acknowledged : World → ℕ → Handled
unfolding on_return
remove_acknowledged world packet_id =
    on_return (message_send_remove true world.send_list packet_id) (λ code. succeed world)
      (λ list. succeed (record world { send_list = list }))

unfoldable pub puback_msg_sent : Send → World → ℕ → Handled
unfolding msg_sent remove_acknowledged
puback_msg_sent send world packet_id =
    msg_sent send world (puback_message_build packet_id (some 4) (some 4))
      (λ world'. remove_acknowledged world' packet_id)

unfoldable pub pubrec_msg_sent : Send → World → ℕ → Handled
unfolding msg_sent
pubrec_msg_sent send world packet_id =
    msg_sent send world (pubrec_message_build packet_id (some 4) (some 4)) succeed

unfoldable pub pubrel_msg_sent : Send → World → ℕ → Handled
unfolding msg_sent
pubrel_msg_sent send world packet_id =
    msg_sent send world (pubrel_message_build packet_id (some 4) (some 4)) succeed

unfoldable pub pubcomp_msg_sent : Send → World → ℕ → Handled
unfolding msg_sent
pubcomp_msg_sent send world packet_id =
    msg_sent send world (pubcomp_message_build packet_id (some 4) (some 4)) succeed

-- The flag says whether a callback is registered. The source's `topic_len` is a uint32_t that the
-- parser writes through a uint16_t pointer; the callback gets the low sixteen bits, which on
-- a little-endian host are the ones written.
unfoldable pub call_back : Bool → World → PublishFields → World
call_back false world fields = world
call_back true world fields = record world {
  delivered =
      world.delivered
      ++ (record {
        topic = fields.topic;
        topic_len = fields.topic_len % 65536;
        payload = fields.payload;
        payload_len = fields.payload_len % 65536;
      }
          ∷ []);
}

unfoldable pub publish_msg_process : Send → Bool → World → Bytes → ℕ → Handled
unfolding on_return call_back
publish_msg_process send pub_cb world message message_len =
    on_return (publish_message_parse (some message) message_len true) (λ code. ok (world, code))
      (λ fields.
        let world' = call_back pub_cb world fields in
        if fields.qos == Codes.mqtt_qos_1
        then puback_msg_sent send world' fields.packet_id
        else if fields.qos == Codes.mqtt_qos_2
        then pubrec_msg_sent send world' fields.packet_id
        else succeed world')

-- The handlers that only parse.
unfoldable pub parsed_only {ℓ} : {A : Type ℓ} → World → Outcome A → Handled
unfolding on_return
parsed_only world result = on_return result (λ code. ok (world, code)) (λ a. succeed world)

unfoldable pub puback_msg_process : World → Bytes → ℕ → Handled
unfolding parsed_only
puback_msg_process world message message_len =
    parsed_only world (puback_message_parse (some message) message_len true)

unfoldable pub pubrec_msg_process : Send → World → Bytes → ℕ → Handled
unfolding on_return
pubrec_msg_process send world message message_len =
    on_return (pubrec_message_parse (some message) message_len true) (λ code. ok (world, code))
      (λ packet_id. pubrel_msg_sent send world packet_id)

unfoldable pub pubrel_msg_process : World → Bytes → ℕ → Handled
unfolding parsed_only
pubrel_msg_process world message message_len =
    parsed_only world (pubrel_message_parse (some message) message_len true)

unfoldable pub pubcomp_msg_process : World → Bytes → ℕ → Handled
unfolding parsed_only
pubcomp_msg_process world message message_len =
    parsed_only world (pubcomp_message_parse (some message) message_len true)

-- `first_granted` and `granted` are for the allocations of the parser. What it stores is dropped.
unfoldable pub suback_msg_process : Bool → (ℕ → Bool) → World → Bytes → ℕ → Handled
unfolding parsed_only
suback_msg_process first_granted granted world message message_len =
    parsed_only world (suback_message_parse first_granted granted (some message) message_len true)

unfoldable pub unsuback_msg_process : World → Bytes → ℕ → Handled
unfolding parsed_only
unsuback_msg_process world message message_len =
    parsed_only world (unsuback_message_parse (some message) message_len true)

unfoldable pub pingresp_msg_process : World → Bytes → ℕ → Handled
pingresp_msg_process world message message_len = succeed world
