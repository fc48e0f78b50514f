-- ===== src/Client/Keep.antt =====
-- src/client/message_keep.c: the list of the messages that wait for an acknowledgement.
pub mod Laws
pub mod Shorter
pub mod Store
pub mod Queues
use simple_mqtt.Base.{
  ℕ, Bool, true, false, not, List, [], ◌∷◌, ◌++◌, Bytes, read, ◌==◌, if◌then◌else◌, Outcome, ok,
  err, fault, ◌>>=◌, ◌>>◌, refuse_if,
}
use simple_mqtt.Message.Codes

-- `message_send_t`; the list is the chain along `next`.
pub record MessageSend : Type 0 where
  pub packet_id : ℕ
  pub message : Bytes
  pub message_len : ℕ
  pub qos : ℕ
  pub timestamp : ℕ

-- The walk to the last node.
pub add_last : List MessageSend → MessageSend → List MessageSend
add_last [] node = node ∷ []
add_last (curr ∷ next) node = curr ∷ add_last next node

-- The list afterwards. `list_ok` is `list != NULL`; the other flags say whether the two calls of
-- `malloc` return memory. `memset` leaves the timestamp 0.
unfoldable pub message_send_add :
    Bool → Bool → Bool → List MessageSend → ℕ → Bytes → ℕ → ℕ → Outcome (List MessageSend)
unfolding add_last
message_send_add list_ok node_granted copy_granted list packet_id message message_len qos = do
  refuse_if (not list_ok) Codes.mqtt_invalid_param
  refuse_if (not node_granted) Codes.mqtt_memory_nobuffer
  refuse_if (not copy_granted) Codes.mqtt_memory_nobuffer
  copy ← read message_len message
  let node : MessageSend = record {
    packet_id = packet_id;
    message = copy;
    message_len = message_len;
    qos = qos;
    timestamp = 0;
  }
  ok (add_last list node)

-- The return code. `node = curr` sets the parameter, so the caller's node stays as it is.
unfoldable pub message_send_find : List MessageSend → ℕ → ℕ
message_send_find [] packet_id = Codes.mqtt_unknown
message_send_find (curr ∷ next) packet_id =
    if curr.packet_id == packet_id then Codes.mqtt_success else message_send_find next packet_id

-- The while loop, at the node in front of `next`.
pub remove_after : List MessageSend → ℕ → Outcome (List MessageSend)
remove_after [] packet_id = err Codes.mqtt_unknown
remove_after (next ∷ rest) packet_id =
    if next.packet_id == packet_id
    then ok rest
    else (do rest' ← remove_after rest packet_id; ok (next ∷ rest'))

-- The list afterwards; it stays as it is on an error.
unfoldable pub message_send_remove : Bool → List MessageSend → ℕ → Outcome (List MessageSend)
unfolding remove_after
message_send_remove false list packet_id = err Codes.mqtt_invalid_param
message_send_remove true [] packet_id = fault
message_send_remove true (curr ∷ next) packet_id =
    if curr.packet_id == packet_id
    then ok next
    else (do next' ← remove_after next packet_id; ok (curr ∷ next'))
