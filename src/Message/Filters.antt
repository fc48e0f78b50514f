-- ===== src/Message/Filters.antt =====
-- `topic_filter_t` of src/message/common.h, and what msg_subscribe.c and msg_unsubscribe.c do alike
-- with a list of them.
pub mod Wire
pub mod Errors
use simple_mqtt.Base.{
  ℕ, ◌+◌, ◌-◌, ◌%◌, Bool, true, false, Option, none, some, List, [], ◌∷◌, ◌++◌, Bytes, net16, emit,
  length, take, ltb, leb, if◌then◌else◌, add32, bit_and, Outcome, ok, err, fault, ◌>>=◌, ◌>>◌,
  refuse_if, defined_if, non_null,
}
use simple_mqtt.Message.Codes
use simple_mqtt.Message.Field.{build_string_field}
use simple_mqtt.Message.Remain.{remain_length_encode}

-- The list is the chain along `next`, and NULL is the empty list.
pub record TopicFilter : Type 0 where
  pub topic_filter : Option Bytes
  pub topic_filter_len : ℕ
  pub qos : ℕ

-- `while (cur != NULL) { len += cur->topic_filter_len + extra; cur = cur->next; }`
unfoldable pub filters_len : ℕ → ℕ → List TopicFilter → ℕ
filters_len extra len [] = len
filters_len extra len (f ∷ filters) =
    filters_len extra (add32 len (f.topic_filter_len + extra)) filters

-- What follows the name of a filter: its QoS in SUBSCRIBE, nothing in UNSUBSCRIBE.
abbrev pub qos_field : Bool → ℕ → Bytes
qos_field true qos = bit_and qos 3 ∷ []
qos_field false qos = []

-- The loop that writes the filters, with `room` bytes of the buffer left.
unfoldable pub filters_write : Bool → ℕ → List TopicFilter → Outcome Bytes
filters_write with_qos room [] = ok []
filters_write with_qos room (f ∷ filters) = do
  field ← build_string_field f.topic_filter f.topic_filter_len true
  let entry = field ++ qos_field with_qos f.qos
  defined_if (leb (length entry) room)
  rest ← filters_write with_qos (room - length entry) filters
  ok (entry ++ rest)

-- The two builders, which differ in the packet type and in the QoS. `message` is the size of the
-- buffer, and `message_len` is `*message_len`.
unfoldable pub filters_message_build :
    ℕ → Bool → ℕ → List TopicFilter → Option ℕ → Option ℕ → Outcome Bytes
filters_message_build message_type with_qos packet_id [] message message_len =
    err Codes.mqtt_invalid_param
filters_message_build message_type with_qos packet_id (f ∷ filters) message message_len = do
  cap ← non_null message Codes.mqtt_invalid_param
  given ← non_null message_len Codes.mqtt_invalid_param
  let remain_len = filters_len (if with_qos then 3 else 2) 2 (f ∷ filters)
  buffer ← remain_length_encode 4 remain_len
  refuse_if (ltb given (add32 (add32 (length buffer) remain_len) 1)) Codes.mqtt_invalid_param
  header ← emit cap (Codes.message_type_encode message_type ∷ (buffer ++ net16 packet_id))
  entries ← filters_write with_qos (cap - length header) (f ∷ filters)
  ok (header ++ entries)

-- `goto _exit` in a parser, if the test says so: the list from its first node on is freed. That
-- node has no `next` before a filter has been appended to it.
abbrev pub exit_if : Bool → List TopicFilter → ℕ → Outcome (Unit {0})
exit_if false filters code = ok tt
exit_if true [] code = fault
exit_if true (f ∷ filters) code = err code

-- `*filter_list = (*filter_list)->next` behind the loop of a parser.
abbrev pub unlink_first : List TopicFilter → Outcome (List TopicFilter)
unlink_first [] = fault
unlink_first (f ∷ filters) = ok (f ∷ filters)

-- A node whose name is in the packet.
abbrev pub located : Bytes → ℕ → ℕ → TopicFilter
located topic topic_len qos = record {
  topic_filter = some topic;
  topic_filter_len = topic_len;
  qos = qos;
}
