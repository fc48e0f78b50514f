-- ===== src/Message/Subscribe.antt =====
-- src/message/msg_subscribe.c: the SUBSCRIBE packet.
pub mod Ends
pub mod RoundTrip
pub mod Size
use simple_mqtt.Base.{
  ℕ, zero, suc, ◌+◌, Bool, true, false, not, ◌||◌, Option, none, some, List, [], ◌∷◌, ◌++◌, Bytes,
  get16, deref, length, drop, ltb, ◌==◌, if◌then◌else◌, sub32, Outcome, ok, err, stuck, ◌>>=◌, ◌>>◌,
  refuse_if,
}
use simple_mqtt.Message.Codes
use simple_mqtt.Message.Field.{locate_string_field}
use simple_mqtt.Message.Filters.{
  TopicFilter, filters_len, filters_message_build, filters_write, exit_if, located, unlink_first,
}
use simple_mqtt.Message.Header.{parse_header}

-- `message_len` says whether that pointer is not NULL.
unfoldable pub subscribe_message_len_calc : List TopicFilter → Bool → Outcome ℕ
unfolding filters_len
subscribe_message_len_calc [] message_len = err Codes.mqtt_invalid_param
subscribe_message_len_calc (f ∷ filters) message_len = do
  refuse_if (not message_len) Codes.mqtt_invalid_param
  ok (filters_len 3 7 (f ∷ filters))

unfoldable pub subscribe_message_build : ℕ → List TopicFilter → Option ℕ → Option ℕ → Outcome Bytes
unfolding filters_message_build
subscribe_message_build = filters_message_build Codes.message_type_subscribe true

-- One round of the parser's loop: the filters appended so far, and where the packet goes on.
-- `granted` says whether `malloc` returns memory.
pub subscribe_entry : Bool → Bytes → ℕ → List TopicFilter → Outcome (List TopicFilter × Bytes × ℕ)
subscribe_entry granted message message_len filters = do
  exit_if (not granted) filters Codes.mqtt_memory_nobuffer
  (topic, topic_len) ← locate_string_field (some message) true
  let at_qos = drop (topic_len + 2) message
  qos ← deref at_qos
  exit_if (ltb Codes.mqtt_qos_2 qos) filters Codes.mqtt_subscribe_message_error
  ok (
    filters ++ (located topic topic_len qos ∷ []),
    drop 1 at_qos,
    sub32 (sub32 message_len (topic_len + 2)) 1,
  )

-- `while (message_len > 0)`
pub subscribe_loop : (ℕ → Bool) → ℕ → ℕ → Bytes → ℕ → List TopicFilter → Outcome (List TopicFilter)
subscribe_loop granted zero i message message_len filters = stuck
subscribe_loop granted (suc fuel) i message message_len filters =
    let body = (do
      (filters', message', message_len') ← subscribe_entry (granted i) message message_len filters
      subscribe_loop granted fuel (i + 1) message' message_len' filters') in
    if ltb 0 message_len then body else unlink_first filters

-- What follows the header: the packet identifier and the filters. `head_granted` is for the
-- `malloc` of the node in front of the list. Each round of the loop reads three bytes at least.
unfoldable pub subscribe_body_parse : Bool → (ℕ → Bool) → Bytes → ℕ → Outcome (ℕ × List TopicFilter)
subscribe_body_parse head_granted granted body body_len = do
  packet_id ← get16 body
  refuse_if (not head_granted) Codes.mqtt_memory_nobuffer
  filters ← subscribe_loop granted (suc (length body)) 0 (drop 2 body) (sub32 body_len 2) []
  ok (packet_id, filters)

-- `outs` says that neither out parameter is NULL.
unfoldable pub subscribe_message_parse :
    Bool → (ℕ → Bool) → Option Bytes → ℕ → Bool → Outcome (ℕ × List TopicFilter)
unfolding subscribe_body_parse
subscribe_message_parse head_granted granted none message_len outs = err Codes.mqtt_invalid_param
subscribe_message_parse head_granted granted (some message) message_len outs = do
  refuse_if (message_len == 0 || not outs) Codes.mqtt_invalid_param
  (body, body_len) ←
      parse_header (Codes.message_type_encode Codes.message_type_subscribe)
        Codes.mqtt_subscribe_message_error message message_len
  subscribe_body_parse head_granted granted body body_len

-- What `free` is given, in order; the code is MQTT_SUCCESS. A node does not own its text.
unfoldable pub topic_filter_release : List TopicFilter → List TopicFilter
topic_filter_release [] = []
topic_filter_release (head ∷ next) = head ∷ topic_filter_release next
