-- ===== src/Message/Unsubscribe.antt =====
-- src/message/msg_unsubscribe.c: the UNSUBSCRIBE packet.
pub mod Ends
pub mod RoundTrip
use simple_mqtt.Base.{
  ℕ, zero, suc, ◌+◌, Bool, true, false, not, ◌||◌, Option, none, some, List, [], ◌∷◌, ◌++◌, Bytes,
  get16, deref, length, drop, ltb, ◌==◌, if◌then◌else◌, sub32, Outcome, ok, err, stuck, ◌>>=◌, ◌>>◌,
  refuse_if,
}
use simple_mqtt.Message.Codes
use simple_mqtt.Message.Field.{locate_string_field}
use simple_mqtt.Message.Filters.{TopicFilter, filters_message_build, exit_if, located, unlink_first}
use simple_mqtt.Message.Header.{parse_header}

unfoldable pub unsubscribe_message_build :
    ℕ → List TopicFilter → Option ℕ → Option ℕ → Outcome Bytes
unfolding filters_message_build
unsubscribe_message_build = filters_message_build Codes.message_type_unsubscribe false

-- One round of the parser's loop, as in SUBSCRIBE with no QoS: `memset` leaves that field 0.
pub unsubscribe_entry : Bool → Bytes → ℕ → List TopicFilter → Outcome (List TopicFilter × Bytes × ℕ)
unsubscribe_entry granted message message_len filters = do
  exit_if (not granted) filters Codes.mqtt_memory_nobuffer
  (topic, topic_len) ← locate_string_field (some message) true
  ok (
    filters ++ (located topic topic_len 0 ∷ []),
    drop (topic_len + 2) message,
    sub32 message_len (topic_len + 2),
  )

-- `while (message_len > 0)`
pub unsubscribe_loop :
    (ℕ → Bool) → ℕ → ℕ → Bytes → ℕ → List TopicFilter → Outcome (List TopicFilter)
unsubscribe_loop granted zero i message message_len filters = stuck
unsubscribe_loop granted (suc fuel) i message message_len filters =
    let body = (do
      (filters', message', message_len') ← unsubscribe_entry (granted i) message message_len filters
      unsubscribe_loop granted fuel (i + 1) message' message_len' filters') in
    if ltb 0 message_len then body else unlink_first filters

-- What follows the header: the packet identifier and the filters. `head_granted` is for the
-- `malloc` of the node in front of the list. Each round of the loop reads two bytes at least.
unfoldable pub unsubscribe_body_parse :
    Bool → (ℕ → Bool) → Bytes → ℕ → Outcome (ℕ × List TopicFilter)
unsubscribe_body_parse head_granted granted body body_len = do
  packet_id ← get16 body
  refuse_if (not head_granted) Codes.mqtt_memory_nobuffer
  filters ← unsubscribe_loop granted (suc (length body)) 0 (drop 2 body) (sub32 body_len 2) []
  ok (packet_id, filters)

-- `outs` says that neither out parameter is NULL. The code for a wrong length is that of SUBSCRIBE.
unfoldable pub unsubscribe_message_parse :
    Bool → (ℕ → Bool) → Option Bytes → ℕ → Bool → Outcome (ℕ × List TopicFilter)
unfolding unsubscribe_body_parse
unsubscribe_message_parse head_granted granted none message_len outs = err Codes.mqtt_invalid_param
unsubscribe_message_parse head_granted granted (some message) message_len outs = do
  refuse_if (message_len == 0 || not outs) Codes.mqtt_invalid_param
  (body, body_len) ←
      parse_header (Codes.message_type_encode Codes.message_type_unsubscribe)
        Codes.mqtt_subscribe_message_error message message_len
  unsubscribe_body_parse head_granted granted body body_len
