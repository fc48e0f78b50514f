-- ===== src/Message/Ping.antt =====
-- src/message/msg_pingreq.c, msg_pingresp.c and msg_disconnect.c: the packets of two bytes.
pub mod Checks
use simple_mqtt.Base.{
  ℕ, Bool, true, false, not, ◌||◌, Option, none, some, [], ◌∷◌, Bytes, deref, emit, drop, ltb, ◌==◌,
  bit_and, Outcome, ok, err, ◌>>=◌, ◌>>◌, refuse_if,
}
use simple_mqtt.Message.Codes

-- `message` is the size of the buffer, if it is not NULL, and `message_len` is `*message_len`.
unfoldable pub two_bytes_build : ℕ → Option ℕ → Option ℕ → Outcome Bytes
two_bytes_build message_type none message_len = err Codes.mqtt_invalid_param
two_bytes_build message_type (some cap) none = err Codes.mqtt_invalid_param
two_bytes_build message_type (some cap) (some message_len) = do
  refuse_if (ltb message_len 2) Codes.mqtt_invalid_param
  emit cap (Codes.message_type_encode message_type ∷ 0 ∷ [])

unfoldable pub pingreq_message_build : Option ℕ → Option ℕ → Outcome Bytes
unfolding two_bytes_build
pingreq_message_build = two_bytes_build Codes.message_type_pingreq

-- It looks at nothing.
unfoldable pub pingreq_message_parse : Option Bytes → ℕ → Outcome (Unit {0})
pingreq_message_parse message message_len = ok tt

-- The source passes MQTT_MESSAGE_TYPE_PINGREQ here too.
unfoldable pub pingresp_message_build : Option ℕ → Option ℕ → Outcome Bytes
unfolding two_bytes_build
pingresp_message_build = two_bytes_build Codes.message_type_pingreq

unfoldable pub pingresp_message_parse : Option Bytes → ℕ → Outcome (Unit {0})
pingresp_message_parse message message_len = ok tt

unfoldable pub disconnect_message_build : Option ℕ → Option ℕ → Outcome Bytes
unfolding two_bytes_build
disconnect_message_build = two_bytes_build Codes.message_type_disconnect

-- `message[1] & ~MESSAGE_TYPE_MASK` keeps the four low bits of the second byte.
unfoldable pub disconnect_message_parse : Option Bytes → ℕ → Outcome (Unit {0})
disconnect_message_parse none message_len = err Codes.mqtt_invalid_param
disconnect_message_parse (some message) message_len = do
  refuse_if (ltb message_len 2) Codes.mqtt_invalid_param
  first ← deref message
  refuse_if (not (bit_and first 0xf0 == Codes.message_type_encode Codes.message_type_disconnect))
      Codes.mqtt_message_type_error
  second ← deref (drop 1 message)
  refuse_if (not (bit_and second 0x0f == 0)) Codes.mqtt_fixed_header_reserved_error
  ok tt
