-- ===== src/Message/Ack.antt =====
-- src/message/msg_puback.c, msg_pubrec.c, msg_pubrel.c, msg_pubcomp.c and msg_unsuback.c: the
-- packets of four bytes, a fixed header and a packet identifier. The files differ in the header,
-- in an error code, and in the length that `unsuback_message_parse` accepts.
pub mod RoundTrip
use simple_mqtt.Base.{
  ℕ, ◌/◌, Bool, true, false, not, ◌||◌, Option, none, some, [], ◌∷◌, ◌++◌, Bytes, net16, get16,
  deref, emit, drop, ltb, ◌==◌, if◌then◌else◌, Outcome, ok, err, ◌>>=◌, ◌>>◌, refuse_if,
}
use simple_mqtt.Message.Codes

-- `message` is the size of the buffer, if it is not NULL, and `message_len` is `*message_len`.
-- The result is what is written; `*message_len` is then its length.
unfoldable pub ack_message_build : Bytes → ℕ → Option ℕ → Option ℕ → Outcome Bytes
ack_message_build fixed_header packet_id none message_len = err Codes.mqtt_invalid_param
ack_message_build fixed_header packet_id (some cap) none = err Codes.mqtt_invalid_param
ack_message_build fixed_header packet_id (some cap) (some message_len) = do
  refuse_if (ltb message_len 4) Codes.mqtt_invalid_param
  emit cap (fixed_header ++ net16 packet_id)

-- The two tests of the fixed header, and the packet identifier.
unfoldable pub ack_body_parse : ℕ → ℕ → ℕ → Bytes → Outcome ℕ
ack_body_parse header₀ header₁ code message = do
  first ← deref message
  refuse_if (not (first == header₀)) Codes.mqtt_message_type_error
  second ← deref (drop 1 message)
  refuse_if (not (second == header₁)) code
  get16 (drop 2 message)

-- `packet_id` says whether that pointer is not NULL.
unfoldable pub ack_message_parse : ℕ → ℕ → ℕ → Option Bytes → ℕ → Bool → Outcome ℕ
unfolding ack_body_parse
ack_message_parse header₀ header₁ code none message_len packet_id = err Codes.mqtt_invalid_param
ack_message_parse header₀ header₁ code (some message) message_len packet_id = do
  refuse_if (not (message_len == 4) || not packet_id) Codes.mqtt_invalid_param
  ack_body_parse header₀ header₁ code message

unfoldable pub puback_message_build : ℕ → Option ℕ → Option ℕ → Outcome Bytes
unfolding ack_message_build
puback_message_build = ack_message_build (0x40 ∷ 0x02 ∷ [])

unfoldable pub puback_message_parse : Option Bytes → ℕ → Bool → Outcome ℕ
unfolding ack_message_parse
puback_message_parse = ack_message_parse 0x40 0x02 Codes.mqtt_puback_message_error

unfoldable pub pubrec_message_build : ℕ → Option ℕ → Option ℕ → Outcome Bytes
unfolding ack_message_build
pubrec_message_build = ack_message_build (0x50 ∷ 0x02 ∷ [])

unfoldable pub pubrec_message_parse : Option Bytes → ℕ → Bool → Outcome ℕ
unfolding ack_message_parse
pubrec_message_parse = ack_message_parse 0x50 0x02 Codes.mqtt_pubrec_message_error

unfoldable pub pubrel_message_build : ℕ → Option ℕ → Option ℕ → Outcome Bytes
unfolding ack_message_build
pubrel_message_build = ack_message_build (0x60 ∷ 0x02 ∷ [])

unfoldable pub pubrel_message_parse : Option Bytes → ℕ → Bool → Outcome ℕ
unfolding ack_message_parse
pubrel_message_parse = ack_message_parse 0x60 0x02 Codes.mqtt_pubrel_message_error

unfoldable pub pubcomp_message_build : ℕ → Option ℕ → Option ℕ → Outcome Bytes
unfolding ack_message_build
pubcomp_message_build = ack_message_build (0x70 ∷ 0x02 ∷ [])

unfoldable pub pubcomp_message_parse : Option Bytes → ℕ → Bool → Outcome ℕ
unfolding ack_message_parse
pubcomp_message_parse = ack_message_parse 0x70 0x02 Codes.mqtt_pubcomp_message_error

unfoldable pub unsuback_message_build : ℕ → Option ℕ → Option ℕ → Outcome Bytes
unfolding ack_message_build
unsuback_message_build = ack_message_build (0xb0 ∷ 0x02 ∷ [])

unfoldable pub unsuback_message_parse : Option Bytes → ℕ → Bool → Outcome ℕ
unfolding ack_body_parse
unsuback_message_parse none message_len packet_id = err Codes.mqtt_invalid_param
unsuback_message_parse (some message) message_len packet_id = do
  refuse_if (ltb message_len 4 || not packet_id) Codes.mqtt_invalid_param
  ack_body_parse 0xb0 0x02 Codes.mqtt_unsubscribe_message_error message
