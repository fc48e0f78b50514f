-- ===== src/Message/Ping/Checks.antt =====
-- src/message/msg_pingreq.c, msg_pingresp.c and msg_disconnect.c: theorems on the packets of two bytes.
use simple_mqtt.Base.{
  ℕ, ◌/◌, ◌%◌, ◌≡◌, arith, not, ◌==◌, some, ◌∷◌, Bytes, IsByte, deref, emit, ltb, if◌then◌else◌,
  high_nibble, low_nibble, ok, err,
}
use simple_mqtt.Message.Codes.{
  mqtt_message_type_error, mqtt_fixed_header_reserved_error, mqtt_invalid_param,
}
use simple_mqtt.Message.Field.{message_type_filter}
use simple_mqtt.Message.Ping.{
  pingreq_message_build, pingresp_message_build, disconnect_message_build, disconnect_message_parse,
}

-- The outcome of `disconnect_message_parse` on any packet of two bytes or more: `*message_len` is
-- at least 2, the four high bits of the first byte are 14, and those that must be 0 are the low
-- ones of the second byte, the length field, not the reserved bits of the first.
disconnect_message_parse_lem :
    (a b message_len : ℕ) (rest : Bytes)
    → IsByte a
    → IsByte b
    → disconnect_message_parse (some (a ∷ b ∷ rest)) message_len ≡ (
        if ltb message_len 2
        then err mqtt_invalid_param
        else if not (a / 16 == 14)
        then err mqtt_message_type_error
        else if not (b % 16 == 0)
        then err mqtt_fixed_header_reserved_error
        else ok tt)
unfolding disconnect_message_parse deref
disconnect_message_parse_lem a b message_len rest ha hb =
    ground (arith, high_nibble a, low_nibble b)

-- `disconnect_message_parse` accepts every packet that `disconnect_message_build` writes.
disconnect-parse-build :
    (cap message_len : ℕ) {message : Bytes}
    → disconnect_message_build (some cap) (some message_len) ≡ ok message
    → disconnect_message_parse (some message) 2 ≡ ok tt
unfolding disconnect_message_build disconnect_message_parse emit deref
disconnect-parse-build cap message_len e = ground arith

-- The packet that `pingresp_message_build` writes, when it succeeds, is the one that
-- `pingreq_message_build` writes, and its type is 12, PINGREQ, not 13.
pub pingresp_is_pingreq :
    (cap message_len : ℕ) {message : Bytes}
    → pingresp_message_build (some cap) (some message_len) ≡ ok message
    → (pingreq_message_build (some cap) (some message_len) ≡ ok message)
      × (message_type_filter message ≡ ok 12)
unfolding pingresp_message_build pingreq_message_build message_type_filter emit deref
pingresp_is_pingreq cap message_len e = ground arith
