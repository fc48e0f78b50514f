-- ===== src/Message/Field.antt =====
-- src/message/message.c: the string fields of the packets, a length in two bytes and the text, and
-- the packet type in the first byte.
pub mod RoundTrip
use simple_mqtt.Base.{
  ℕ, ◌+◌, ◌*◌, ◌/◌, ◌≤◌, ◌<◌, Bool, true, false, not, ◌&&◌, ◌||◌, Option, none, some, List, [], ◌∷◌,
  ◌++◌, Bytes, net16, get16, read, deref, drop, ltb, ◌==◌, if◌then◌else◌, bit_and, add32, Outcome,
  ok, err, ◌>>=◌, ◌>>◌, refuse_if,
}
use simple_mqtt.Message.Codes.{
  mqtt_invalid_param, mqtt_message_type_error, message_type_min, message_type_max,
}
use simple_mqtt.Message.Remain.{remain_length_decode}

-- Pointers that may be NULL are `Option`. A flag says whether the pointers that a function only
-- writes through are not NULL.
--
-- `memcpy` of no byte from NULL is taken to copy nothing, as it does on the C libraries in use.
unfoldable pub build_string_field : Option Bytes → ℕ → Bool → Outcome Bytes
build_string_field none str_len outs = do
  refuse_if (not (str_len == 0)) mqtt_invalid_param
  refuse_if (not outs) mqtt_invalid_param
  ok (net16 str_len)
build_string_field (some str) str_len outs = do
  refuse_if (not outs) mqtt_invalid_param
  text ← read str_len str
  ok (net16 str_len ++ text)

-- `*str_len` and what is copied to `str`, if that is wanted.
unfoldable pub parse_string_field : Option Bytes → Bool → Bool → Outcome (ℕ × Bytes)
parse_string_field none wanted outs = err mqtt_invalid_param
parse_string_field (some buffer) wanted outs = do
  refuse_if (not outs) mqtt_invalid_param
  network_len ← get16 buffer
  str ← if wanted then read network_len (drop 2 buffer) else ok []
  ok (network_len, str)

-- `*str`, a pointer into the buffer, and `*str_len`.
unfoldable pub locate_string_field : Option Bytes → Bool → Outcome (Bytes × ℕ)
locate_string_field none outs = err mqtt_invalid_param
locate_string_field (some buffer) outs = do
  refuse_if (not outs) mqtt_invalid_param
  str_len ← get16 buffer
  ok (drop 2 buffer, str_len)

-- `(message[0] & MESSAGE_TYPE_MASK) >> 4`
abbrev pub type_bits : ℕ → ℕ
type_bits b = bit_and b 0xf0 / 16

unfoldable pub message_type_filter : Bytes → Outcome ℕ
message_type_filter message = do
  first ← deref message
  if ltb (type_bits first) message_type_max && ltb message_type_min (type_bits first)
      then ok (type_bits first)
      else err mqtt_message_type_error

pub record FixedHeader : Type 0 where
  pub message_type : ℕ
  pub message_len : ℕ
  pub remain_len : ℕ

-- The three out parameters. `message_len` is `*message_len` on entry.
unfoldable pub message_fixed_header_decode : Option Bytes → ℕ → Bool → Outcome FixedHeader
message_fixed_header_decode none message_len outs = err mqtt_invalid_param
message_fixed_header_decode (some message) message_len outs = do
  refuse_if (not outs) mqtt_invalid_param
  first ← deref message
  refuse_if (ltb message_type_max (type_bits first) || ltb (type_bits first) message_type_min)
      mqtt_message_type_error
  (encode_len, remain_len) ← remain_length_decode (drop 1 message) message_len
  ok (record {
    message_type = type_bits first;
    message_len = add32 (add32 remain_len encode_len) 1;
    remain_len = remain_len;
  })
