-- ===== src/Message/Field/RoundTrip.antt =====
-- src/message/message.c: theorems on string fields and fixed headers.
use simple_mqtt.Base.{
  ℕ, ◌+◌, ◌*◌, ◌/◌, ◌%◌, ◌^◌, ◌≤◌, ◌<◌, true, ◌&&◌, some, ◌∷◌, ◌++◌, ◌≡◌, Bytes, net16, IsU16,
  IsByte, get16, deref, length, read_append, read_all, ltb, if◌then◌else◌, high_nibble, ok, err,
  arith,
}
use simple_mqtt.Message.Codes.{mqtt_message_type_error}
use simple_mqtt.Message.Field.{
  build_string_field, parse_string_field, locate_string_field, message_type_filter,
  message_fixed_header_decode,
}
use simple_mqtt.Message.Remain.Bounds.{length_field, length-encoding}
use simple_mqtt.Message.Remain.RoundTrip.{remain_length_decode_field}

-- A string of the length that is stated is written whole behind its length.
pub build_string_field_lem :
    (str rest : Bytes)
    → build_string_field (some (str ++ rest)) (length str) true ≡ ok (net16 (length str) ++ str)
unfolding build_string_field
build_string_field_lem str rest = rw read_append

pub build_string_field_whole :
    (str : Bytes) → build_string_field (some str) (length str) true ≡ ok (net16 (length str) ++ str)
unfolding build_string_field
build_string_field_whole str = rw read_all

digits : (n : ℕ) → n / 256 * 256 + n % 256 ≡ n
digits n = omega arith

-- `parse_string_field` reads back a string of sixteen-bit length that `build_string_field` wrote,
-- with its length, whatever follows; `locate_string_field` returns where it begins, and its
-- length.
parse_string_field-build :
    (str more rest : Bytes)
    → IsU16 (length str)
    → (field : Bytes) × (build_string_field (some (str ++ more)) (length str) true ≡ ok field)
      × (parse_string_field (some (field ++ rest)) true true ≡ ok (length str, str))
      × (locate_string_field (some (field ++ rest)) true ≡ ok (str ++ rest, length str))
unfolding parse_string_field locate_string_field get16
parse_string_field-build str more rest h = (
  net16 (length str) ++ str,
  build_string_field_lem str more,
  rw (digits (length str), read_append),
  rw digits,
)

-- For every first byte `message_type_filter` returns the four high bits, unless they are 0 or 15,
-- which are MQTT_MESSAGE_TYPE_ERROR.
message_type_filter_lem :
    (b : ℕ) (rest : Bytes)
    → IsByte b
    → message_type_filter (b ∷ rest)
      ≡ (if ltb 15 b && ltb b 240 then ok (b / 16) else err mqtt_message_type_error)
unfolding message_type_filter deref
message_type_filter_lem b rest h = ground (arith, high_nibble b)

-- `message_fixed_header_decode` lets every first byte through, also those of types 0 and 15. For
-- a length field below 2^28 that lies within `*message_len` it returns the type, the length in
-- the field, and the length of the whole packet.
pub message_fixed_header_decode-encode :
    (b len n : ℕ) (rest : Bytes)
    → IsByte b
    → len < 2 ^ 28
    → length (length_field len) ≤ n
    → message_fixed_header_decode (some (b ∷ (length_field len ++ rest))) n true
      ≡ ok (record {
        message_type = b / 16;
        message_len = 1 + length (length_field len) + len;
        remain_len = len;
      })
unfolding message_fixed_header_decode deref
message_fixed_header_decode-encode b len n rest hb h fits =
    ground
      (arith, high_nibble b, remain_length_decode_field len n rest h fits, length-encoding 3 len)
