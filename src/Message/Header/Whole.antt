-- ===== src/Message/Header/Whole.antt =====
-- The header test of the parsers under src/message, on packets with a right length field and on any.
use simple_mqtt.Base.{
  ℕ, ◌+◌, ◌^◌, ◌<◌, ◌≡◌, ◌≢◌, arith, [], ◌∷◌, sub32, stuck, ◌++◌, Bytes, deref, length,
  length-append, drop_append, sub32_lem, ok,
}
use simple_mqtt.Message.Header.{parse_header}
use simple_mqtt.Message.Remain.Bounds.{length_field, length-encoding, remain_length_decode-ne-stuck}
use simple_mqtt.Message.Remain.RoundTrip.{remain_length_decode_field}

-- The packet with first byte `first` and the given rest.
abbrev pub packet : ℕ → Bytes → Bytes
packet first body = first ∷ (length_field (length body) ++ body)

pub length-packet :
    (first : ℕ) (body : Bytes)
    → length (packet first body) ≡ 1 + length (length_field (length body)) + length body
length-packet first body = omega (arith, length-append (length_field (length body)) body)

pub parse_header-packet :
    (first code : ℕ) (body : Bytes)
    → length body < 2 ^ 28
    → parse_header first code (packet first body) (length (packet first body))
      ≡ ok (body, length body)
unfolding parse_header deref
parse_header-packet first code body small = ground (
  arith,
  remain_length_decode_field size (field + size) body small,
  drop_append (length_field size) body,
  length-packet first body,
  length-encoding 3 size,
  sub32_lem (1 + field + size) 1,
  sub32_lem (field + size) field,
)
  where
    size : ℕ
    size = length body

    field : ℕ
    field = length (length_field size)

-- With other bytes behind the packet.
pub parse_header_within :
    (first code : ℕ) (body rest : Bytes)
    → length body < 2 ^ 28
    → parse_header first code
        (first ∷ (length_field (length body) ++ (body ++ rest)))
        (1 + length (length_field (length body)) + length body)
      ≡ ok (body ++ rest, length body)
unfolding parse_header deref
parse_header_within first code body rest small = ground (
  arith,
  remain_length_decode_field size (field + size) (body ++ rest) small,
  drop_append (length_field size) (body ++ rest),
  length-encoding 3 size,
  sub32_lem (1 + field + size) 1,
  sub32_lem (field + size) field,
)
  where
    size : ℕ
    size = length body

    field : ℕ
    field = length (length_field size)

pub parse_header-ne-stuck :
    (first code : ℕ) (message : Bytes) (message_len : ℕ)
    → parse_header first code message message_len ≢ stuck
unfolding parse_header deref
parse_header-ne-stuck first code [] message_len e = cc
parse_header-ne-stuck first code (b ∷ message) message_len e =
    ground (arith, remain_length_decode-ne-stuck message (sub32 message_len 1))
