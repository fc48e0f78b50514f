-- ===== src/Message/Publish/Buffer.antt =====
-- src/message/msg_publish.c: theorems on the fixed header, in a buffer that may hold more than the packet.
use simple_mqtt.Base.{
  IsByte, ◌/◌, as_flag, append-nil, ℕ, zero, suc, ◌+◌, ◌^◌, ◌<◌, ◌≡◌, arith, true, some, [], ◌∷◌,
  ◌++◌, Bytes, deref, length, length-append, drop_append, sub32_lem, if◌then◌else◌, bit_and, ok,
}
use simple_mqtt.Message.Remain.Bounds.{length_field, length-encoding}
use simple_mqtt.Message.Remain.RoundTrip.{remain_length_decode_field}
use simple_mqtt.Message.Publish.{
  type_with_flags, has_flag, publish_qos, publish_body_parse, publish_message_parse,
}

pub record Flags (dup qos retain first : ℕ) : Type 0 where
  pub type : bit_and first 0xf0 ≡ 0x30
  pub qos_back : publish_qos first ≡ ok qos
  pub dup_back : (if has_flag 8 first then 1 else 0) ≡ as_flag dup
  pub retain_back : (if has_flag 1 first then 1 else 0) ≡ as_flag retain

pub type_with_flags-Flags :
    (dup qos retain : ℕ) → qos < 3 → Flags dup qos retain (type_with_flags dup qos retain)
unfolding type_with_flags publish_qos
type_with_flags-Flags dup zero retain h = ground arith
type_with_flags-Flags dup (suc zero) retain h = ground arith
type_with_flags-Flags dup (suc (suc zero)) retain h = ground arith
type_with_flags-Flags dup (suc (suc (suc qos))) retain h = absurd (omega arith)

pub type_with_flags_type :
    (dup qos retain : ℕ)
    → qos < 3
    → IsByte (type_with_flags dup qos retain) × (type_with_flags dup qos retain / 16 ≡ 3)
unfolding type_with_flags
type_with_flags_type dup zero retain h = (ground arith, ground arith)
type_with_flags_type dup (suc zero) retain h = (ground arith, ground arith)
type_with_flags_type dup (suc (suc zero)) retain h = (ground arith, ground arith)
type_with_flags_type dup (suc (suc (suc qos))) retain h = absurd (omega arith)

-- A PUBLISH packet with a length field for what follows it comes down to what follows it, whatever
-- stands behind the packet.
pub publish_message_parse_buffer :
    (first qos : ℕ) (body rest : Bytes)
    → bit_and first 0xf0 ≡ 0x30
    → publish_qos first ≡ ok qos
    → length body < 2 ^ 28
    → publish_message_parse
        (some (first ∷ (length_field (length body) ++ (body ++ rest))))
        (1 + length (length_field (length body)) + length body)
        true
      ≡ publish_body_parse
          (if has_flag 8 first then 1 else 0)
          qos
          (if has_flag 1 first then 1 else 0)
          (body ++ rest)
          (length body)
unfolding publish_message_parse deref
publish_message_parse_buffer first qos body rest type_ok qos_ok small = ground (
  arith,
  remain_length_decode_field size (field + size) (body ++ rest) small (omega arith),
  drop_append (length_field size) (body ++ rest),
  length-encoding 3 size,
  sub32_lem (1 + field + size) 1,
  sub32_lem (field + size) field,
)
  where
    size : ℕ
    size = length body

    field : ℕ
    field = length (length_field size)

-- A PUBLISH packet with nothing behind it.
pub publish_message_parse_body :
    (first qos : ℕ) (body : Bytes)
    → bit_and first 0xf0 ≡ 0x30
    → publish_qos first ≡ ok qos
    → length body < 2 ^ 28
    → publish_message_parse
        (some (first ∷ (length_field (length body) ++ body)))
        (length (first ∷ (length_field (length body) ++ body)))
        true
      ≡ publish_body_parse
          (if has_flag 8 first then 1 else 0)
          qos
          (if has_flag 1 first then 1 else 0)
          body
          (length body)
publish_message_parse_body first qos body type_ok qos_ok small =
    let len : length (first ∷ (length_field (length body) ++ body))
        ≡ 1 + length (length_field (length body)) + length body =
      omega (arith, length-append (length_field (length body)) body) in
    rw len (
      simp (append-nil body) at
        (publish_message_parse_buffer first qos body [] type_ok qos_ok small))
