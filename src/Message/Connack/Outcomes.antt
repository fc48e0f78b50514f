-- ===== src/Message/Connack/Outcomes.antt =====
-- src/message/msg_connack.c: theorems on CONNACK packets of four bytes.
use simple_mqtt.Base.{
  ◌≢◌, stuck, not, ◌||◌, drop, sub32, >>=-ne-stuck, if-ne-stuck, ℕ, ◌≤◌, ◌≡◌, arith, true, none,
  some, [], ◌∷◌, Bytes, IsByte, deref, ◌==◌, if◌then◌else◌, ok, ltb, high_seven, low_bit,
}
use simple_mqtt.Message.Remain.Bounds.{remain_length_decode-ne-stuck}
use simple_mqtt.Message.Remain.RoundTrip.{remain_length_decode_one, remain_length_decode_none}
use simple_mqtt.Message.Remain.{remain_length_decode}
use simple_mqtt.Message.Connack.{connack_variable_header, connack_message_parse}

-- The outcome for the first four bytes of a buffer.
pub connack_message_parse_buffer :
    (junk flags code : ℕ) (rest : Bytes)
    → 1 ≤ junk
    → IsByte flags
    → connack_message_parse junk (some (0x20 ∷ 2 ∷ flags ∷ code ∷ rest)) 4 true
      ≡ ok (
          if ltb flags 2
          then record {
            ret = if code == 0 then 0 else 11;
            connack_code = some code;
            sp = some flags;
          }
          else record { ret = 11; connack_code = some code; sp = none })
unfolding connack_message_parse deref
connack_message_parse_buffer junk flags code rest h hb = ground (
  arith,
  remain_length_decode_one 2 junk (flags ∷ code ∷ rest) (omega arith) h,
  high_seven flags,
  low_bit flags,
)

-- The outcome on every packet of four bytes whose first two are right, with pointers that are not
-- NULL and an uninitialised `field_len` that is not 0. The session flag is stored whenever the
-- reserved bits are 0, and every return code but 0 is MQTT_CONNACK_MESSAGE_ERROR, whether or not
-- the flag is set.
pub connack_message_parse_lem :
    (junk flags code : ℕ)
    → 1 ≤ junk
    → IsByte flags
    → connack_message_parse junk (some (0x20 ∷ 2 ∷ flags ∷ code ∷ [])) 4 true
      ≡ ok (
          if ltb flags 2
          then record {
            ret = if code == 0 then 0 else 11;
            connack_code = some code;
            sp = some flags;
          }
          else record { ret = 11; connack_code = some code; sp = none })
connack_message_parse_lem junk flags code = connack_message_parse_buffer junk flags code []

-- If the stack holds a 0 where `field_len` is, every such packet is refused.
connack_message_parse_junk :
    (flags code : ℕ)
    → connack_message_parse 0 (some (0x20 ∷ 2 ∷ flags ∷ code ∷ [])) 4 true
      ≡ ok (record { ret = 11; connack_code = none; sp = none })
unfolding connack_message_parse deref
connack_message_parse_junk flags code =
    ground (arith, remain_length_decode_none (2 ∷ flags ∷ code ∷ []))

connack_variable_header-ne-stuck : (header : Bytes) → connack_variable_header header ≢ stuck
unfolding connack_variable_header deref
connack_variable_header-ne-stuck [] e = cc
connack_variable_header-ne-stuck (a ∷ []) e = cc
connack_variable_header-ne-stuck (a ∷ b ∷ rest) e = cc

pub connack_message_parse-ne-stuck :
    (junk : ℕ) (message : Bytes) (message_len : ℕ)
    → connack_message_parse junk (some message) message_len true ≢ stuck
unfolding connack_message_parse deref
connack_message_parse-ne-stuck junk [] message_len = λ e. cc
connack_message_parse-ne-stuck junk (b ∷ message) message_len =
    if-ne-stuck (not (b == 0x20)) _ _ (λ e. cc)
      (>>=-ne-stuck (remain_length_decode message junk) _
        (remain_length_decode-ne-stuck message junk)
        (λ r e.
          if-ne-stuck (not (r.1 == 2) || not (sub32 (sub32 message_len 1) r.0 == r.1)) _ _ (λ e. cc)
            (connack_variable_header-ne-stuck (drop r.0 message))))
