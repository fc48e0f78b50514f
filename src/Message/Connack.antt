-- ===== src/Message/Connack.antt =====
-- src/message/msg_connack.c: the CONNACK packet.
pub mod Outcomes
use simple_mqtt.Base.{
  ℕ, ◌+◌, ◌-◌, ◌/◌, ◌*◌, ◌%◌, Bool, true, false, not, ◌&&◌, ◌||◌, Option, none, some, [], ◌∷◌, ◌++◌,
  Bytes, deref, emit, length, drop, ◌==◌, if◌then◌else◌, bit_and, sub32, Outcome, ok, err, ◌>>=◌,
  ◌>>◌, refuse_if,
}
use simple_mqtt.Message.Codes
use simple_mqtt.Message.Remain.{remain_length_encode, remain_length_decode}

-- `cap` is the size of the buffer at `message`; the result is what is written.
unfoldable pub connack_message_build : ℕ → ℕ → ℕ → Outcome Bytes
connack_message_build sp connack_code cap = do
  type ← emit cap (Codes.message_type_encode Codes.message_type_connack ∷ [])
  field ← remain_length_encode (cap - 1) 2
  let reserved_and_sp : ℕ = if sp == 0 then 0 else 1
  emit cap (type ++ (field ++ (reserved_and_sp ∷ (connack_code % 256) ∷ [])))

-- What the parser leaves behind: its code, and what it has stored in `*connack_code` and `*sp`.
pub record ConnackOut : Type 0 where
  pub ret : ℕ
  pub connack_code : Option ℕ
  pub sp : Option ℕ

abbrev connack_failed : ℕ → ConnackOut
connack_failed ret = record { ret = ret; connack_code = none; sp = none }

-- The variable header. `sp != 0` in the source compares the pointer, which is not NULL.
pub connack_variable_header : Bytes → Outcome ConnackOut
connack_variable_header header = do
  reserved_and_sp ← deref header
  connack_code ← deref (drop 1 header)
  ok (
      if not (bit_and reserved_and_sp 0xfe == 0)
      then record {
        ret = Codes.mqtt_connack_message_error;
        connack_code = some connack_code;
        sp = none;
      }
      else record {
        ret =
            if not (connack_code == 0)
            then Codes.mqtt_connack_message_error
            else Codes.mqtt_success;
        connack_code = some connack_code;
        sp = some (bit_and reserved_and_sp 1);
      })

-- `field_len` is passed to `remain_length_decode` with no value: `junk` is what it happens to hold.
unfoldable pub connack_message_parse : ℕ → Option Bytes → ℕ → Bool → Outcome ConnackOut
unfolding connack_variable_header
connack_message_parse junk none message_len outs = ok (connack_failed Codes.mqtt_invalid_param)
connack_message_parse junk (some message) message_len outs =
    if not outs then ok (connack_failed Codes.mqtt_invalid_param) else (do
      first ← deref message
      if not (first == Codes.message_type_encode Codes.message_type_connack)
          then ok (connack_failed Codes.mqtt_message_type_error)
          else (do
            let rest = drop 1 message
            (field_len, remain_length) ← remain_length_decode rest junk
            let left = sub32 (sub32 message_len 1) field_len
            if not (remain_length == 2) || not (left == remain_length)
                then ok (connack_failed Codes.mqtt_connack_message_error)
                else connack_variable_header (drop field_len rest)))
