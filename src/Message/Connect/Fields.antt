-- ===== src/Message/Connect/Fields.antt =====
-- src/message/msg_connect.c: theorems on the parts that the parser reads one after the other.
use simple_mqtt.Base.{
  as_flag, ℕ, ◌+◌, ◌-◌, ◌^◌, ◌≤◌, ◌<◌, ◌≡◌, refl, ◌∙◌, arith, Bool, true, false, Option, none, some,
  [], ◌++◌, Bytes, IsU16, net16_value, get16, read, read_append, deref, length, drop, drop_append,
  drop-add_two, ltb, if◌then◌else◌, sub32_lem, ok, err,
}
use simple_mqtt.Message.Field.{parse_string_field}
use simple_mqtt.Message.Connect.{ConnectSettings, set_will_qos, connect_flags, variable_header}
use simple_mqtt.Message.Connect.Size.{Texts, as_payload, field, field_if, with_will, flags_bits}
use simple_mqtt.Message.Connect.Parser.{
  variable_header_parse, flags_settings, flags_check, copy_text, client_id_parse, text_parse,
  text_parse_if,
}

pub variable_header_parse_lem :
    (flags keep_alive : ℕ) (rest : Bytes)
    → variable_header_parse (variable_header flags keep_alive ++ rest) ≡ ok (flags, keep_alive)
unfolding variable_header_parse deref read get16
variable_header_parse_lem flags keep_alive rest = ground (arith, net16_value keep_alive)

-- Where a field is read from, and what is left then.
module _ (text rest : Bytes) (n : ℕ) (text_ok : IsU16 (length text)) (n_ok : n < 2 ^ 32)
    (fits : 2 + length text ≤ n) where
  field_read : parse_string_field (some (field text ++ rest)) true true ≡ ok (length text, text)
  unfolding parse_string_field get16
  field_read = rw (net16_value, read_append) refl

  field_measured : parse_string_field (some (field text ++ rest)) false true ≡ ok (length text, [])
  unfolding parse_string_field get16
  field_measured = rw net16_value refl

  field_passed : drop (length text + 2) (field text ++ rest) ≡ rest
  field_passed = drop-add_two (length text) _ _ (text ++ rest) ∙ drop_append text rest

  pub client_id_parse_lem :
      1 ≤ length text
      → length text ≤ 23
      → client_id_parse true (field text ++ rest) n
        ≡ ok (some text, length text, rest, n - (2 + length text))
  unfolding client_id_parse copy_text
  client_id_parse_lem lo hi = ground (
    arith,
    field_measured,
    field_read,
    field_passed,
    sub32_lem n 2,
    sub32_lem n (length text + 2),
  )

  text_parse_lem :
      (must : Bool)
      → 1 ≤ length text
      → text_parse true must (field text ++ rest) n
        ≡ ok (some text, length text, rest, n - (2 + length text))
  unfolding text_parse copy_text
  text_parse_lem must lo = ground (
    arith,
    field_measured,
    field_read,
    field_passed,
    sub32_lem n 2,
    sub32_lem n (length text + 2),
  )

-- What is read back of a field that may be missing.
abbrev pub text_back : Bool → Bytes → Option Bytes
text_back true text = some text
text_back false text = none

abbrev pub len_back : Bool → Bytes → ℕ
len_back true text = length text
len_back false text = 0

pub text_parse_if_lem :
    (b must : Bool) (text rest : Bytes) (n : ℕ)
    → IsU16 (length text)
    → n < 2 ^ 32
    → length (field_if b text) ≤ n
    → (b ≡ true → 1 ≤ length text)
    → text_parse_if b true must (field_if b text ++ rest) n
      ≡ ok (text_back b text, len_back b text, rest, n - length (field_if b text))
text_parse_if_lem true must text rest n text_ok n_ok fits there =
    text_parse_lem text rest n text_ok n_ok (omega arith) must (there refl) ∙ ground arith
text_parse_if_lem false must text rest n text_ok n_ok fits there = ground arith

-- The settings in the flags.
pub flags_settings_lem :
    (t : Texts) (s : ConnectSettings)
    → with_will t ≡ true
    → flags_settings (connect_flags (as_payload t) s) s.keep_alive ≡ record {
      keep_alive = s.keep_alive;
      clean_session = as_flag s.clean_session;
      will_retain = as_flag s.will_retain;
      will_qos = if ltb s.will_qos 3 then s.will_qos else 0;
    }
unfolding connect_flags set_will_qos
flags_settings_lem t s will = ground arith

pub flags_check_lem :
    (t : Texts) (s : ConnectSettings)
    → flags_check (connect_flags (as_payload t) s) ≡ (if with_will t then ok tt else err 10)
unfolding flags_check
flags_check_lem t s =
    let (will, username, password) = flags_bits t s in rw (will, username, password) (ground arith)
