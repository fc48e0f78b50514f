-- ===== src/Message/Connect/Parser.antt =====
-- src/message/msg_connect.c: `connect_message_parse`.
use simple_mqtt.Base.{
  ℕ, ◌+◌, ◌*◌, ◌/◌, ◌^◌, Bool, true, false, not, ◌&&◌, ◌||◌, Option, none, some, [], ◌∷◌, Bytes,
  get16, read, deref, drop, ltb, ◌==◌, if◌then◌else◌, bit_and, sub32, Outcome, ok, ◌>>=◌, ◌>>◌,
  refuse_if, err,
}
use simple_mqtt.Message.Codes
use simple_mqtt.Message.Field.{parse_string_field}
use simple_mqtt.Message.Header.{parse_header}
use simple_mqtt.Message.Connect.{
  ConnectPayload, ConnectSettings, bit_is_set, mqtt_client_id_len_max, variable_header_size,
}

-- What a parse leaves in the out parameters.
pub record ConnectFields : Type 0 where
  pub payload : ConnectPayload
  pub settings : ConnectSettings

-- `memcmp(a, b, 4) == 0`
pub same_bytes : Bytes → Bytes → Bool
same_bytes [] [] = true
same_bytes (a ∷ left) (b ∷ right) = a == b && same_bytes left right
same_bytes _ _ = false

-- The tests of the protocol's name and level, and then the flags and the keep alive time.
unfoldable pub variable_header_parse : Bytes → Outcome (ℕ × ℕ)
unfolding same_bytes
variable_header_parse header = do
  high ← deref header
  refuse_if (not (high == 0)) Codes.mqtt_protocol_unsupport
  low ← deref (drop 1 header)
  refuse_if (not (low == 4)) Codes.mqtt_protocol_unsupport
  name ← read 4 (drop 2 header)
  refuse_if (not (same_bytes name (77 ∷ 81 ∷ 84 ∷ 84 ∷ []))) Codes.mqtt_protocol_unsupport
  level ← deref (drop 6 header)
  refuse_if (not (level == 4)) Codes.mqtt_protocol_level_unsupport
  flags ← deref (drop 7 header)
  keep_alive ← get16 (drop 8 header)
  ok (flags, keep_alive)

abbrev pub bit_value : ℕ → ℕ → ℕ
bit_value flags index = bit_and (flags / 2 ^ index) 1

-- `*will_qos`, which is 0 where both bits are set.
abbrev pub flags_will_qos : ℕ → ℕ
flags_will_qos flags =
    let qos = bit_value flags 4 * 2 + bit_value flags 3 in if ltb 2 qos then 0 else qos

abbrev pub flags_settings : ℕ → ℕ → ConnectSettings
flags_settings flags keep_alive = record {
  keep_alive = keep_alive;
  clean_session = bit_value flags 1;
  will_retain = bit_value flags 5;
  will_qos = flags_will_qos flags;
}

-- The test of the flags. `will_retain || will_qos` in the source looks at the pointers, which are
-- not NULL.
unfoldable pub flags_check : ℕ → Outcome (Unit {0})
flags_check flags = do
  refuse_if (not (bit_is_set flags 2) && (true || true)) Codes.mqtt_connect_flags_error
  refuse_if (not (bit_is_set flags 7) && bit_is_set flags 6) Codes.mqtt_connect_flags_error

-- The memory for a field, filled from the packet.
unfoldable pub copy_text : Bool → Bytes → Outcome (Option Bytes)
copy_text granted ptr = do
  refuse_if (not granted) Codes.mqtt_memory_nobuffer
  (len, text) ← parse_string_field (some ptr) true true
  ok (some text)

-- The client id, its length, and where the packet goes on, with what is left.
unfoldable pub client_id_parse : Bool → Bytes → ℕ → Outcome (Option Bytes × ℕ × Bytes × ℕ)
unfolding copy_text
client_id_parse granted ptr message_len = do
  (len, _) ← parse_string_field (some ptr) false true
  refuse_if (len == 0 || ltb mqtt_client_id_len_max len) Codes.mqtt_client_id_length_unsupport
  refuse_if (ltb (sub32 message_len 2) len) Codes.mqtt_connect_message_error
  text ← copy_text granted ptr
  ok (text, len, drop (len + 2) ptr, sub32 message_len (len + 2))

-- The same for another field; `must` says that it may not be empty. An empty password is left NULL.
unfoldable pub text_parse : Bool → Bool → Bytes → ℕ → Outcome (Option Bytes × ℕ × Bytes × ℕ)
unfolding copy_text
text_parse granted must ptr message_len = do
  (len, _) ← parse_string_field (some ptr) false true
  refuse_if ((must && len == 0) || ltb (sub32 message_len 2) len) Codes.mqtt_connect_message_error
  text ← if len == 0 then ok none else copy_text granted ptr
  ok (text, len, drop (len + 2) ptr, sub32 message_len (len + 2))

-- A field that is only there when its flag is set.
abbrev pub text_parse_if : Bool → Bool → Bool → Bytes → ℕ → Outcome (Option Bytes × ℕ × Bytes × ℕ)
text_parse_if true granted must ptr message_len = text_parse granted must ptr message_len
text_parse_if false granted must ptr message_len = ok (none, 0, ptr, message_len)

-- The payload. `granted` says which of its five calls of `malloc` return memory.
unfoldable pub connect_payload_parse : (ℕ → Bool) → ℕ → Bytes → ℕ → Outcome ConnectPayload
connect_payload_parse granted flags ptr message_len = do
  (client_id, client_id_len, ptr₁, len₁) ← client_id_parse (granted 0) ptr message_len
  (will_topic, will_topic_len, ptr₂, len₂) ←
      text_parse_if (bit_is_set flags 2) (granted 1) true ptr₁ len₁
  (will_msg, will_msg_len, ptr₃, len₃) ←
      text_parse_if (bit_is_set flags 2) (granted 2) true ptr₂ len₂
  (username, username_len, ptr₄, len₄) ←
      text_parse_if (bit_is_set flags 7) (granted 3) true ptr₃ len₃
  (password, password_len, ptr₅, len₅) ←
      text_parse_if (bit_is_set flags 6) (granted 4) false ptr₄ len₄
  refuse_if (not (len₅ == 0)) Codes.mqtt_connect_message_error
  ok (record {
    client_id_len = client_id_len;
    client_id = client_id;
    will_topic_len = will_topic_len;
    will_topic = will_topic;
    will_msg_len = will_msg_len;
    will_msg = will_msg;
    username_len = username_len;
    username = username;
    password_len = password_len;
    password = password;
  })

-- `outs` says that no out parameter is NULL.
unfoldable pub connect_message_parse : (ℕ → Bool) → Option Bytes → ℕ → Bool → Outcome ConnectFields
unfolding flags_check
connect_message_parse granted none message_len outs = err Codes.mqtt_invalid_param
connect_message_parse granted (some message) message_len outs = do
  refuse_if (not outs) Codes.mqtt_invalid_param
  (body, body_len) ←
      parse_header (Codes.message_type_encode Codes.message_type_connect) Codes.mqtt_invalid_param
        message message_len
  (flags, keep_alive) ← variable_header_parse body
  flags_check flags
  let payload_len = sub32 body_len variable_header_size
  refuse_if (ltb payload_len 2) Codes.mqtt_connect_message_error
  payload ← connect_payload_parse granted flags (drop variable_header_size body) payload_len
  ok (record { payload = payload; settings = flags_settings flags keep_alive })
