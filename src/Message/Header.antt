-- ===== src/Message/Header.antt =====
-- The steps with which `subscribe_message_parse`, `suback_message_parse`,
-- `unsubscribe_message_parse` and `connect_message_parse` begin, each in its file under src/message:
-- the first byte, the length field, and the test that the length is that of the rest.
pub mod Whole
use simple_mqtt.Base.{ℕ, not, Bytes, deref, drop, ◌==◌, sub32, Outcome, ok, ◌>>=◌, ◌>>◌, refuse_if}
use simple_mqtt.Message.Codes
use simple_mqtt.Message.Remain.{remain_length_decode}

-- `message` from behind the length field on, and `message_len` there. The code is the one for
-- a wrong length.
unfoldable pub parse_header : ℕ → ℕ → Bytes → ℕ → Outcome (Bytes × ℕ)
parse_header expected code message message_len = do
  first ← deref message
  refuse_if (not (first == expected)) Codes.mqtt_message_type_error
  let rest = drop 1 message
  let rest_len = sub32 message_len 1
  (field_len, remain_len) ← remain_length_decode rest rest_len
  let body_len = sub32 rest_len field_len
  refuse_if (not (remain_len == body_len)) code
  ok (drop field_len rest, body_len)
