-- ===== src/Message/Publish.antt =====
-- src/message/msg_publish.c: the PUBLISH packet.
pub mod Buffer
pub mod RoundTrip
pub mod Overflow
use simple_mqtt.Base.{
  ℕ, ◌+◌, ◌%◌, Bool, true, false, not, ◌&&◌, ◌||◌, Option, none, some, [], ◌∷◌, ◌++◌, Bytes, net16,
  get16, read, deref, emit, length, drop, ltb, leb, ◌==◌, if◌then◌else◌, bit_and, bit_or, sub32,
  Endian, htons, Outcome, ok, err, fault, ◌>>=◌, ◌>>◌, refuse_if, non_null, is_null,
}
use simple_mqtt.Message.Codes
use simple_mqtt.Message.Remain.{remain_length_encode, remain_length_decode}
use simple_mqtt.Message.Field.{build_string_field, locate_string_field}

-- The arguments of `publish_message_build`. `packet_id` is the number behind that pointer.
pub record PublishArgs : Type 0 where
  pub dup : ℕ
  pub qos : ℕ
  pub retain : ℕ
  pub topic : Option Bytes
  pub topic_len : ℕ
  pub packet_id : Option ℕ
  pub payload : Option Bytes
  pub payload_len : ℕ

-- What is written, `*message_len` being its length, and the number behind `packet_id` afterwards.
pub record Published : Type 0 where
  pub message : Bytes
  pub packet_id : Option ℕ

-- The first byte: PUBLISH with the flags DUP, QoS and RETAIN.
unfoldable pub type_with_flags : ℕ → ℕ → ℕ → ℕ
type_with_flags dup qos retain =
    let type = Codes.message_type_encode Codes.message_type_publish in
    let with_dup = if dup == 0 then type else bit_or type 8 in
    let with_retain = if retain == 0 then with_dup else bit_or with_dup 1 in
    if qos == 1
    then bit_or with_retain 2
    else if qos == 2
    then bit_or with_retain 4
    else with_retain

-- `remain_len`, a uint16_t.
abbrev pub publish_remain_len : ℕ → ℕ → ℕ → ℕ
publish_remain_len topic_len qos payload_len =
    let var_header = (topic_len + 2) % 65536 in
    let with_id = if ltb 0 qos then (var_header + 2) % 65536 else var_header in
    (with_id + payload_len) % 65536

-- `memcpy(message, payload, payload_len)`
pub copy_payload : Option Bytes → ℕ → Outcome Bytes
copy_payload none payload_len = if payload_len == 0 then ok [] else fault
copy_payload (some payload) payload_len = read payload_len payload

-- The packet identifier is asked for, and changed to network order in place, where qos > 0.
pub take_packet_id : Endian → ℕ → Option ℕ → Outcome (Bytes × Option ℕ)
take_packet_id host qos none = if ltb 0 qos then err Codes.mqtt_invalid_param else ok ([], none)
take_packet_id host qos (some packet_id) =
    if ltb 0 qos then ok (net16 packet_id, some (htons host packet_id)) else ok ([], some packet_id)

-- `message` is the size of the buffer, and `message_len` is `*message_len`.
unfoldable pub publish_message_build :
    Endian → PublishArgs → Option ℕ → Option ℕ → Outcome Published
unfolding type_with_flags copy_payload take_packet_id
publish_message_build host args message message_len = do
  cap ← non_null message Codes.mqtt_invalid_param
  room ← non_null message_len Codes.mqtt_invalid_param
  refuse_if (is_null args.topic || args.topic_len == 0 || leb Codes.mqtt_qos_max args.qos)
      Codes.mqtt_invalid_param
  (id_field, packet_id) ← take_packet_id host args.qos args.packet_id
  refuse_if (not (args.payload_len == 0) && is_null args.payload) Codes.mqtt_invalid_param
  let remain_len = publish_remain_len args.topic_len args.qos args.payload_len
  buffer ← remain_length_encode 4 remain_len
  refuse_if (ltb room (1 + length buffer + remain_len)) Codes.mqtt_memory_nobuffer
  topic_field ← build_string_field args.topic args.topic_len true
  payload ← copy_payload args.payload args.payload_len
  written ← emit cap (
      type_with_flags args.dup args.qos args.retain
      ∷ (buffer ++ (topic_field ++ (id_field ++ payload))))
  ok (record { message = written; packet_id = packet_id })

-- The out parameters. `topic` and `payload` point into the packet.
pub record PublishFields : Type 0 where
  pub dup : ℕ
  pub qos : ℕ
  pub retain : ℕ
  pub topic : Bytes
  pub topic_len : ℕ
  pub packet_id : ℕ
  pub payload : Bytes
  pub payload_len : ℕ

-- `*message & (1 << index)`, for the mask
abbrev pub has_flag : ℕ → ℕ → Bool
has_flag mask first = not (bit_and first mask == 0)

unfoldable pub publish_qos : ℕ → Outcome ℕ
publish_qos first =
    if has_flag 2 first && has_flag 4 first
    then err Codes.mqtt_publish_qos_error
    else if has_flag 4 first
    then ok Codes.mqtt_qos_2
    else if has_flag 2 first
    then ok Codes.mqtt_qos_1
    else ok Codes.mqtt_qos_0

-- The packet identifier, if there is one, and where the payload begins, with what is left.
unfoldable pub publish_packet_id : ℕ → Bytes → ℕ → Outcome (ℕ × Bytes × ℕ)
publish_packet_id qos message message_len =
    if ltb 0 qos
    then (do packet_id ← get16 message; ok (packet_id, drop 2 message, sub32 message_len 2))
    else ok (0, message, message_len)

-- The part behind the fixed header.
unfoldable pub publish_body_parse : ℕ → ℕ → ℕ → Bytes → ℕ → Outcome PublishFields
unfolding publish_packet_id
publish_body_parse dup qos retain message message_len = do
  (topic, topic_len) ← locate_string_field (some message) true
  (packet_id, payload, payload_len) ←
      publish_packet_id qos (drop (topic_len + 2) message) (sub32 message_len (topic_len + 2))
  ok (record {
    dup = dup;
    qos = qos;
    retain = retain;
    topic = topic;
    topic_len = topic_len;
    packet_id = packet_id;
    payload = payload;
    payload_len = payload_len;
  })

-- `outs` says whether no out parameter is NULL.
unfoldable pub publish_message_parse : Option Bytes → ℕ → Bool → Outcome PublishFields
unfolding publish_qos publish_body_parse
publish_message_parse none message_len outs = err Codes.mqtt_invalid_param
publish_message_parse (some message) message_len outs = do
  refuse_if (message_len == 0 || not outs) Codes.mqtt_invalid_param
  first ← deref message
  refuse_if (not (bit_and first 0xf0 == Codes.message_type_encode Codes.message_type_publish))
      Codes.mqtt_message_type_error
  qos ← publish_qos first
  let rest = drop 1 message
  let rest_len = sub32 message_len 1
  (field_len, remain_len) ← remain_length_decode rest rest_len
  let body_len = sub32 rest_len field_len
  refuse_if (ltb body_len remain_len) Codes.mqtt_publish_message_error
  publish_body_parse (if has_flag 8 first then 1 else 0) qos (if has_flag 1 first then 1 else 0)
      (drop field_len rest) body_len
