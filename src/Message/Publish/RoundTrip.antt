-- ===== src/Message/Publish/RoundTrip.antt =====
-- src/message/msg_publish.c: theorems on packets whose lengths fit sixteen bits.
use simple_mqtt.Base.{
  as_flag, ℕ, ◌+◌, ◌^◌, ◌≤◌, ◌<◌, ◌≡◌, arith, true, some, [], ◌∷◌, ◌++◌, Bytes, IsU16, net16, get16,
  length, length-append, drop_append, drop-add_two, net16_value, read_all, ltb, if◌then◌else◌,
  Endian, htons, ok, sub32, emit_lem, ◌∙◌,
}
use simple_mqtt.Message.Remain.Bounds.{length_field, length-encoding, remain_length_encode_lem}
use simple_mqtt.Message.Field.{locate_string_field}
use simple_mqtt.Message.Field.RoundTrip.{build_string_field_whole}
use simple_mqtt.Message.Publish.Buffer.{type_with_flags-Flags, publish_message_parse_body}
use simple_mqtt.Message.Publish.{
  PublishArgs, Published, type_with_flags, take_packet_id, publish_message_build, publish_packet_id,
  publish_body_parse, publish_message_parse, publish_remain_len,
}

-- The bytes of the packet identifier, and what of it is read back.
abbrev pub id_bytes : ℕ → ℕ → Bytes
id_bytes qos packet_id = if ltb 0 qos then net16 packet_id else []

abbrev pub id_back : ℕ → ℕ → ℕ
id_back qos packet_id = if ltb 0 qos then packet_id else 0

-- The length behind the fixed header.
abbrev pub publish_size : ℕ → Bytes → Bytes → ℕ
publish_size qos topic payload = length topic + 2 + (if ltb 0 qos then 2 else 0) + length payload

publish_packet_id_lem :
    (qos packet_id : ℕ) (behind : Bytes) (n : ℕ)
    → IsU16 packet_id
    → n + 2 < 2 ^ 32
    → publish_packet_id qos (id_bytes qos packet_id ++ behind) ((if ltb 0 qos then 2 else 0) + n)
      ≡ ok (id_back qos packet_id, behind, n)
unfolding publish_packet_id get16
publish_packet_id_lem qos packet_id behind n h small = ground arith

abbrev pub publish_body : ℕ → Bytes → ℕ → Bytes → Bytes
publish_body qos topic packet_id payload =
    net16 (length topic) ++ (topic ++ (id_bytes qos packet_id ++ payload))

-- `behind` is what follows the packet identifier, of which the first `n` bytes are in the packet.
pub publish_body_parse_lem :
    (dup qos retain : ℕ) (topic : Bytes) (packet_id : ℕ) (behind : Bytes) (n : ℕ)
    → IsU16 packet_id
    → length topic + 2 + (if ltb 0 qos then 2 else 0) + n < 65536
    → publish_body_parse dup qos retain
        (publish_body qos topic packet_id behind)
        (length topic + 2 + (if ltb 0 qos then 2 else 0) + n)
      ≡ ok (record {
        dup = dup;
        qos = qos;
        retain = retain;
        topic = topic ++ (id_bytes qos packet_id ++ behind);
        topic_len = length topic;
        packet_id = id_back qos packet_id;
        payload = behind;
        payload_len = n;
      })
unfolding publish_body_parse locate_string_field get16
publish_body_parse_lem dup qos retain topic packet_id behind n h small = rw (
  net16_value,
  drop-add_two,
  drop_append,
  left_over,
  publish_packet_id_lem qos packet_id behind n h (omega arith),
)
  where
    left_over :
        sub32 (length topic + 2 + (if ltb 0 qos then 2 else 0) + n) (length topic + 2)
        ≡ (if ltb 0 qos then 2 else 0) + n
    left_over = ground arith

-- A call with pointers to all of its text, and lengths that are those of the text.
abbrev pub publish_args : ℕ → ℕ → ℕ → Bytes → ℕ → Bytes → PublishArgs
publish_args dup qos retain topic packet_id payload = record {
  dup = dup;
  qos = qos;
  retain = retain;
  topic = some topic;
  topic_len = length topic;
  packet_id = some packet_id;
  payload = some payload;
  payload_len = length payload;
}

-- The whole packet.
abbrev pub publish_packet : ℕ → ℕ → ℕ → Bytes → ℕ → Bytes → Bytes
publish_packet dup qos retain topic packet_id payload =
    type_with_flags dup qos retain
    ∷ (length_field (publish_size qos topic payload) ++ publish_body qos topic packet_id payload)

take_packet_id_lem :
    (host : Endian) (qos packet_id : ℕ)
    → take_packet_id host qos (some packet_id)
      ≡ ok (id_bytes qos packet_id, some (if ltb 0 qos then htons host packet_id else packet_id))
unfolding take_packet_id
take_packet_id_lem host qos packet_id = ground arith

pub length-publish_body :
    (qos : ℕ) (topic : Bytes) (packet_id : ℕ) (payload : Bytes)
    → length (publish_body qos topic packet_id payload) ≡ publish_size qos topic payload
length-publish_body qos topic packet_id payload =
    ground (arith, length-append topic (id_bytes qos packet_id ++ payload))

length-publish_packet :
    (dup qos retain : ℕ) (topic : Bytes) (packet_id : ℕ) (payload : Bytes)
    → length (publish_packet dup qos retain topic packet_id payload)
      ≡ 1 + length (length_field (publish_size qos topic payload)) + publish_size qos topic payload
length-publish_packet dup qos retain topic packet_id payload =
    rw length-append (omega (arith, length-publish_body qos topic packet_id payload))

module _ (host : Endian) (dup qos retain : ℕ) (topic : Bytes) (packet_id : ℕ) (payload : Bytes)
    (room cap : ℕ) (qos_ok : qos < 3) (topic_ok : 1 ≤ length topic) (id_ok : IsU16 packet_id)
    (size_ok : publish_size qos topic payload < 65536)
    (room_ok : length (publish_packet dup qos retain topic packet_id payload) ≤ room)
    (cap_ok : room ≤ cap) where
  pub publish_message_build_lem :
      publish_message_build host
        (publish_args dup qos retain topic packet_id payload)
        (some cap)
        (some room)
      ≡ ok (record {
        message = publish_packet dup qos retain topic packet_id payload;
        packet_id = some (if ltb 0 qos then htons host packet_id else packet_id);
      })
  unfolding publish_message_build
  publish_message_build_lem = ground (
    arith,
    remain_len_ok,
    remain_length_encode_lem 4 (publish_size qos topic payload) (omega arith)
        (length-encoding 3 (publish_size qos topic payload)).1,
    build_string_field_whole topic,
    read_all payload,
    length-publish_packet dup qos retain topic packet_id payload,
    emit_lem cap (publish_packet dup qos retain topic packet_id payload),
  )
    where
      remain_len_ok :
          publish_remain_len (length topic) qos (length payload) ≡ publish_size qos topic payload
      remain_len_ok = ground arith

  publish_message_parse_lem :
      publish_message_parse
        (some (publish_packet dup qos retain topic packet_id payload))
        (length (publish_packet dup qos retain topic packet_id payload))
        true
      ≡ ok (record {
        dup = as_flag dup;
        qos = qos;
        retain = as_flag retain;
        topic = topic ++ (id_bytes qos packet_id ++ payload);
        topic_len = length topic;
        packet_id = id_back qos packet_id;
        payload = payload;
        payload_len = length payload;
      })
  publish_message_parse_lem =
      let flags = type_with_flags-Flags dup qos retain qos_ok in
      rw (← length-publish_body qos topic packet_id payload) (
        publish_message_parse_body _ qos body flags.type flags.qos_back (omega (arith, body_size))
        ∙ rw (flags.dup_back, flags.retain_back, body_size)
            (publish_body_parse_lem (as_flag dup) qos (as_flag retain) topic packet_id payload
              (length payload) id_ok size_ok))
    where
      body : Bytes
      body = publish_body qos topic packet_id payload

      body_size : length body ≡ publish_size qos topic payload
      body_size = length-publish_body qos topic packet_id payload

  -- For a QoS below 3, a topic of at least one byte, a packet identifier of sixteen bits, less
  -- than 65536 bytes behind the fixed header, and a buffer as large as `*message_len` says that
  -- holds the whole packet: `publish_message_build` writes the packet, and
  -- `publish_message_parse` reads every argument back from it, the flags as 0 or 1, the topic and
  -- the payload as pointers to their text with their lengths, and the packet identifier, which is
  -- 0 for QoS 0.
  pub publish-parse-build :
      (out : Published) × (publish_message_build host
          (publish_args dup qos retain topic packet_id payload)
          (some cap)
          (some room)
        ≡ ok out)
      × (publish_message_parse (some out.message) (length out.message) true
          ≡ ok (record {
            dup = as_flag dup;
            qos = qos;
            retain = as_flag retain;
            topic = topic ++ (id_bytes qos packet_id ++ payload);
            topic_len = length topic;
            packet_id = id_back qos packet_id;
            payload = payload;
            payload_len = length payload;
          }))
  publish-parse-build = (
    record {
      message = publish_packet dup qos retain topic packet_id payload;
      packet_id = some (if ltb 0 qos then htons host packet_id else packet_id);
    },
    publish_message_build_lem,
    publish_message_parse_lem,
  )
