-- ===== src/Message/Publish/Overflow.antt =====
-- src/message/msg_publish.c: theorems on lengths that do not fit their words.
use simple_mqtt.Base.{
  ℕ, ◌+◌, ◌%◌, ◌≤◌, ◌<◌, ◌≡◌, arith, some, ◌∷◌, ◌++◌, Bytes, emit, length, read_all, ltb, leb,
  if◌then◌else◌, Endian, htons, ok, err, fault,
}
use simple_mqtt.Message.Codes.{mqtt_memory_nobuffer}
use simple_mqtt.Message.Remain.Bounds.{length_field, length-encoding, remain_length_encode_lem}
use simple_mqtt.Message.Field.RoundTrip.{build_string_field_whole}
use simple_mqtt.Message.Publish.{type_with_flags, publish_message_build, publish_remain_len}
use simple_mqtt.Message.Publish.RoundTrip.{publish_args, publish_size, publish_body}

-- The packet with another length in its length field.
abbrev pub packet_with : ℕ → ℕ → ℕ → ℕ → Bytes → ℕ → Bytes → Bytes
packet_with stated dup qos retain topic packet_id payload =
    type_with_flags dup qos retain
    ∷ (length_field stated ++ publish_body qos topic packet_id payload)

-- What `publish_message_build` comes to for texts of every size, with a QoS below 3, a topic of at least
-- one byte, pointers that are not NULL and lengths that are those of the texts. The length that it stores
-- is the size of what is behind the fixed header modulo 65536; if `*message_len` is below the size of a
-- packet of that length, it returns MQTT_MEMORY_NOBUFFER. Otherwise it writes the whole packet, with the
-- identifier in network order where the QoS is not 0, which is undefined behaviour unless the buffer holds it.
pub publish_message_build_any :
    (host : Endian) (dup qos retain : ℕ) (topic : Bytes) (packet_id : ℕ) (payload : Bytes)
    (room cap : ℕ)
    → qos < 3
    → 1 ≤ length topic
    → let stated = publish_size qos topic payload % 65536 in
      let packet = packet_with stated dup qos retain topic packet_id payload in
      publish_message_build host
        (publish_args dup qos retain topic packet_id payload)
        (some cap)
        (some room)
      ≡ (if ltb room (1 + length (length_field stated) + stated)
          then err mqtt_memory_nobuffer
          else if leb (length packet) cap
          then ok (record {
            message = packet;
            packet_id = some (if ltb 0 qos then htons host packet_id else packet_id);
          })
          else fault)
unfolding publish_message_build emit
publish_message_build_any host dup qos retain topic packet_id payload room cap qos_ok topic_ok =
    ground (
      arith,
      remain_len_any,
      remain_length_encode_lem 4 (publish_size qos topic payload % 65536) (omega arith)
          (length-encoding 3 (publish_size qos topic payload % 65536)).1,
      build_string_field_whole topic,
      read_all payload,
    )
  where
    remain_len_any :
        publish_remain_len (length topic) qos (length payload)
        ≡ publish_size qos topic payload % 65536
    remain_len_any = ground arith
