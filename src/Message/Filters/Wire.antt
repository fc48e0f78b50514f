-- ===== src/Message/Filters/Wire.antt =====
-- src/message/msg_subscribe.c and msg_unsubscribe.c: lists of topic filters as they stand in a packet.
use simple_mqtt.Base.{
  ℕ, ◌+◌, ◌-◌, ◌^◌, ◌≤◌, ◌<◌, ◌≡◌, ◌≢◌, refl, arith, Bool, true, false, none, some, List, [], ◌∷◌,
  ◌++◌, map, Bytes, net16, emit_lem, length, length-append, take, if◌then◌else◌, bit_and, ok, stuck,
  append_assoc,
}
use simple_mqtt.Message.Codes
use simple_mqtt.Message.Field.RoundTrip.{build_string_field_whole}
use simple_mqtt.Message.Filters.{
  TopicFilter, filters_len, qos_field, filters_write, filters_message_build, located, unlink_first,
}
use simple_mqtt.Message.Header.Whole.{packet, length-packet}
use simple_mqtt.Message.Remain.Bounds.{length_field, length-encoding, remain_length_encode_lem}

-- A topic name with the QoS asked for.
abbrev pub Topic : Type 0
Topic = Bytes × ℕ

-- The node for a topic whose name is at hand.
abbrev pub as_filter : Topic → TopicFilter
as_filter (name, qos) = located name (length name) qos

-- The topic that a node stands for: the name is as long as the node says.
abbrev pub as_topic : TopicFilter → Topic
as_topic f = (elim f.topic_filter [ none ↦ [] | some name ↦ take f.topic_filter_len name ], f.qos)

abbrev pub entry : Bool → Topic → Bytes
entry with_qos (name, qos) = (net16 (length name) ++ name) ++ qos_field with_qos qos

abbrev pub entries : Bool → List Topic → Bytes
entries with_qos [] = []
entries with_qos (t ∷ topics) = entry with_qos t ++ entries with_qos topics

abbrev pub extra : Bool → ℕ
extra with_qos = if with_qos then 3 else 2

length-entry :
    (with_qos : Bool) (name : Bytes) (qos : ℕ)
    → length (entry with_qos (name, qos)) ≡ length name + extra with_qos
length-entry true name qos = omega (arith, length-append name (bit_and qos 3 ∷ []))
length-entry false name qos = omega (arith, length-append {0} {A = ℕ} name [])

pub filters_write_lem :
    (with_qos : Bool) (topics : List Topic) (room : ℕ)
    → length (entries with_qos topics) ≤ room
    → filters_write with_qos room (map as_filter topics) ≡ ok (entries with_qos topics)
unfolding filters_write
filters_write_lem with_qos [] room fits = refl
filters_write_lem with_qos ((name, qos) ∷ topics) room fits = ground (
  arith,
  build_string_field_whole name,
  length-append (entry with_qos (name, qos)) (entries with_qos topics),
  filters_write_lem with_qos topics (room - length (entry with_qos (name, qos))),
)

pub filters_len_lem :
    (with_qos : Bool) (topics : List Topic) (len : ℕ)
    → len + length (entries with_qos topics) < 2 ^ 32
    → filters_len (extra with_qos) len (map as_filter topics)
      ≡ len + length (entries with_qos topics)
unfolding filters_len
filters_len_lem with_qos [] len small = omega arith
filters_len_lem with_qos ((name, qos) ∷ topics) len small = ground (
  arith,
  length-append (entry with_qos (name, qos)) (entries with_qos topics),
  length-entry with_qos name qos,
  filters_len_lem with_qos topics (len + (length name + extra with_qos)),
)

-- The packet of a builder.
abbrev pub filters_packet : ℕ → Bool → ℕ → List Topic → Bytes
filters_packet message_type with_qos packet_id topics =
    packet (Codes.message_type_encode message_type) (net16 packet_id ++ entries with_qos topics)

pub filters_message_build_lem :
    (message_type : ℕ) (with_qos : Bool) (packet_id given cap : ℕ) (topics : List Topic)
    → topics ≢ []
    → length (entries with_qos topics) + 2 < 2 ^ 28
    → length (filters_packet message_type with_qos packet_id topics) ≤ given
    → given ≤ cap
    → filters_message_build message_type with_qos packet_id
        (map as_filter topics)
        (some cap)
        (some given)
      ≡ ok (filters_packet message_type with_qos packet_id topics)
unfolding filters_message_build
filters_message_build_lem message_type with_qos packet_id given cap [] ne small room_ok cap_ok =
    absurd (ne refl)
filters_message_build_lem message_type with_qos packet_id given cap (t ∷ topics) ne small room_ok
      cap_ok =
    ground (
      arith,
      filters_len_lem with_qos (t ∷ topics) 2 (omega arith),
      remain_length_encode_lem 4 (2 + size) (omega arith) (length-encoding 3 (2 + size)).1,
      length-encoding 3 (2 + size),
      length-packet first (net16 packet_id ++ body),
      emit_lem cap header,
      filters_write_lem with_qos (t ∷ topics) (cap - length header),
      length-append (length_field (2 + size)) (net16 packet_id),
      append_assoc (length_field (2 + size)) (net16 packet_id) body,
    )
  where
    first : ℕ
    first = Codes.message_type_encode message_type

    body : Bytes
    body = entries with_qos (t ∷ topics)

    size : ℕ
    size = length body

    header : Bytes
    header = first ∷ (length_field (2 + size) ++ net16 packet_id)

pub unlink_first-ne-stuck : (filters : List TopicFilter) → unlink_first filters ≢ stuck
unlink_first-ne-stuck [] e = cc
unlink_first-ne-stuck (f ∷ filters) e = cc
