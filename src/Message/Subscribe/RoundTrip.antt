-- ===== src/Message/Subscribe/RoundTrip.antt =====
-- src/message/msg_subscribe.c: theorems on the builder and the parser together.
use simple_mqtt.Base.{
  ℕ, zero, suc, ◌+◌, ◌-◌, ◌^◌, ◌≤◌, ◌<◌, ◌≡◌, ◌≢◌, refl, arith, Bool, true, some, List, [], ◌∷◌,
  ◌++◌, map, Bytes, IsU16, All, net16, net16_value, get16, deref, length, length-append,
  take_append, drop_append, drop-add_two, lt→ltb, le→ltb, sub32, bit_and, ok, ap, ◌∙◌, append_assoc,
  append-nil,
}
use simple_mqtt.Message.Codes.{mqtt_subscribe_message_error}
use simple_mqtt.Message.Field.{locate_string_field}
use simple_mqtt.Message.Filters.{TopicFilter, located, unlink_first}
use simple_mqtt.Message.Filters.Wire.{
  Topic, as_filter, as_topic, entry, entries, filters_packet, filters_message_build_lem,
}
use simple_mqtt.Message.Header.Whole.{parse_header-packet}
use simple_mqtt.Message.Subscribe.{
  subscribe_message_build, subscribe_entry, subscribe_loop, subscribe_message_parse,
}

-- A topic that a packet can carry.
pub record IsTopic (t : Topic) : Type 0 where
  pub name_len : IsU16 (length t.0)
  pub qos_ok : t.1 ≤ 2

low_qos : (qos : ℕ) → qos ≤ 2 → bit_and qos 3 ≡ qos
low_qos zero h = refl
low_qos (suc zero) h = refl
low_qos (suc (suc zero)) h = refl
low_qos (suc (suc (suc qos))) h = absurd (omega arith)

-- One round of the loop takes one entry.
subscribe_entry_lem :
    (name : Bytes) (qos : ℕ) (rest : Bytes) (message_len : ℕ) (filters : List TopicFilter)
    → IsTopic (name, qos)
    → length name + 3 ≤ message_len
    → message_len < 2 ^ 32
    → subscribe_entry true (entry true (name, qos) ++ rest) message_len filters
      ≡ ok (
        filters ++ (located (name ++ (qos ∷ rest)) (length name) qos ∷ []),
        rest,
        message_len - (length name + 3),
      )
unfolding subscribe_entry locate_string_field get16 deref
subscribe_entry_lem name qos rest message_len filters topic enough small = rw (
  append_assoc name (bit_and qos 3 ∷ []) rest,
  low_qos qos topic.qos_ok,
  net16_value,
  drop-add_two,
  drop_append,
  le→ltb 2 qos topic.qos_ok,
  taken,
)
  where
    taken : sub32 (sub32 message_len (length name + 2)) 1 ≡ message_len - (length name + 3)
    taken = omega arith

subscribe_loop_lem :
    (granted : ℕ → Bool) (topics : List Topic) (fuel i : ℕ) (filters : List TopicFilter)
    → ((j : ℕ) → granted j ≡ true)
    → All IsTopic topics
    → length topics < fuel
    → 1 ≤ length filters + length topics
    → length (entries true topics) < 2 ^ 32
    → (found : List TopicFilter) × (subscribe_loop granted fuel i
          (entries true topics)
          (length (entries true topics))
          filters
        ≡ ok (filters ++ found))
      × (map as_topic found ≡ topics)
unfolding subscribe_loop
subscribe_loop_lem granted topics zero i filters grant good enough some_filter small =
    absurd (omega arith)
subscribe_loop_lem granted [] (suc fuel) i filters grant good enough some_filter small =
    ([], rw append-nil (unlinked filters (omega arith)), refl)
  where
    unlinked : (fs : List TopicFilter) → 1 ≤ length fs → unlink_first fs ≡ ok fs
    unlinked [] h = absurd (omega arith)
    unlinked (f ∷ fs) h = refl
subscribe_loop_lem granted ((name, qos) ∷ topics) (suc fuel) i filters grant (topic, good) enough
      some_filter small =
    let rest = entries true topics in
    let whole = length (entries true ((name, qos) ∷ topics)) in
    let node = located (name ++ (qos ∷ rest)) (length name) qos in
    let len : length (entries true ((name, qos) ∷ topics)) ≡ length name + 3 + length rest = omega (
      arith,
      length-append (entry true (name, qos)) rest,
      length-append name (bit_and qos 3 ∷ []),
    ) in
    let (found, run, same) =
      subscribe_loop_lem granted topics fuel (i + 1) (filters ++ (node ∷ [])) grant good
        (omega arith) (omega (arith, length-append filters (node ∷ []))) (omega arith) in
    (
      node ∷ found,
      rw
          (
            lt→ltb 0 whole (omega (arith, len)),
            grant i,
            subscribe_entry_lem name qos rest whole filters topic (omega (arith, len)) small,
            shorter len,
          )
          (run ∙ ap ok (append_assoc filters (node ∷ []) found)),
      rw (take_append, same),
    )
  where
    shorter :
        length (entries true ((name, qos) ∷ topics))
          ≡ length name + 3 + length (entries true topics)
        → length (entries true ((name, qos) ∷ topics)) - (length name + 3)
          ≡ length (entries true topics)
    shorter e = omega arith

length-entries :
    (with_qos : Bool) (topics : List Topic) → length topics ≤ length (entries with_qos topics)
length-entries with_qos [] = omega arith
length-entries with_qos (t ∷ topics) = omega (
  arith,
  length-append (entry with_qos t) (entries with_qos topics),
  length-entries with_qos topics,
)

-- Of topics whose names have at most 65535 bytes and whose QoS is at most 2, in a packet below 2^28
-- bytes and with a buffer for it, `subscribe_message_build` writes the packet, and
-- `subscribe_message_parse` reads back the identifier and the same topics, in order, if memory is
-- granted.
pub subscribe-parse-build :
    (granted : ℕ → Bool) (packet_id given cap : ℕ) (topics : List Topic)
    → ((i : ℕ) → granted i ≡ true)
    → topics ≢ []
    → All IsTopic topics
    → length (entries true topics) + 2 < 2 ^ 28
    → length (filters_packet 8 true packet_id topics) ≤ given
    → given ≤ cap
    → (message : Bytes) × (found : List TopicFilter) × (subscribe_message_build packet_id
          (map as_filter topics)
          (some cap)
          (some given)
        ≡ ok message)
      × (subscribe_message_parse true granted (some message) (length message) true
          ≡ ok (packet_id, found))
      × (map as_topic found ≡ topics)
unfolding subscribe_message_build subscribe_message_parse get16
subscribe-parse-build granted packet_id given cap topics grant ne good small room_ok cap_ok =
    let (found, run, same) =
      subscribe_loop_lem granted topics (suc (suc (suc (length (entries true topics))))) 0 [] grant
        good (omega (arith, length-entries true topics)) (some_topic topics ne) (omega arith) in
    (
      filters_packet 8 true packet_id topics,
      found,
      filters_message_build_lem 8 true packet_id given cap topics ne small room_ok cap_ok,
      ground (
        arith,
        parse_header-packet 0x80 mqtt_subscribe_message_error
            (net16 packet_id ++ entries true topics) (omega arith),
        net16_value packet_id,
        run,
      ),
      same,
    )
  where
    some_topic : (ts : List Topic) → ts ≢ [] → 1 ≤ 0 + length ts
    some_topic [] h = absurd (h refl)
    some_topic (t ∷ ts) h = omega arith
