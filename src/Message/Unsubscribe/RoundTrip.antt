-- ===== src/Message/Unsubscribe/RoundTrip.antt =====
-- src/message/msg_unsubscribe.c: theorems on the builder and the parser together.
use simple_mqtt.Base.{
  ℕ, zero, suc, ◌+◌, ◌-◌, ◌^◌, ◌≤◌, ◌<◌, ◌≡◌, ◌≢◌, refl, arith, Bool, true, false, some, List, [],
  ◌∷◌, ◌++◌, map, Bytes, IsU16, All, net16, net16_value, get16, length, length-append, take_append,
  drop_append, drop-add_two, lt→ltb, sub32, ok, ap, ◌∙◌, append_assoc, append-nil,
}
use simple_mqtt.Message.Codes.{mqtt_subscribe_message_error}
use simple_mqtt.Message.Field.{locate_string_field}
use simple_mqtt.Message.Filters.{TopicFilter, located, unlink_first}
use simple_mqtt.Message.Filters.Wire.{
  Topic, as_filter, as_topic, entry, entries, filters_packet, filters_message_build_lem,
}
use simple_mqtt.Message.Header.Whole.{parse_header-packet}
use simple_mqtt.Message.Unsubscribe.{
  unsubscribe_message_build, unsubscribe_entry, unsubscribe_loop, unsubscribe_message_parse,
}

-- A topic of UNSUBSCRIBE: its name fits, and no QoS is asked for.
pub record IsPlain (t : Topic) : Type 0 where
  pub name_len : IsU16 (length t.0)
  pub no_qos : t.1 ≡ 0

-- One round of the loop takes one entry.
unsubscribe_entry_lem :
    (name : Bytes) (rest : Bytes) (message_len : ℕ) (filters : List TopicFilter)
    → IsU16 (length name)
    → length name + 2 ≤ message_len
    → message_len < 2 ^ 32
    → unsubscribe_entry true (entry false (name, 0) ++ rest) message_len filters
      ≡ ok (
        filters ++ (located (name ++ rest) (length name) 0 ∷ []),
        rest,
        message_len - (length name + 2),
      )
unfolding unsubscribe_entry locate_string_field get16
unsubscribe_entry_lem name rest message_len filters topic enough small =
    rw (append-nil, net16_value, drop-add_two, drop_append, taken)
  where
    taken : sub32 message_len (length name + 2) ≡ message_len - (length name + 2)
    taken = omega arith

unsubscribe_loop_lem :
    (granted : ℕ → Bool) (topics : List Topic) (fuel i : ℕ) (filters : List TopicFilter)
    → ((j : ℕ) → granted j ≡ true)
    → All IsPlain topics
    → length topics < fuel
    → 1 ≤ length filters + length topics
    → length (entries false topics) < 2 ^ 32
    → (found : List TopicFilter) × (unsubscribe_loop granted fuel i
          (entries false topics)
          (length (entries false topics))
          filters
        ≡ ok (filters ++ found))
      × (map as_topic found ≡ topics)
unfolding unsubscribe_loop
unsubscribe_loop_lem granted topics zero i filters grant good enough some_filter small =
    absurd (omega arith)
unsubscribe_loop_lem granted [] (suc fuel) i filters grant good enough some_filter small =
    ([], rw append-nil (unlinked filters (omega arith)), refl)
  where
    unlinked : (fs : List TopicFilter) → 1 ≤ length fs → unlink_first fs ≡ ok fs
    unlinked [] h = absurd (omega arith)
    unlinked (f ∷ fs) h = refl
unsubscribe_loop_lem granted ((name, qos) ∷ topics) (suc fuel) i filters grant (topic, good) enough
      some_filter small =
    let rest = entries false topics in
    let whole = length (entries false ((name, qos) ∷ topics)) in
    let node = located (name ++ rest) (length name) 0 in
    let len : length (entries false ((name, qos) ∷ topics)) ≡ length name + 2 + length rest =
      omega
        (arith, length-append (entry false (name, qos)) rest, length-append {0} {A = ℕ} name []) in
    let (found, run, same) =
      unsubscribe_loop_lem granted topics fuel (i + 1) (filters ++ (node ∷ [])) grant good
        (omega arith) (omega (arith, length-append filters (node ∷ []))) (omega arith) in
    (
      node ∷ found,
      rw
          (
            lt→ltb 0 whole (omega (arith, len)),
            grant i,
            unsubscribe_entry_lem name rest whole filters topic.name_len (omega (arith, len)) small,
            shorter len,
          )
          (run ∙ ap ok (append_assoc filters (node ∷ []) found)),
      rw (take_append, same, topic.no_qos),
    )
  where
    shorter :
        length (entries false ((name, qos) ∷ topics))
          ≡ length name + 2 + length (entries false topics)
        → length (entries false ((name, qos) ∷ topics)) - (length name + 2)
          ≡ length (entries false topics)
    shorter e = omega arith

length-entries :
    (with_qos : Bool) (topics : List Topic) → length topics ≤ length (entries with_qos topics)
length-entries with_qos [] = omega arith
length-entries with_qos (t ∷ topics) = omega (
  arith,
  length-append (entry with_qos t) (entries with_qos topics),
  length-entries with_qos topics,
)

-- Of topics whose names have at most 65535 bytes and that ask for no QoS, in a packet below 2^28
-- bytes and with a buffer for it, `unsubscribe_message_build` writes the packet, and
-- `unsubscribe_message_parse` reads back the identifier and the same topics, in order, if memory is
-- granted.
pub unsubscribe-parse-build :
    (granted : ℕ → Bool) (packet_id given cap : ℕ) (topics : List Topic)
    → ((i : ℕ) → granted i ≡ true)
    → topics ≢ []
    → All IsPlain topics
    → length (entries false topics) + 2 < 2 ^ 28
    → length (filters_packet 10 false packet_id topics) ≤ given
    → given ≤ cap
    → (message : Bytes) × (found : List TopicFilter) × (unsubscribe_message_build packet_id
          (map as_filter topics)
          (some cap)
          (some given)
        ≡ ok message)
      × (unsubscribe_message_parse true granted (some message) (length message) true
          ≡ ok (packet_id, found))
      × (map as_topic found ≡ topics)
unfolding unsubscribe_message_build unsubscribe_message_parse get16
unsubscribe-parse-build granted packet_id given cap topics grant ne good small room_ok cap_ok =
    let (found, run, same) =
      unsubscribe_loop_lem granted topics (suc (suc (suc (length (entries false topics))))) 0 []
        grant good (omega (arith, length-entries false topics)) (some_topic topics ne)
        (omega arith) in
    (
      filters_packet 10 false packet_id topics,
      found,
      filters_message_build_lem 10 false packet_id given cap topics ne small room_ok cap_ok,
      ground (
        arith,
        parse_header-packet 0xa0 mqtt_subscribe_message_error
            (net16 packet_id ++ entries false topics) (omega arith),
        net16_value packet_id,
        run,
      ),
      same,
    )
  where
    some_topic : (ts : List Topic) → ts ≢ [] → 1 ≤ 0 + length ts
    some_topic [] h = absurd (h refl)
    some_topic (t ∷ ts) h = omega arith
