-- ===== src/Message/Subscribe/Size.antt =====
-- src/message/msg_subscribe.c: `subscribe_message_len_calc` and the builder.
use simple_mqtt.Base.{
  ℕ, ◌+◌, ◌≤◌, ◌<◌, ◌^◌, ◌≡◌, ◌≢◌, refl, ap, arith, true, some, List, [], ◌∷◌, ◌++◌, map, Bytes,
  bit_and, ◌∙◌, IsU16, net16, length, length-append, ok,
}
use simple_mqtt.Message.Filters.Wire.{
  Topic, as_filter, entries, filters_len_lem, filters_packet, filters_message_build_lem,
}
use simple_mqtt.Message.Remain.Bounds.{length_field, length-encoding}
use simple_mqtt.Message.Subscribe.{subscribe_message_len_calc, subscribe_message_build}

len_calc_lem :
    (topics : List Topic)
    → topics ≢ []
    → length (entries true topics) + 7 < 2 ^ 32
    → subscribe_message_len_calc (map as_filter topics) true ≡ ok (7 + length (entries true topics))
unfolding subscribe_message_len_calc
len_calc_lem [] ne small = absurd (ne refl)
len_calc_lem (t ∷ topics) ne small = ap ok (filters_len_lem true (t ∷ topics) 7 (omega arith))

length-filters_packet :
    (packet_id : ℕ) (topics : List Topic)
    → length (filters_packet 8 true packet_id topics) ≤ 7 + length (entries true topics)
length-filters_packet packet_id topics =
    let size = length (net16 packet_id ++ entries true topics) in
    omega (
      arith,
      length-encoding 3 size,
      length-append (length_field size) (net16 packet_id ++ entries true topics),
    )

-- For at least one topic, and less than 2^28 bytes behind the fixed header, a buffer of the size that
-- `subscribe_message_len_calc` returns is enough for `subscribe_message_build`.
subscribe_message_build-len_calc :
    (packet_id : ℕ) (topics : List Topic)
    → topics ≢ []
    → length (entries true topics) + 2 < 2 ^ 28
    → (size : ℕ) × (message : Bytes) × (subscribe_message_len_calc (map as_filter topics) true
        ≡ ok size)
      × (subscribe_message_build packet_id (map as_filter topics) (some size) (some size)
          ≡ ok message)
unfolding subscribe_message_build
subscribe_message_build-len_calc packet_id topics ne small = (
  7 + length (entries true topics),
  filters_packet 8 true packet_id topics,
  len_calc_lem topics ne (omega arith),
  filters_message_build_lem 8 true packet_id _ _ topics ne small
      (length-filters_packet packet_id topics) (omega arith),
)

-- For one topic of sixteen-bit length, the size and the packet.
pub subscribe_message_built :
    (packet_id : ℕ) (name : Bytes) (qos : ℕ)
    → IsU16 (length name)
    → (subscribe_message_len_calc (as_filter (name, qos) ∷ []) true ≡ ok (10 + length name))
      × (subscribe_message_build packet_id
            (as_filter (name, qos) ∷ [])
            (some (10 + length name))
            (some (10 + length name))
          ≡ ok (filters_packet 8 true packet_id ((name, qos) ∷ [])))
unfolding subscribe_message_build
subscribe_message_built packet_id name qos len =
    let topics : List Topic = (name, qos) ∷ [] in
    let size : length (entries true topics) ≡ 3 + length name = omega (
      arith,
      length-append name (bit_and qos 3 ∷ []),
      length-append (name ++ bit_and qos 3 ∷ []) [],
    ) in
    (
      len_calc_lem topics (λ e. cc) (omega arith) ∙ ap ok (omega arith),
      filters_message_build_lem 8 true packet_id _ _ topics (λ e. cc) (omega arith)
          (omega (arith, length-filters_packet packet_id topics)) (omega arith),
    )
