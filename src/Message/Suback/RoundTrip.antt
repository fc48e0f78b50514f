-- ===== src/Message/Suback/RoundTrip.antt =====
-- src/message/msg_suback.c: theorems on the SUBACK packet.
use simple_mqtt.Base.{
  ℕ, ◌+◌, ◌-◌, ◌≤◌, ◌<◌, ◌≡◌, inl, refl, arith, Bool, true, false, some, [], ◌∷◌, ◌++◌, Bytes, All,
  net16, get16, emit_lem, length, length-append, append_assoc, append-nil, lt→ltb, ok, net16_value,
}
use simple_mqtt.Message.Codes.{mqtt_suback_message_error}
use simple_mqtt.Message.Header.Whole.{packet, length-packet, parse_header-packet}
use simple_mqtt.Message.Remain.Bounds.{length_field, length-encoding, remain_length_encode_lem}
use simple_mqtt.Message.Suback.{
  SubackData, qos_refused, suback_items, suback_message_build, suback_loop, suback_message_parse,
}
use simple_mqtt.Message.Suback.Array.{
  Holds, suback_data_init-Holds, appended, suback_data_append-Holds,
}

abbrev pub IsGranted : ℕ → Type 0
IsGranted qos = qos_refused qos ≡ false

suback_items_lem :
    (items : Bytes) (room : ℕ)
    → All IsGranted items
    → length items ≤ room
    → suback_items (length items) items room ≡ ok items
unfolding suback_items
suback_items_lem [] room good fits = refl
suback_items_lem (q ∷ items) room (hq, good) fits =
    rw (hq, suback_items_lem items (room - 1) good (omega arith)) (ground arith)

-- The packet for the identifier and the values.
abbrev pub suback_packet : ℕ → Bytes → Bytes
suback_packet packet_id items = packet 0x90 (net16 packet_id ++ items)

length-suback_packet :
    (packet_id : ℕ) (items : Bytes)
    → length (suback_packet packet_id items)
      ≡ 3 + length (length_field (length (net16 packet_id ++ items))) + length items
length-suback_packet packet_id items = omega (arith, length-packet 0x90 (net16 packet_id ++ items))

suback_message_build_lem :
    (packet_id given cap : ℕ) (arr : SubackData) (items : Bytes)
    → Holds arr items
    → All IsGranted items
    → length (suback_packet packet_id items) ≤ given
    → given ≤ cap
    → suback_message_build packet_id (some arr) (some cap) (some given)
      ≡ ok (suback_packet packet_id items)
unfolding suback_message_build
suback_message_build_lem packet_id given cap arr items h good room_ok cap_ok =
    rw (h.buffer, h.counted)
      (ground (
        arith,
        remain_length_encode_lem 4 (2 + length items) (omega arith)
            (length-encoding 3 (2 + length items)).1,
        length-suback_packet packet_id items,
        emit_lem cap header,
        suback_items_lem items (cap - length header) good,
        length-append (length_field (length (net16 packet_id ++ items))) (net16 packet_id),
        append_assoc (length_field (length (net16 packet_id ++ items))) (net16 packet_id) items,
      ))
  where
    header : Bytes
    header = 0x90 ∷ (length_field (length (net16 packet_id ++ items)) ++ net16 packet_id)

-- The loop appends what is left of the packet to an array with room for it.
pub suback_loop_lem :
    (granted : ℕ → Bool) (i n : ℕ) (todo rest : Bytes) (arr : SubackData) (items : Bytes)
    → Holds arr items
    → All IsGranted todo
    → i + length todo ≡ n
    → arr.size + length todo ≤ arr.capacity
    → (arr' : SubackData) × (suback_loop granted i n (todo ++ rest) arr ≡ ok arr')
      × Holds arr' (items ++ todo)
unfolding suback_loop
suback_loop_lem granted i n [] [] arr items h good len room = (arr, ground arith, rw append-nil h)
suback_loop_lem granted i n [] (r ∷ rest) arr items h good len room =
    (arr, ground arith, rw append-nil h)
suback_loop_lem granted i n (q ∷ todo) rest arr items h (hq, good) len room =
    let (stored, h') = suback_data_append-Holds (granted i) arr items q h (inl (omega arith)) in
    let (arr', done, h'') =
      suback_loop_lem granted (i + 1) n todo rest (appended arr items q) (items ++ (q ∷ [])) h' good
        (omega arith) (ground arith) in
    (arr', rw (lt→ltb i n (omega arith), hq, stored) done, rw append_assoc at h'')

suback_message_parse_lem :
    (granted : ℕ → Bool) (packet_id : ℕ) (items : Bytes)
    → length items < 65536
    → All IsGranted items
    → (arr : SubackData) × (suback_message_parse true granted
          (some (suback_packet packet_id items))
          (length (suback_packet packet_id items))
          true
        ≡ ok (packet_id, arr))
      × Holds arr items
unfolding suback_message_parse get16
suback_message_parse_lem granted packet_id items small good =
    let (arr, made, empty, cap) = suback_data_init-Holds (length items) small in
    let (arr', done, h) =
      suback_loop_lem granted 0 (length items) items [] arr [] empty good (omega arith)
        (ground arith) in
    (
      arr',
      ground (
        arith,
        parse_header-packet 0x90 mqtt_suback_message_error (net16 packet_id ++ items) (omega arith),
        net16_value packet_id,
        made,
        simp (append-nil items) at done,
      ),
      h,
    )

-- With an array that holds values which are all granted or the refusal, and a buffer as large as
-- `*message_len` says that holds the packet, `suback_message_build` writes the packet. From it
-- `suback_message_parse` reads back the identifier and an array that holds the values, if the
-- allocation of the array succeeds, whatever `realloc` would do.
pub suback-parse-build :
    (granted : ℕ → Bool) (packet_id given cap : ℕ) (arr : SubackData) (items : Bytes)
    → Holds arr items
    → All IsGranted items
    → length (suback_packet packet_id items) ≤ given
    → given ≤ cap
    → (message : Bytes) × (arr' : SubackData) × (suback_message_build packet_id
          (some arr)
          (some cap)
          (some given)
        ≡ ok message)
      × (suback_message_parse true granted (some message) (length message) true
          ≡ ok (packet_id, arr'))
      × Holds arr' items
suback-parse-build granted packet_id given cap arr items h good room_ok cap_ok =
    let (arr', parsed, h') = suback_message_parse_lem granted packet_id items (omega arith) good in
    (
      suback_packet packet_id items,
      arr',
      suback_message_build_lem packet_id given cap arr items h good room_ok cap_ok,
      parsed,
      h',
    )
