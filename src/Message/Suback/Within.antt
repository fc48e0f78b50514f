-- ===== src/Message/Suback/Within.antt =====
-- src/message/msg_suback.c: the theorem on a packet with other bytes behind it.
use simple_mqtt.Base.{
  err, ◌⊎◌, ℕ, ◌+◌, ◌<◌, ◌≡◌, inl, inr, arith, Bool, true, false, some, [], ◌∷◌, ◌++◌, Bytes, All,
  net16, get16, length, ok, net16_value,
}
use simple_mqtt.Message.Codes.{mqtt_suback_message_error}
use simple_mqtt.Message.Remain.Bounds.{length_field}
use simple_mqtt.Message.Suback.{SubackData, suback_data_init, suback_message_parse}
use simple_mqtt.Message.Suback.Array.{suback_data_init-Holds}
use simple_mqtt.Message.Header.Whole.{parse_header_within}
use simple_mqtt.Message.Suback.RoundTrip.{IsGranted, suback_loop_lem}

-- The packet is read, or there is no memory for the array.
pub suback_message_parse_within :
    (first_granted : Bool) (granted : ℕ → Bool) (packet_id : ℕ) (items rest : Bytes)
    → length items < 65536
    → All IsGranted items
    → let body = net16 packet_id ++ items in
      let parsed =
        suback_message_parse first_granted granted
          (some (0x90 ∷ (length_field (length body) ++ (body ++ rest))))
          (1 + length (length_field (length body)) + length body)
          true in
      ((arr : SubackData) × (parsed ≡ ok (packet_id, arr))) ⊎ (parsed ≡ err 3)
unfolding suback_message_parse get16 suback_data_init
suback_message_parse_within true granted packet_id items rest small good =
    let (arr, made, empty, cap) = suback_data_init-Holds (length items) small in
    let (arr', done, h) =
      suback_loop_lem granted 0 (length items) items rest arr [] empty good (omega arith)
        (ground arith) in
    inl (
      arr',
      ground (
        arith,
        parse_header_within 0x90 mqtt_suback_message_error (net16 packet_id ++ items) rest
            (omega arith),
        net16_value packet_id,
        made,
        done,
      ),
    )
suback_message_parse_within false granted packet_id items rest small good = inr (
    ground (
      arith,
      parse_header_within 0x90 mqtt_suback_message_error (net16 packet_id ++ items) rest
          (omega arith),
      net16_value packet_id,
    ))
