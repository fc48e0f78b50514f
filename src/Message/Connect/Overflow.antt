-- ===== src/Message/Connect/Overflow.antt =====
-- src/message/msg_connect.c: the theorem on a buffer that is too small for the packet.
use simple_mqtt.Base.{
  ℕ, ◌-◌, ◌≤◌, ◌<◌, ◌≡◌, arith, true, [], ◌∷◌, length, emit_lem, emit_short, fault, add32, le→ltb,
}
use simple_mqtt.Message.Header.Whole.{packet}
use simple_mqtt.Message.Remain.Bounds.{length-encoding_low, remain_length_encode_lem}
use simple_mqtt.Message.Connect.{
  ConnectSettings, connect_message_build, connect_packet_write, connect_flags,
}
use simple_mqtt.Message.Connect.Size.{
  Texts, Fit, as_payload, payload_bytes, payload_fits, connect_body, connect_payload_len_lem,
  connect_payload_build_lem,
}

-- The part behind the payload.
write_short :
    (t : Texts) (s : ConnectSettings) (cap : ℕ)
    → Fit t
    → 4 ≤ cap
    → cap < length (packet 0x10 (connect_body t s))
    → connect_packet_write (connect_flags (as_payload t) s) s.keep_alive (payload_bytes t) cap
      ≡ fault
write_short t s room fit four short =
    let small = payload_fits t fit in
    rw
      (
        emit_lem room (0x10 ∷ []) (omega arith),
        same,
        remain_length_encode_lem (room - 1) (length (connect_body t s)) (omega arith)
            (omega (arith, length-encoding_low 2 (length (connect_body t s)) (omega arith))),
      )
      (emit_short room (packet 0x10 (connect_body t s)) short)
  where
    same : add32 (length (payload_bytes t)) 10 ≡ length (connect_body t s)
    same = omega (arith, payload_fits t fit)

-- For a client id of at most 23 bytes, other texts of sixteen-bit length and any settings, if memory is granted,
-- a buffer of four bytes or more that is smaller than the packet is written past its end.
pub connect_message_build_overflow :
    (t : Texts) (s : ConnectSettings) (cap : ℕ)
    → Fit t
    → 4 ≤ cap
    → cap < length (packet 0x10 (connect_body t s))
    → connect_message_build true (as_payload t) s cap ≡ fault
unfolding connect_message_build
connect_message_build_overflow t s room fit four short =
    rw
      (
        le→ltb 23 (length t.client_id) fit.client_id_fits,
        connect_payload_len_lem t fit,
        connect_payload_build_lem t s (length (payload_bytes t)) (omega arith),
      )
      (write_short t s room fit four short)
