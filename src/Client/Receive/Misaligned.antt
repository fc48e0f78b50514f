-- ===== src/Client/Receive/Misaligned.antt =====
-- src/client/client_deamon.c: the theorem on a packet that recv(2) returns in the same call as the packet before it.
use simple_mqtt.Base.{ℕ, suc, ◌+◌, ◌≡◌, refl, arith, none, some, [], ◌∷◌, Bytes, IsByte, deref, ok}
use simple_mqtt.Message.Codes.{mqtt_message_recv_error}
use simple_mqtt.Message.Field.RoundTrip.{message_fixed_header_decode-encode}
use simple_mqtt.Message.Remain.Bounds.{encoding}
use simple_mqtt.Message.Ping.{pingresp_message_parse}
use simple_mqtt.Client.Process.{World, pingresp_msg_process}
use simple_mqtt.Client.Receive.{
  tested, returned, Outside, cleared, socket_round, receive_first, message_switch, receive_rest,
  process_socket_event,
}
use simple_mqtt.Client.Receive.Framing.{socket_round_short}

-- The round of the PINGRESP.
pingresp_round :
    (outside : Outside) (world : World) (calls : ℕ) (extra : Bytes)
    → outside.recv calls 5 ≡ some (0xd0 ∷ 0 ∷ extra)
    → socket_round outside world calls ≡ ok (tested world (calls + 1) 0)
unfolding encoding message_switch pingresp_msg_process pingresp_message_parse deref
pingresp_round outside world calls extra got =
    socket_round_short outside world calls 0xd0 [] extra (omega arith) (omega arith) got

-- The round of one byte, behind which nothing comes.
last_round :
    (outside : Outside) (world : World) (calls last : ℕ)
    → IsByte last
    → outside.recv calls 5 ≡ some (last ∷ [])
    → outside.recv (calls + 1) 1 ≡ none
    → socket_round outside world calls ≡ ok (returned world mqtt_message_recv_error)
unfolding socket_round receive_first receive_rest cleared encoding
last_round outside world calls last byte got over =
    rw
      (
        got,
        message_fixed_header_decode-encode last 0 1 (cleared 1022) byte (omega arith) (omega arith),
        over,
      )
      refl

-- A server sends a PINGRESP and then any packet of four bytes. If all six bytes are there when recv(2) asks
-- for five, and recv(2) fails once there is nothing left, `process_socket_event` takes the last byte of the
-- second packet for the first of another one, and returns MQTT_MESSAGE_RECV_ERROR without a change of the
-- state: the second packet is not handled, and nothing is sent for it.
pub process_socket_event_misaligned :
    (outside : Outside) (world : World) (calls fuel a b c last : ℕ)
    → IsByte last
    → outside.recv calls 5 ≡ some (0xd0 ∷ 0 ∷ a ∷ b ∷ c ∷ [])
    → outside.recv (calls + 1) 5 ≡ some (last ∷ [])
    → outside.recv (calls + 2) 1 ≡ none
    → process_socket_event (suc (suc fuel)) outside world calls
      ≡ ok (world, mqtt_message_recv_error)
unfolding process_socket_event
process_socket_event_misaligned outside world calls fuel a b c last byte first second over =
    rw
      (
        pingresp_round outside world calls (a ∷ b ∷ c ∷ []) first,
        last_round outside world (calls + 1) last byte second (rw (two calls) over),
      )
      refl
  where
    two : (n : ℕ) → n + 1 + 1 ≡ n + 2
    two n = omega arith
