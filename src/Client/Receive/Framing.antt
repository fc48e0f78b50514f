-- ===== src/Client/Receive/Framing.antt =====
-- src/client/client_deamon.c: theorems on how `process_socket_event` finds the packets in what recv(2)
-- returns.
use simple_mqtt.Base.{
  ℕ, suc, ◌+◌, ◌-◌, ◌/◌, ◌^◌, ◌≤◌, ◌<◌, ◌≡◌, refl, ◌∙◌, arith, true, Option, some, [], ◌∷◌, ◌++◌,
  Bytes, IsByte, length, length-append, append_assoc, ok, fault, deref, le→leb, lt→ltb,
}
use simple_mqtt.Message.Field.{FixedHeader, message_fixed_header_decode}
use simple_mqtt.Message.Field.RoundTrip.{message_fixed_header_decode-encode}
use simple_mqtt.Message.Remain.Bounds.{length_field}
use simple_mqtt.Message.Remain.RoundTrip.{remain_length_decode_none}
use simple_mqtt.Client.Process.{World}
use simple_mqtt.Client.Receive.{
  Outside, cleared, message_switch, receive_rest, receive_first, socket_round, process_socket_event,
  is_ignored,
}

-- The header of the round's buffer, when `first` is a first byte and a length field with some bytes
-- behind it.
abbrev header : ℕ → ℕ → FixedHeader
header b len = record {
  message_type = b / 16;
  message_len = 1 + length (length_field len) + len;
  remain_len = len;
}

decoded :
    (b len : ℕ) (front zeros : Bytes)
    → IsByte b
    → len < 2 ^ 28
    → message_fixed_header_decode
        (some ((b ∷ (length_field len ++ front)) ++ zeros))
        (length (b ∷ (length_field len ++ front)))
        true
      ≡ ok (header b len)
decoded b len front zeros byte small = rw (append_assoc (length_field len) front zeros) (
    message_fixed_header_decode-encode b len (length (b ∷ (length_field len ++ front)))
      (front ++ zeros) byte small (omega (arith, length-append (length_field len) front)))

-- The part of a round behind the header, on a packet that goes on behind the bytes received.
long_round :
    (outside : Outside) (world : World) (calls b len : ℕ) (front : Bytes) (answer : Option Bytes)
    → IsByte b
    → len < 2 ^ 28
    → length front < len
    → outside.recv calls 5 ≡ some (b ∷ (length_field len ++ front))
    → outside.recv (calls + 1) (len - length front) ≡ answer
    → socket_round outside world calls
      ≡ receive_rest outside world
          (calls + 2)
          (b ∷ (length_field len ++ front))
          (header b len)
          answer
unfolding socket_round receive_first
long_round outside world calls b len front answer byte small more got rest =
    rw
      (
        got,
        decoded b len front (cleared (1024 - length first)) byte small,
        lt→ltb (length first) (1 + length (length_field len) + len) fits,
        left,
        rest,
        two,
      )
      refl
  where
    first : Bytes
    first = b ∷ (length_field len ++ front)

    fits : length first < 1 + length (length_field len) + len
    fits = omega (arith, length-append (length_field len) front)

    left : 1 + length (length_field len) + len - length first ≡ len - length front
    left = omega (arith, length-append (length_field len) front)

    two : calls + 1 + 1 ≡ calls + 2
    two = omega arith

left_over : (front back len : ℕ) → front + back ≡ len → len - front ≡ back
left_over front back len e = omega arith

-- A packet of which recv(2) returns the first five bytes, the length field among them, and then
-- the rest, and which has at most 1024 bytes, is handed to the switch whole, with its type and
-- its length, and with zeros behind it.
pub socket_round_whole :
    (outside : Outside) (world : World) (calls b len : ℕ) (front back : Bytes)
    → IsByte b
    → len < 2 ^ 28
    → 1 + length (length_field len) + length front ≡ 5
    → length front + length back ≡ len
    → 1 ≤ length back
    → 5 + length back ≤ 1024
    → outside.recv calls 5 ≡ some (b ∷ (length_field len ++ front))
    → outside.recv (calls + 1) (length back) ≡ some back
    → socket_round outside world calls
      ≡ message_switch outside world
          (calls + 2)
          (b / 16)
          ((b ∷ (length_field len ++ front)) ++ (back ++ cleared (1024 - (5 + length back))))
          (5 + length back)
          (length back)
unfolding receive_rest
socket_round_whole outside world calls b len front back byte small five all more fits got rest =
    long_round outside world calls b len front (some back) byte small (omega arith) got
      (rw (left_over (length front) (length back) len all) rest)
    ∙ rw (size, total, le→leb (5 + length back) 1024 fits) refl
  where
    size : length (b ∷ (length_field len ++ front)) ≡ 5
    size = omega (arith, length-append (length_field len) front)

    total : 1 + length (length_field len) + len ≡ 5 + length back
    total = omega arith

-- A packet of more than 1024 bytes, of which recv(2) returns the first five bytes and then all of
-- the rest, is written outside the buffer.
pub socket_round_overflow :
    (outside : Outside) (world : World) (calls b len : ℕ) (front back : Bytes)
    → IsByte b
    → len < 2 ^ 28
    → 1 + length (length_field len) + length front ≡ 5
    → length front + length back ≡ len
    → 1024 < 5 + length back
    → outside.recv calls 5 ≡ some (b ∷ (length_field len ++ front))
    → outside.recv (calls + 1) (length back) ≡ some back
    → socket_round outside world calls ≡ fault
unfolding receive_rest
socket_round_overflow outside world calls b len front back byte small five all big got rest =
    long_round outside world calls b len front (some back) byte small (omega arith) got
      (rw (left_over (length front) (length back) len all) rest)
    ∙ ground (arith, length-append (length_field len) front)

-- When recv(2) returns a packet with `extra` bytes behind it, as it can for a packet of less than
-- five bytes, the round hands all of them to the switch with the length of the packet, and makes
-- no other call of recv(2).
pub socket_round_short :
    (outside : Outside) (world : World) (calls b : ℕ) (body extra : Bytes)
    → IsByte b
    → length body < 2 ^ 28
    → outside.recv calls 5 ≡ some (b ∷ (length_field (length body) ++ (body ++ extra)))
    → socket_round outside world calls
      ≡ message_switch outside world
          (calls + 1)
          (b / 16)
          ((b ∷ (length_field (length body) ++ (body ++ extra)))
            ++ cleared (1024 - length (b ∷ (length_field (length body) ++ (body ++ extra)))))
          (1 + length (length_field (length body)) + length body)
          0
unfolding socket_round receive_first
socket_round_short outside world calls b body extra byte small got =
    let first = b ∷ (length_field (length body) ++ (body ++ extra)) in
    rw (got, decoded b (length body) (body ++ extra) (cleared (1024 - length first)) byte small)
      (ground (
        arith,
        length-append (length_field (length body)) (body ++ extra),
        length-append body extra,
      ))

-- On a connection that the server has closed, where recv(2) stores nothing, the loop asks for two
-- more bytes, and ends with MQTT_MESSAGE_TYPE_ERROR in that round.
process_socket_event_closed :
    (outside : Outside) (world : World) (fuel calls : ℕ)
    → outside.recv calls 5 ≡ some []
    → outside.recv (calls + 1) 2 ≡ some []
    → process_socket_event (suc fuel) outside world calls ≡ ok (world, 4)
unfolding process_socket_event socket_round receive_first receive_rest message_switch is_ignored
    cleared message_fixed_header_decode deref
process_socket_event_closed outside world fuel calls first second =
    rw (first, remain_length_decode_none, second) refl
