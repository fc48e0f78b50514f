-- ===== src/Client/Receive.antt =====
-- src/client/client_deamon.c: `process_socket_event`, the loop that receives packets.
pub mod Framing
pub mod Arrivals
pub mod Incoming
pub mod Follows
pub mod Published
pub mod Replay
pub mod Apart
pub mod Misaligned
use simple_mqtt.Base.{
  ℕ, zero, suc, ◌+◌, ◌-◌, Bool, true, false, Option, none, some, [], ◌∷◌, ◌++◌, Bytes, length, take,
  drop, ltb, leb, ◌==◌, ◌||◌, if◌then◌else◌, sub32, Outcome, ok, err, fault, stuck, ◌>>=◌, ◌>>◌,
  defined_if,
}
use simple_mqtt.Message.Codes
use simple_mqtt.Message.Field.{FixedHeader, message_fixed_header_decode}
use simple_mqtt.Client.Callbacks.{Callbacks, is_registered}
use simple_mqtt.Client.Process.{
  World, Send, Handled, publish_msg_process, puback_msg_process, pubrec_msg_process,
  pubrel_msg_process, pubcomp_msg_process, suback_msg_process, unsuback_msg_process,
  pingresp_msg_process,
}

-- What the outside does: send(2); recv(2), for the number of the call and the bytes asked for, -1 or
-- what it stores; the callbacks that are registered; and the answers of the allocator in the round
-- that a call of recv(2) begins.
pub record Outside : Type 0 where
  pub send : Send
  pub recv : ℕ → ℕ → Option Bytes
  pub callbacks : Callbacks
  pub first_granted : ℕ → Bool
  pub granted : ℕ → ℕ → Bool

-- `pub_cb != NULL`
abbrev pub listening : Outside → Bool
listening outside = is_registered outside.callbacks.publish_cb

-- BUFFER_SIZE and MESSAGE_HEADER_LENGTH
abbrev pub buffer_size : ℕ
buffer_size = 1024

abbrev pub message_header_length : ℕ
message_header_length = 5

-- `memset(buffer, 0, size)`
unfoldable pub cleared : ℕ → Bytes
cleared zero = []
cleared (suc size) = 0 ∷ cleared size

-- At the test of the loop: the state, the calls of recv(2) so far, and `ret`; or the function has
-- returned.
pub data Round : Type 0 where
  tested : World → ℕ → ℕ → Round
  returned : World → ℕ → Round

unfoldable pub after_handler : ℕ → Handled → Outcome Round
after_handler calls (ok (world, ret)) = ok (tested world calls ret)
after_handler calls (err code) = err code
after_handler calls fault = fault
after_handler calls stuck = stuck

-- The types whose packets are only logged.
unfoldable pub is_ignored : ℕ → Bool
is_ignored message_type =
    message_type == Codes.message_type_connect
    || message_type == Codes.message_type_connack
    || message_type == Codes.message_type_subscribe
    || message_type == Codes.message_type_unsubscribe
    || message_type == Codes.message_type_pingreq
    || message_type == Codes.message_type_disconnect

-- The switch. `calls` is the number of calls of recv(2) so far.
unfoldable pub message_switch : Outside → World → ℕ → ℕ → Bytes → ℕ → ℕ → Outcome Round
unfolding after_handler is_ignored
message_switch outside world calls message_type buffer message_len ret =
    if message_type == Codes.message_type_publish
    then after_handler calls
        (publish_msg_process outside.send (listening outside) world buffer message_len)
    else if message_type == Codes.message_type_puback
    then after_handler calls (puback_msg_process world buffer message_len)
    else if message_type == Codes.message_type_pubrec
    then after_handler calls (pubrec_msg_process outside.send world buffer message_len)
    else if message_type == Codes.message_type_pubrel
    then after_handler calls (pubrel_msg_process world buffer message_len)
    else if message_type == Codes.message_type_pubcomp
    then after_handler calls (pubcomp_msg_process world buffer message_len)
    else if message_type == Codes.message_type_suback
    then after_handler calls (
        suback_msg_process (outside.first_granted calls) (outside.granted calls) world buffer
          message_len)
    else if message_type == Codes.message_type_unsuback
    then after_handler calls (unsuback_msg_process world buffer message_len)
    else if message_type == Codes.message_type_pingresp
    then after_handler calls (pingresp_msg_process world buffer message_len)
    else if is_ignored message_type
    then ok (tested world calls ret)
    else ok (returned world Codes.mqtt_message_type_error)

-- The rest of the packet goes behind the first `recv_len` bytes of the buffer, and the whole to the
-- switch. The access is undefined where recv(2) stores bytes outside the buffer.
pub receive_rest : Outside → World → ℕ → Bytes → FixedHeader → Option Bytes → Outcome Round
unfolding message_switch
receive_rest outside world calls first header none =
    ok (returned world Codes.mqtt_message_recv_error)
receive_rest outside world calls first header (some rest) = do
  defined_if (leb (length first + length rest) buffer_size)
  message_switch outside world calls header.message_type
      (first ++ (rest ++ cleared (buffer_size - (length first + length rest)))) header.message_len
      (length rest)

-- A round from the first bytes on. `message_fixed_header_decode` returns no error, as a type of
-- four bits is never above MQTT_MESSAGE_TYPE_MAX.
pub receive_first : Outside → World → ℕ → Option Bytes → Outcome Round
unfolding receive_rest cleared
receive_first outside world calls none = ok (returned world Codes.mqtt_message_recv_error)
receive_first outside world calls (some first) = do
  let buffer = first ++ cleared (buffer_size - length first)
  header ← message_fixed_header_decode (some buffer) (length first) true
  if ltb (length first) header.message_len
      then receive_rest outside world (calls + 1) first header
          (outside.recv calls (header.message_len - length first))
      else message_switch outside world calls header.message_type buffer header.message_len 0

-- One round of the do-while loop, after `calls` calls of recv(2).
unfoldable pub socket_round : Outside → World → ℕ → Outcome Round
unfolding receive_first
socket_round outside world calls =
    receive_first outside world (calls + 1) (outside.recv calls message_header_length)

-- The loop. With no fuel left it is still running.
unfoldable pub process_socket_event : ℕ → Outside → World → ℕ → Outcome (World × ℕ)
process_socket_event zero outside world calls = stuck
process_socket_event (suc fuel) outside world calls = socket_round outside world calls >>= λ round.
    elim round [
      | tested world' calls' ret ↦
          let rest = process_socket_event fuel outside world' calls' in
          if leb ret buffer_size then rest else ok (world', Codes.mqtt_success)
      | returned world' code ↦ ok (world', code)
    ]
