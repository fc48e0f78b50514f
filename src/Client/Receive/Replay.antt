-- ===== src/Client/Receive/Replay.antt =====
-- src/client/client_deamon.c: the theorem that `process_socket_event` does with a stream of packets what the
-- description of the client says.
use simple_mqtt.Base.{
  net16, true, le→leb, ℕ, zero, suc, ◌+◌, ◌-◌, ◌/◌, ◌≤◌, ◌<◌, ◌≡◌, refl, ◌∙◌, arith, ◌⊎◌, inl, inr,
  List, [], ◌∷◌, ◌++◌, map, Bytes, IsByte, IsU16, All, none, length, Outcome, ok, fault, ◌>>=◌,
}
use simple_mqtt.Message.Codes.{mqtt_message_recv_error}
use simple_mqtt.Message.Header.Whole.{length-packet}
use simple_mqtt.Message.Remain.Bounds.{length_field, encoding}
use simple_mqtt.Message.Ack.RoundTrip.{puback, pubrec, pubrel, pubcomp, unsuback}
use simple_mqtt.Message.Publish.Buffer.{type_with_flags_type}
use simple_mqtt.Message.Publish.RoundTrip.{length-publish_body}
use simple_mqtt.Message.Suback.RoundTrip.{IsGranted}
use simple_mqtt.Client.Process.{World, Handled, pingresp_msg_process}
use simple_mqtt.Client.Receive.{
  listening, Outside, Round, tested, returned, receive_first, cleared, is_ignored, message_switch,
  after_handler, socket_round, process_socket_event,
}
use simple_mqtt.Client.Receive.Incoming.{
  Incoming, publish, acknowledgement, suback, pingresp, unexpected, first_of, body_of, bytes_of,
  View, view, serve, replay,
}
use simple_mqtt.Client.Receive.Arrivals.{Whole, split_round, single_round, Arrives}
use simple_mqtt.Client.Receive.Follows.{Agrees, handler-Agrees, suback-Agrees}
use simple_mqtt.Client.Receive.Published.{publish-Agrees}

-- A packet that the server may send, and that the buffer has room for.
abbrev pub Fits : Incoming → Type 0
Fits (publish s m) = (s.qos < 3) × IsU16 s.packet_id × (length (bytes_of (publish s m)) ≤ 1024)
Fits (acknowledgement k packet_id) = IsU16 packet_id
Fits (suback packet_id items) =
    IsU16 packet_id × All IsGranted items × (length (bytes_of (suback packet_id items)) ≤ 1024)
Fits pingresp = Unit
Fits (unexpected first body) =
    IsByte first
    × (is_ignored (first / 16) ≡ true)
    × (length (bytes_of (unexpected first body)) ≤ 1024)

-- A round hands the packet on and goes on behind it, or it is undefined, as the description says.
abbrev RoundAgrees : ℕ → Outcome Round → Outcome View → Type 0
RoundAgrees calls round described =
    ((world : World) × (ret : ℕ) × (ret ≤ 1024)
      × (round ≡ ok (tested world calls ret))
      × (described ≡ ok (view world)))
    ⊎ ((round ≡ fault) × (described ≡ fault))

after_handler-Agrees :
    (calls : ℕ) (handled : Handled) (described : Outcome View)
    → Agrees handled described
    → RoundAgrees calls (after_handler calls handled) described
unfolding after_handler
after_handler-Agrees calls handled described (inl (world, ret, small, e, d)) =
    inl (world, ret, small, rw e refl, d)
after_handler-Agrees calls handled described (inr (e, d)) = inr (rw e refl, d)

abbrev switch : Outside → World → ℕ → Incoming → Bytes → ℕ → Outcome Round
switch outside world calls p rest ret =
    message_switch outside world calls (first_of p / 16)
      (first_of p ∷ (length_field (length (body_of p)) ++ (body_of p ++ rest)))
      (1 + length (length_field (length (body_of p))) + length (body_of p)) ret

ignored_switch :
    (outside : Outside) (world : World) (calls message_type : ℕ) (buffer : Bytes)
    (message_len ret : ℕ)
    → is_ignored message_type ≡ true
    → message_switch outside world calls message_type buffer message_len ret
      ≡ ok (tested world calls ret)
unfolding message_switch is_ignored
ignored_switch outside world calls message_type buffer message_len ret ignored = ground arith

switch-Agrees :
    (outside : Outside) (world : World) (calls : ℕ) (p : Incoming) (rest : Bytes) (ret : ℕ)
    → ret ≤ 1024
    → Fits p
    → RoundAgrees calls
        (switch outside world calls p rest ret)
        (serve outside.send (listening outside) p (view world))
unfolding message_switch encoding pingresp_msg_process
switch-Agrees outside world calls (publish s m) rest ret few (qos_ok, id_ok, fits) =
    rw (type_with_flags_type s.dup s.qos s.retain qos_ok).1 (
      after_handler-Agrees calls _ _ (
        publish-Agrees outside.send (listening outside) world s m rest record {
          qos_ok = qos_ok;
          id_ok = id_ok;
          size_ok = omega (
            arith,
            fits,
            length-packet (first_of (publish s m)) (body_of (publish s m)),
            length-publish_body s.qos m.0 s.packet_id m.1,
          );
        }))
switch-Agrees outside world calls (acknowledgement puback packet_id) rest ret few fits =
    after_handler-Agrees calls _ _ (handler-Agrees puback outside.send world packet_id rest)
switch-Agrees outside world calls (acknowledgement pubrec packet_id) rest ret few fits =
    after_handler-Agrees calls _ _ (handler-Agrees pubrec outside.send world packet_id rest)
switch-Agrees outside world calls (acknowledgement pubrel packet_id) rest ret few fits =
    after_handler-Agrees calls _ _ (handler-Agrees pubrel outside.send world packet_id rest)
switch-Agrees outside world calls (acknowledgement pubcomp packet_id) rest ret few fits =
    after_handler-Agrees calls _ _ (handler-Agrees pubcomp outside.send world packet_id rest)
switch-Agrees outside world calls (acknowledgement unsuback packet_id) rest ret few fits =
    after_handler-Agrees calls _ _ (handler-Agrees unsuback outside.send world packet_id rest)
switch-Agrees outside world calls (suback packet_id items) rest ret few (id_ok, good, fits) =
    after_handler-Agrees calls _ _ (
      suback-Agrees (outside.first_granted calls) (outside.granted calls) world packet_id items rest
        (omega (arith, fits, length-packet 0x90 (net16 packet_id ++ items))) good)
switch-Agrees outside world calls pingresp rest ret few fits =
    inl (world, 0, omega arith, refl, refl)
switch-Agrees outside world calls (unexpected first body) rest ret few (byte, ignored, fits) =
    inl (world, ret, few, ignored_switch outside world calls (first / 16) _ _ ret ignored, refl)

first_of-IsByte : (p : Incoming) → Fits p → IsByte (first_of p)
first_of-IsByte (publish s m) (qos_ok, id_ok, fits) =
    (type_with_flags_type s.dup s.qos s.retain qos_ok).0
first_of-IsByte (acknowledgement puback packet_id) fits = omega arith
first_of-IsByte (acknowledgement pubrec packet_id) fits = omega arith
first_of-IsByte (acknowledgement pubrel packet_id) fits = omega arith
first_of-IsByte (acknowledgement pubcomp packet_id) fits = omega arith
first_of-IsByte (acknowledgement unsuback packet_id) fits = omega arith
first_of-IsByte (suback packet_id items) fits = omega arith
first_of-IsByte pingresp fits = omega arith
first_of-IsByte (unexpected first body) (byte, ignored, fits) = byte

length-bytes_of : (p : Incoming) → Fits p → length (bytes_of p) ≤ 1024
unfolding encoding
length-bytes_of (publish s m) (qos_ok, id_ok, fits) = fits
length-bytes_of (acknowledgement k packet_id) fits = omega arith
length-bytes_of (suback packet_id items) (id_ok, good, fits) = fits
length-bytes_of pingresp fits = omega arith
length-bytes_of (unexpected first body) (byte, ignored, fits) = fits

-- Either way a packet comes in, one round gets it whole.
arrived :
    (outside : Outside) (world : World) (calls : ℕ) (p : Incoming) (packets : List Bytes)
    → Fits p
    → Arrives outside calls (bytes_of p ∷ packets)
    → (calls' : ℕ) × Whole outside world calls calls' (first_of p) (body_of p)
      × Arrives outside calls' packets
arrived outside world calls p packets fits (inl (got, later)) = (
  calls + 1,
  single_round outside world calls (first_of p) (body_of p) (first_of-IsByte p fits)
      (omega (arith, length-bytes_of p fits, length-packet (first_of p) (body_of p))) got,
  later,
)
arrived outside world calls p packets fits (inr (got, more, rest, later)) = (
  calls + 2,
  split_round outside world calls (first_of p) (body_of p) (first_of-IsByte p fits) more
      (length-bytes_of p fits) got rest,
  later,
)

-- What there is to see where the loop returns.
abbrev pub shown : World × ℕ → Outcome (View × ℕ)
shown (world, ret) = ok (view world, ret)

-- The connection fails.
abbrev pub cut_off : View → Outcome (View × ℕ)
cut_off v = ok (v, mqtt_message_recv_error)

failed_round :
    (outside : Outside) (world : World) (calls : ℕ)
    → outside.recv calls 5 ≡ none
    → socket_round outside world calls ≡ ok (returned world mqtt_message_recv_error)
unfolding socket_round receive_first
failed_round outside world calls none_left = rw none_left

-- When the server sends packets that the buffer has room for, PUBLISH with any QoS, acknowledgements, SUBACK
-- and PINGRESP, and such as a server is not to send, in any order, each received at once or in two parts, until
-- recv(2) fails, then fuel for one round more than there are packets is enough for `process_socket_event`,
-- whatever send(2) does. The messages that it hands to the application, the packets that it sends and the send
-- list that it leaves are those of the description `replay`, with MQTT_MESSAGE_RECV_ERROR returned; and it
-- is undefined exactly where the description is, at a message with QoS 1 whose PUBACK is taken while no
-- message of the client waits for an acknowledgement.
pub process_socket_event-replay :
    (outside : Outside) (world : World) (calls fuel : ℕ) (packets : List Incoming)
    → All Fits packets
    → Arrives outside calls (map bytes_of packets)
    → length packets < fuel
    → (process_socket_event fuel outside world calls >>= shown)
      ≡ (replay outside.send (listening outside) packets (view world) >>= cut_off)
unfolding process_socket_event
process_socket_event-replay outside world calls zero packets fits arrives more =
    absurd (omega arith)
process_socket_event-replay outside world calls (suc fuel) [] fits arrives more =
    rw (failed_round outside world calls arrives) refl
process_socket_event-replay outside world calls (suc fuel) (p ∷ packets) (fit, fits) arrives more =
    let (calls', (ret, few, whole), later) =
      arrived outside world calls p (map bytes_of packets) fit arrives in
    elim (switch-Agrees outside world calls' p (cleared (1024 - length (bytes_of p))) ret few fit) [
      | inl (world', ret', small, e, d) ↦
          rw (whole ∙ e, le→leb ret' 1024 small, d)
            (process_socket_event-replay outside world' calls' fuel packets fits later
              (omega arith))
      | inr (e, d) ↦ rw (whole ∙ e, d) refl
    ]
