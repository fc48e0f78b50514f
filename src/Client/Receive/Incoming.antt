-- ===== src/Client/Receive/Incoming.antt =====
-- src/client/client_deamon.c and client_message_process.c: what a client is to do with the packets that
-- a server sends, said without the buffer and the parsers.
use simple_mqtt.Base.{
  ℕ, zero, suc, ◌+◌, Option, none, some, List, [], ◌∷◌, ◌++◌, map, Bool, true, false, Bytes, net16,
  take, ◌==◌, if◌then◌else◌, Outcome, ok, fault, ◌>>=◌,
}
use simple_mqtt.Message.Header.Whole.{packet}
use simple_mqtt.Message.Ack.RoundTrip.{Ack, puback, pubrec, pubrel, pubcomp, unsuback, first_byte}
use simple_mqtt.Message.Publish.{type_with_flags}
use simple_mqtt.Message.Publish.RoundTrip.{publish_body}
use simple_mqtt.Client.Keep.{MessageSend}
use simple_mqtt.Client.Process.{World, Delivery, Send}
use simple_mqtt.Client.Process.Senders.{ack_packet}

-- A message: its topic and its payload.
abbrev pub Message : Type 0
Message = Bytes × Bytes

-- What PUBLISH says of a message.
pub record Sending : Type 0 where
  pub dup : ℕ
  pub qos : ℕ
  pub retain : ℕ
  pub packet_id : ℕ

-- A packet from the server: a PUBLISH, an acknowledgement with a packet identifier, a SUBACK with its
-- return codes, a PINGRESP, or one of
-- the packets that a server is not to send, by its first byte and what stands behind the length field.
pub data Incoming : Type 0 where
  publish : Sending → Message → Incoming
  acknowledgement : Ack → ℕ → Incoming
  suback : ℕ → Bytes → Incoming
  pingresp : Incoming
  unexpected : ℕ → Bytes → Incoming

-- Its first byte, what stands behind the length field, and the whole.
abbrev pub first_of : Incoming → ℕ
first_of (publish s m) = type_with_flags s.dup s.qos s.retain
first_of (acknowledgement k packet_id) = first_byte k
first_of (suback packet_id items) = 0x90
first_of pingresp = 0xd0
first_of (unexpected first body) = first

abbrev pub body_of : Incoming → Bytes
body_of (publish s m) = publish_body s.qos m.0 s.packet_id m.1
body_of (acknowledgement k packet_id) = net16 packet_id
body_of (suback packet_id items) = net16 packet_id ++ items
body_of pingresp = []
body_of (unexpected first body) = body

abbrev pub bytes_of : Incoming → Bytes
bytes_of p = packet (first_of p) (body_of p)

-- What there is to see of the client: the messages that wait for an acknowledgement, how often it has
-- sent something, what of it was taken, and the messages that it has handed to the application.
pub record View : Type 0 where
  pub send_list : List MessageSend
  pub attempts : ℕ
  pub wire : List Bytes
  pub heard : List Message

-- What the application sees in a call of its callback.
abbrev pub message_of : Delivery → Message
message_of d = (take d.topic_len d.topic, take d.payload_len d.payload)

abbrev pub view : World → View
view world = record {
  send_list = world.send_list;
  attempts = world.attempts;
  wire = world.wire;
  heard = map message_of world.delivered;
}

-- A message is heard if a callback is registered.
abbrev pub hear : Bool → Message → View → View
hear false m v = v
hear true m v = record v { heard = v.heard ++ (m ∷ []) }

-- A packet is sent, with this answer of send(2).
abbrev pub said : Option ℕ → Bytes → View → View
said none message v = record v { attempts = v.attempts + 1 }
said (some sent) message v = record v {
  attempts = v.attempts + 1;
  wire = v.wire ++ (take sent message ∷ []);
}

abbrev pub say : Send → ℕ → ℕ → View → View
say send first packet_id v =
    let message = ack_packet first packet_id in said (send v.attempts message) message v

-- The list without the first message that has the identifier.
abbrev pub without : ℕ → List MessageSend → List MessageSend
without packet_id [] = []
without packet_id (m ∷ list) =
    let rest = without packet_id list in if m.packet_id == packet_id then list else m ∷ rest

-- It is an error of the client to look for a message in an empty list.
abbrev pub forgotten : ℕ → List MessageSend → Outcome (List MessageSend)
forgotten packet_id [] = fault
forgotten packet_id (m ∷ list) = ok (without packet_id (m ∷ list))

abbrev pub forget : ℕ → View → Outcome View
forget packet_id v = do list ← forgotten packet_id v.send_list; ok (record v { send_list = list })

-- A message is answered by its QoS: 0 by nothing, 1 by PUBACK, and 2 by PUBREC. With a PUBACK that is
-- taken, the client forgets a message of its own that has the same identifier.
abbrev pub confirm : Option ℕ → ℕ → View → Outcome View
confirm none packet_id v = ok (said none (ack_packet 0x40 packet_id) v)
confirm (some sent) packet_id v = forget packet_id (said (some sent) (ack_packet 0x40 packet_id) v)

abbrev pub answer : Send → ℕ → ℕ → View → Outcome View
answer send zero packet_id v = ok v
answer send (suc zero) packet_id v =
    confirm (send v.attempts (ack_packet 0x40 packet_id)) packet_id v
answer send (suc (suc n)) packet_id v = ok (say send 0x50 packet_id v)

-- PUBREC is answered by PUBREL, and the other acknowledgements by nothing; none of them, and no SUBACK,
-- takes a message off the list.
abbrev pub acknowledge : Send → Ack → ℕ → View → View
acknowledge send puback packet_id v = v
acknowledge send pubrec packet_id v = say send 0x60 packet_id v
acknowledge send pubrel packet_id v = v
acknowledge send pubcomp packet_id v = v
acknowledge send unsuback packet_id v = v

-- The flag says whether a callback is registered.
abbrev pub serve : Send → Bool → Incoming → View → Outcome View
serve send listening (publish s m) v = answer send s.qos s.packet_id (hear listening m v)
serve send listening (acknowledgement k packet_id) v = ok (acknowledge send k packet_id v)
serve send listening (suback packet_id items) v = ok v
serve send listening pingresp v = ok v
serve send listening (unexpected first body) v = ok v

abbrev pub replay : Send → Bool → List Incoming → View → Outcome View
replay send listening [] v = ok v
replay send listening (p ∷ packets) v = serve send listening p v >>= replay send listening packets
