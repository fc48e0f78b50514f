-- ===== src/Client/Receive/Apart.antt =====
-- src/client/client_deamon.c: in the description of what the client does with packets, the messages that wait
-- keep identifiers that differ.
use simple_mqtt.Base.{
  ℕ, zero, suc, Bool, true, false, Option, none, some, List, [], ◌∷◌, Bytes, Bool-cases, ◌==◌, inl,
  inr, ok, ◌>>=◌, Yields, bind-Yields,
}
use simple_mqtt.Client.Keep.{MessageSend}
use simple_mqtt.Client.Keep.Laws.{Absent, Distinct}
use simple_mqtt.Client.Process.{Send}
use simple_mqtt.Client.Process.Senders.{ack_packet}
use simple_mqtt.Client.Receive.Incoming.{
  Message, Incoming, publish, acknowledgement, suback, pingresp, unexpected, View, hear, said,
  without, forgotten, answer, confirm, serve, replay,
}
use simple_mqtt.Message.Ack.RoundTrip.{puback, pubrec, pubrel, pubcomp, unsuback}

Absent-without :
    (j packet_id : ℕ) (list : List MessageSend) → Absent j list → Absent j (without packet_id list)
Absent-without j packet_id [] absent = tt
Absent-without j packet_id (m ∷ list) (ne, absent) = elim (Bool-cases (m.packet_id == packet_id)) [
  | inl same ↦ rw same absent
  | inr other ↦ rw other (ne, Absent-without j packet_id list absent)
]

without-Distinct :
    (packet_id : ℕ) (list : List MessageSend) → Distinct list → Distinct (without packet_id list)
without-Distinct packet_id [] distinct = tt
without-Distinct packet_id (m ∷ list) (absent, distinct) =
    elim (Bool-cases (m.packet_id == packet_id)) [
      | inl same ↦ rw same distinct
      | inr other ↦ rw other (
        Absent-without m.packet_id packet_id list absent,
        without-Distinct packet_id list distinct,
      )
    ]

abbrev pub Apart : View → Type 0
Apart v = Distinct v.send_list

forgotten-Apart :
    (packet_id : ℕ) (v : View) (list : List MessageSend)
    → Distinct list
    → Yields Apart (forgotten packet_id list >>= λ l. ok (record v { send_list = l }))
forgotten-Apart packet_id v [] h = tt
forgotten-Apart packet_id v (m ∷ list) h = without-Distinct packet_id (m ∷ list) h

said-Apart : (sent : Option ℕ) (message : Bytes) (v : View) → Apart v → Apart (said sent message v)
said-Apart none message v h = h
said-Apart (some n) message v h = h

hear-Apart : (pub_cb : Bool) (m : Message) (v : View) → Apart v → Apart (hear pub_cb m v)
hear-Apart false m v h = h
hear-Apart true m v h = h

confirm-Apart :
    (sent : Option ℕ) (packet_id : ℕ) (v : View) → Apart v → Yields Apart (confirm sent packet_id v)
confirm-Apart none packet_id v h = h
confirm-Apart (some n) packet_id v h =
    forgotten-Apart packet_id (said (some n) (ack_packet 0x40 packet_id) v) v.send_list h

answer-Apart :
    (send : Send) (qos packet_id : ℕ) (v : View)
    → Apart v
    → Yields Apart (answer send qos packet_id v)
answer-Apart send zero packet_id v h = h
answer-Apart send (suc zero) packet_id v h =
    confirm-Apart (send v.attempts (ack_packet 0x40 packet_id)) packet_id v h
answer-Apart send (suc (suc qos)) packet_id v h =
    said-Apart (send v.attempts (ack_packet 0x50 packet_id)) (ack_packet 0x50 packet_id) v h

serve-Apart :
    (send : Send) (pub_cb : Bool) (p : Incoming) (v : View)
    → Apart v
    → Yields Apart (serve send pub_cb p v)
serve-Apart send pub_cb (publish s m) v h =
    answer-Apart send s.qos s.packet_id (hear pub_cb m v) (hear-Apart pub_cb m v h)
serve-Apart send pub_cb (acknowledgement puback packet_id) v h = h
serve-Apart send pub_cb (acknowledgement pubrec packet_id) v h =
    said-Apart (send v.attempts (ack_packet 0x60 packet_id)) (ack_packet 0x60 packet_id) v h
serve-Apart send pub_cb (acknowledgement pubrel packet_id) v h = h
serve-Apart send pub_cb (acknowledgement pubcomp packet_id) v h = h
serve-Apart send pub_cb (acknowledgement unsuback packet_id) v h = h
serve-Apart send pub_cb (suback packet_id items) v h = h
serve-Apart send pub_cb pingresp v h = h
serve-Apart send pub_cb (unexpected first body) v h = h

pub replay-Apart :
    (send : Send) (pub_cb : Bool) (packets : List Incoming) (v : View)
    → Apart v
    → Yields Apart (replay send pub_cb packets v)
replay-Apart send pub_cb [] v h = h
replay-Apart send pub_cb (p ∷ packets) v h =
    bind-Yields Apart Apart (serve send pub_cb p v) (replay send pub_cb packets)
      (serve-Apart send pub_cb p v h) (λ v' h'. replay-Apart send pub_cb packets v' h')
