-- ===== src/Client/Process/Senders.antt =====
-- src/client/client_message_process.c: what the senders put on the connection, and what they leave of the state.
use simple_mqtt.Base.{
  ℕ, ◌+◌, ◌/◌, ◌%◌, ◌≡◌, ◌≢◌, refl, ◌⊎◌, inl, inr, Bool, true, false, Option, none, some, List, [],
  ◌∷◌, ◌++◌, Bytes, emit, take, ok, err, fault,
}
use simple_mqtt.Message.Ack.{
  ack_message_build, puback_message_build, pubrec_message_build, pubrel_message_build,
}
use simple_mqtt.Message.Publish.{PublishFields, publish_message_parse}
use simple_mqtt.Client.Keep.{MessageSend, message_send_remove}
use simple_mqtt.Client.Keep.Laws.{find_remove_cases}
use simple_mqtt.Client.Process.{
  World, on_return, Handled, Send, after_send, network_send, if_sent, msg_sent, succeed,
  remove_acknowledged, puback_msg_sent, pubrec_msg_sent, pubrel_msg_sent, call_back,
  publish_msg_process,
}

-- A packet of four bytes with this first byte.
abbrev pub ack_packet : ℕ → ℕ → Bytes
ack_packet first packet_id = first ∷ 2 ∷ (packet_id / 256) ∷ (packet_id % 256) ∷ []

-- The state after a `send` that takes `sent` bytes of the packet.
abbrev pub sent_world : World → ℕ → Bytes → World
sent_world world sent message = record world {
  attempts = world.attempts + 1;
  wire = world.wire ++ (take sent message ∷ []);
}

-- The outcome of sending one packet: MQTT_MESSAGE_SEND_ERROR where `send` returns -1.
abbrev pub answered : World → Bytes → Option ℕ → Handled
answered world message none = ok (record world { attempts = world.attempts + 1 }, 26)
answered world message (some sent) = ok (sent_world world sent message, 0)

pub call_back-attempts :
    (pub_cb : Bool) (world : World) (fields : PublishFields)
    → (call_back pub_cb world fields).attempts ≡ world.attempts
unfolding call_back
call_back-attempts false world fields = refl
call_back-attempts true world fields = refl

pub call_back-send_list :
    (pub_cb : Bool) (world : World) (fields : PublishFields)
    → (call_back pub_cb world fields).send_list ≡ world.send_list
unfolding call_back
call_back-send_list false world fields = refl
call_back-send_list true world fields = refl

msg_sent_lem :
    (send : Send) (world : World) (message : Bytes) (next : World → Handled) (sent : ℕ)
    → send world.attempts message ≡ some sent
    → msg_sent send world (ok message) next ≡ next (sent_world world sent message)
unfolding msg_sent on_return network_send if_sent after_send
msg_sent_lem send world message next sent h = rw h

msg_sent-succeed :
    (send : Send) (world : World) (message : Bytes)
    → msg_sent send world (ok message) succeed
      ≡ answered world message (send world.attempts message)
unfolding msg_sent on_return network_send if_sent after_send
msg_sent-succeed send world message =
    elim (send world.attempts message)
      as (λ r. if_sent (after_send r world message) succeed ≡ answered world message r) [
        | none ↦ refl
        | some sent ↦ refl
      ]

pub puback_msg_sent_lem :
    (send : Send) (world : World) (packet_id sent : ℕ)
    → send world.attempts (ack_packet 0x40 packet_id) ≡ some sent
    → puback_msg_sent send world packet_id
      ≡ remove_acknowledged (sent_world world sent (ack_packet 0x40 packet_id)) packet_id
unfolding puback_msg_sent puback_message_build ack_message_build emit
puback_msg_sent_lem send world packet_id sent h =
    msg_sent_lem send world (ack_packet 0x40 packet_id) (λ w. remove_acknowledged w packet_id) sent
      h

-- The outcome of sending a PUBACK.
abbrev pub after_puback : World → ℕ → Option ℕ → Handled
after_puback world packet_id none = ok (record world { attempts = world.attempts + 1 }, 26)
after_puback world packet_id (some sent) =
    remove_acknowledged (sent_world world sent (ack_packet 0x40 packet_id)) packet_id

pub puback_msg_sent_cases :
    (send : Send) (world : World) (packet_id : ℕ)
    → puback_msg_sent send world packet_id
      ≡ after_puback world packet_id (send world.attempts (ack_packet 0x40 packet_id))
unfolding puback_msg_sent puback_message_build ack_message_build emit msg_sent on_return
    network_send if_sent after_send
puback_msg_sent_cases send world packet_id =
    let message = ack_packet 0x40 packet_id in
    elim (send world.attempts message)
      as (λ r.
        if_sent (after_send r world message) (λ w. remove_acknowledged w packet_id)
        ≡ after_puback world packet_id r) [ none ↦ refl | some sent ↦ refl ]

pub pubrec_msg_sent_lem :
    (send : Send) (world : World) (packet_id : ℕ)
    → pubrec_msg_sent send world packet_id
      ≡ answered world (ack_packet 0x50 packet_id) (send world.attempts (ack_packet 0x50 packet_id))
unfolding pubrec_msg_sent pubrec_message_build ack_message_build emit
pubrec_msg_sent_lem send world packet_id = msg_sent-succeed send world (ack_packet 0x50 packet_id)

pub pubrel_msg_sent_lem :
    (send : Send) (world : World) (packet_id : ℕ)
    → pubrel_msg_sent send world packet_id
      ≡ answered world (ack_packet 0x60 packet_id) (send world.attempts (ack_packet 0x60 packet_id))
unfolding pubrel_msg_sent pubrel_message_build ack_message_build emit
pubrel_msg_sent_lem send world packet_id = msg_sent-succeed send world (ack_packet 0x60 packet_id)

-- What the QoS of a packet that parses leads to.
pub publish_zero :
    (send : Send) (pub_cb : Bool) (world : World) (message : Bytes) (message_len : ℕ)
    (fields : PublishFields)
    → publish_message_parse (some message) message_len true ≡ ok fields
    → fields.qos ≡ 0
    → publish_msg_process send pub_cb world message message_len
      ≡ ok (call_back pub_cb world fields, 0)
unfolding publish_msg_process on_return
publish_zero send pub_cb world message message_len fields parsed none_asked =
    rw (parsed, none_asked)

pub publish_one :
    (send : Send) (pub_cb : Bool) (world : World) (message : Bytes) (message_len : ℕ)
    (fields : PublishFields)
    → publish_message_parse (some message) message_len true ≡ ok fields
    → fields.qos ≡ 1
    → publish_msg_process send pub_cb world message message_len
      ≡ puback_msg_sent send (call_back pub_cb world fields) fields.packet_id
unfolding publish_msg_process on_return
publish_one send pub_cb world message message_len fields parsed one = rw (parsed, one)

pub publish_two :
    (send : Send) (pub_cb : Bool) (world : World) (message : Bytes) (message_len : ℕ)
    (fields : PublishFields)
    → publish_message_parse (some message) message_len true ≡ ok fields
    → fields.qos ≡ 2
    → publish_msg_process send pub_cb world message message_len
      ≡ pubrec_msg_sent send (call_back pub_cb world fields) fields.packet_id
unfolding publish_msg_process on_return
publish_two send pub_cb world message message_len fields parsed two = rw (parsed, two)

pub remove_acknowledged_empty :
    (world : World) (packet_id : ℕ)
    → world.send_list ≡ []
    → remove_acknowledged world packet_id ≡ fault
unfolding remove_acknowledged on_return message_send_remove
remove_acknowledged_empty world packet_id none_kept = rw none_kept

pub remove_acknowledged_lem :
    (world : World) (packet_id : ℕ)
    → world.send_list ≢ []
    → (list' : List MessageSend) × (remove_acknowledged world packet_id
        ≡ ok (record world { send_list = list' }, 0))
      × ((message_send_remove true world.send_list packet_id ≡ ok list')
          ⊎ ((message_send_remove true world.send_list packet_id ≡ err 1)
              × (list' ≡ world.send_list)))
unfolding remove_acknowledged on_return
remove_acknowledged_lem world packet_id some_kept =
    elim (find_remove_cases world.send_list packet_id some_kept) [
      | inl (f, found, removed) ↦ (f.before ++ f.after, rw removed, inl removed)
      | inr (absent, missed, kept) ↦ (world.send_list, rw kept, inr (kept, refl))
    ]
