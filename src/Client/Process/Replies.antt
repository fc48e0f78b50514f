-- ===== src/Client/Process/Replies.antt =====
-- src/client/client_message_process.c: theorems on what the handlers answer and what they leave of
-- the state.
use simple_mqtt.Base.{
  ℕ, ◌≡◌, ◌≢◌, ◌∙◌, subst, arith, ◌⊎◌, Bool, true, some, List, [], Bytes, IsU16, ok, err, fault,
}
use simple_mqtt.Message.Ack.{pubrec_message_build, pubrec_message_parse}
use simple_mqtt.Message.Ack.RoundTrip.{pubrec, build, parse, parse-build}
use simple_mqtt.Message.Publish.{PublishFields, publish_message_parse}
use simple_mqtt.Client.Keep.{MessageSend, message_send_remove}
use simple_mqtt.Client.Process.{
  World, on_return, Send, call_back, publish_msg_process, pubrec_msg_process,
}
use simple_mqtt.Client.Process.Senders.{
  ack_packet, sent_world, answered, call_back-attempts, call_back-send_list, puback_msg_sent_lem,
  pubrec_msg_sent_lem, pubrel_msg_sent_lem, publish_one, publish_two, remove_acknowledged_empty,
  remove_acknowledged_lem,
}

-- When a PUBLISH with QoS 1 parses, `send` takes its PUBACK, and the send list is empty, the
-- handler dereferences the NULL list.
pub publish_msg_process_faults :
    (send : Send) (pub_cb : Bool) (world : World) (message : Bytes) (message_len : ℕ)
    (fields : PublishFields) (sent : ℕ)
    → publish_message_parse (some message) message_len true ≡ ok fields
    → fields.qos ≡ 1
    → send world.attempts (ack_packet 0x40 fields.packet_id) ≡ some sent
    → world.send_list ≡ []
    → publish_msg_process send pub_cb world message message_len ≡ fault
publish_msg_process_faults send pub_cb world message message_len fields sent parsed one h empty =
    let world' = call_back pub_cb world fields in
    publish_one send pub_cb world message message_len fields parsed one
    ∙ puback_msg_sent_lem send world' fields.packet_id sent
        (rw (call_back-attempts pub_cb world fields) h)
    ∙ remove_acknowledged_empty (sent_world world' sent (ack_packet 0x40 fields.packet_id))
        fields.packet_id (call_back-send_list pub_cb world fields ∙ empty)

-- When a PUBLISH with QoS 2 parses, the handler calls the callback if there is one and then hands
-- a PUBREC with the packet identifier to `send`. It returns MQTT_SUCCESS where `send` takes
-- bytes, and MQTT_MESSAGE_SEND_ERROR where it returns -1; the callback has been called either
-- way.
publish_msg_process_two :
    (send : Send) (pub_cb : Bool) (world : World) (message : Bytes) (message_len : ℕ)
    (fields : PublishFields)
    → publish_message_parse (some message) message_len true ≡ ok fields
    → fields.qos ≡ 2
    → publish_msg_process send pub_cb world message message_len
      ≡ answered
          (call_back pub_cb world fields)
          (ack_packet 0x50 fields.packet_id)
          (send world.attempts (ack_packet 0x50 fields.packet_id))
publish_msg_process_two send pub_cb world message message_len fields parsed two =
    subst
      (λ n.
        publish_msg_process send pub_cb world message message_len
        ≡ answered (call_back pub_cb world fields) (ack_packet 0x50 fields.packet_id)
            (send n (ack_packet 0x50 fields.packet_id)))
      (call_back-attempts pub_cb world fields)
      (publish_two send pub_cb world message message_len fields parsed two
        ∙ pubrec_msg_sent_lem send (call_back pub_cb world fields) fields.packet_id)

-- When a PUBLISH with QoS 1 parses, `send` takes its PUBACK, and some message waits in the send
-- list, the handler calls the callback if there is one, sends the PUBACK with the packet
-- identifier and returns MQTT_SUCCESS. The send list is then the one that `message_send_remove`
-- leaves for the server's packet identifier.
pub publish_msg_process_one :
    (send : Send) (pub_cb : Bool) (world : World) (message : Bytes) (message_len : ℕ)
    (fields : PublishFields) (sent : ℕ)
    → publish_message_parse (some message) message_len true ≡ ok fields
    → fields.qos ≡ 1
    → send world.attempts (ack_packet 0x40 fields.packet_id) ≡ some sent
    → world.send_list ≢ []
    → (list' : List MessageSend) × (publish_msg_process send pub_cb world message message_len
        ≡ ok (
          record (sent_world
              (call_back pub_cb world fields)
              sent
              (ack_packet 0x40 fields.packet_id)) { send_list = list' },
          0,
        ))
      × ((message_send_remove true world.send_list fields.packet_id ≡ ok list')
          ⊎ ((message_send_remove true world.send_list fields.packet_id ≡ err 1)
              × (list' ≡ world.send_list)))
publish_msg_process_one send pub_cb world message message_len fields sent parsed one h kept =
    let world' = call_back pub_cb world fields in
    let packet = ack_packet 0x40 fields.packet_id in
    let same = call_back-send_list pub_cb world fields in
    let (list', removed, cases) =
      remove_acknowledged_lem (sent_world world' sent packet) fields.packet_id (rw same kept) in
    (
      list',
      publish_one send pub_cb world message message_len fields parsed one
          ∙ puback_msg_sent_lem send world' fields.packet_id sent
              (rw (call_back-attempts pub_cb world fields) h)
          ∙ removed,
      subst
          (λ l.
            (message_send_remove true l fields.packet_id ≡ ok list')
            ⊎ ((message_send_remove true l fields.packet_id ≡ err 1) × (list' ≡ l)))
          same cases,
    )

pubrec_built :
    (packet_id : ℕ)
    → IsU16 packet_id
    → (pubrec_message_build packet_id (some 4) (some 4) ≡ ok (ack_packet 0x50 packet_id))
      × (pubrec_message_parse (some (ack_packet 0x50 packet_id)) 4 true ≡ ok packet_id)
unfolding build parse
pubrec_built packet_id h = parse-build pubrec packet_id 4 4 h (omega arith) (omega arith)

-- For every sixteen-bit packet identifier, the PUBREC that `pubrec_message_build` writes is
-- answered by handing a PUBREL with the same identifier to `send`. The handler returns
-- MQTT_SUCCESS where `send` takes bytes, and MQTT_MESSAGE_SEND_ERROR where it returns -1.
pubrec_msg_process_lem :
    (send : Send) (world : World) (packet_id : ℕ)
    → IsU16 packet_id
    → (message : Bytes) × (pubrec_message_build packet_id (some 4) (some 4) ≡ ok message)
      × (pubrec_msg_process send world message 4
          ≡ answered world
              (ack_packet 0x60 packet_id)
              (send world.attempts (ack_packet 0x60 packet_id)))
unfolding pubrec_msg_process on_return
pubrec_msg_process_lem send world packet_id h =
    let (built, parsed) = pubrec_built packet_id h in
    (ack_packet 0x50 packet_id, built, rw parsed (pubrel_msg_sent_lem send world packet_id))
