-- ===== src/Client/Receive/Published.antt =====
-- src/client/client_message_process.c: theorems on `publish_msg_process`, in a buffer with a PUBLISH packet in front.
use simple_mqtt.Base.{
  lt→ltb, ℕ, zero, suc, ◌+◌, ◌%◌, ◌<◌, ◌≡◌, refl, ap, ◌∙◌, subst, arith, Bool, true, false, some,
  ◌∷◌, ◌++◌, map-append, Bytes, IsU16, length, take_append, append_assoc, ok, as_flag,
}
use simple_mqtt.Message.Remain.Bounds.{length_field}
use simple_mqtt.Message.Publish.{PublishFields, type_with_flags, publish_message_parse}
use simple_mqtt.Message.Publish.Buffer.{type_with_flags-Flags, publish_message_parse_buffer}
use simple_mqtt.Message.Publish.RoundTrip.{
  publish_body, publish_body_parse_lem, length-publish_body, publish_size, id_bytes, id_back,
}
use simple_mqtt.Client.Process.{World, Send, call_back, publish_msg_process}
use simple_mqtt.Client.Process.Senders.{
  puback_msg_sent_cases, ack_packet, pubrec_msg_sent_lem, publish_zero, publish_one, publish_two,
}
use simple_mqtt.Client.Receive.Incoming.{Message, Sending, View, view, message_of, hear, answer}
use simple_mqtt.Client.Receive.Follows.{
  Agrees, returned-Agrees, answered-Agrees, after_puback-Agrees,
}

-- What is parsed from a PUBLISH packet with other bytes behind it.
abbrev parsed_fields : Sending → Message → Bytes → PublishFields
parsed_fields s (topic, payload) rest = record {
  dup = as_flag s.dup;
  qos = s.qos;
  retain = as_flag s.retain;
  topic = topic ++ (id_bytes s.qos s.packet_id ++ (payload ++ rest));
  topic_len = length topic;
  packet_id = id_back s.qos s.packet_id;
  payload = payload ++ rest;
  payload_len = length payload;
}

-- A message that PUBLISH can carry.
pub record Sound (s : Sending) (m : Message) : Type 0 where
  pub qos_ok : s.qos < 3
  pub id_ok : IsU16 s.packet_id
  pub size_ok : publish_size s.qos m.0 m.1 < 65536

parsed :
    (s : Sending) (topic payload rest : Bytes)
    → Sound s (topic, payload)
    → publish_message_parse
        (some (
          type_with_flags s.dup s.qos s.retain
          ∷ (length_field (length (publish_body s.qos topic s.packet_id payload))
              ++ (publish_body s.qos topic s.packet_id payload ++ rest))))
        (1
          + length (length_field (length (publish_body s.qos topic s.packet_id payload)))
          + length (publish_body s.qos topic s.packet_id payload))
        true
      ≡ ok (parsed_fields s (topic, payload) rest)
parsed s topic payload rest sound =
    let flags = type_with_flags-Flags s.dup s.qos s.retain sound.qos_ok in
    let size = length-publish_body s.qos topic s.packet_id payload in
    publish_message_parse_buffer _ s.qos (publish_body s.qos topic s.packet_id payload) rest
      flags.type flags.qos_back (omega (arith, size, sound.size_ok))
    ∙ rw
        (
          flags.dup_back,
          flags.retain_back,
          size,
          append_assoc topic,
          append_assoc (id_bytes s.qos s.packet_id),
        )
        (publish_body_parse_lem (as_flag s.dup) s.qos (as_flag s.retain) topic s.packet_id
          (payload ++ rest) (length payload) sound.id_ok sound.size_ok)

call_back-hear :
    (pub_cb : Bool) (world : World) (s : Sending) (m : Message) (rest : Bytes)
    → Sound s m
    → view (call_back pub_cb world (parsed_fields s m rest)) ≡ hear pub_cb m (view world)
unfolding call_back
call_back-hear false world s m rest sound = refl
call_back-hear true world s (topic, payload) rest sound =
    let topic_len : length topic % 65536 ≡ length topic = omega (arith, sound.size_ok) in
    let payload_len : length payload % 65536 ≡ length payload = omega (arith, sound.size_ok) in
    rw
      (
        map-append message_of world.delivered,
        topic_len,
        payload_len,
        take_append topic,
        take_append payload,
      )
      refl

answer-Agrees :
    (send : Send) (pub_cb : Bool) (world : World) (message : Bytes) (message_len qos : ℕ)
    (fields : PublishFields)
    → qos < 3
    → fields.qos ≡ qos
    → publish_message_parse (some message) message_len true ≡ ok fields
    → Agrees
        (publish_msg_process send pub_cb world message message_len)
        (answer send qos fields.packet_id (view (call_back pub_cb world fields)))
answer-Agrees send pub_cb world message message_len zero fields small same e =
    returned-Agrees _ (call_back pub_cb world fields) 0 (omega arith)
      (publish_zero send pub_cb world message message_len fields e same)
answer-Agrees send pub_cb world message message_len (suc zero) fields small same e =
    rw
      (
        publish_one send pub_cb world message message_len fields e same,
        puback_msg_sent_cases send (call_back pub_cb world fields) fields.packet_id,
      )
      (after_puback-Agrees (call_back pub_cb world fields) fields.packet_id _)
answer-Agrees send pub_cb world message message_len (suc (suc zero)) fields small same e =
    rw
      (
        publish_two send pub_cb world message message_len fields e same,
        pubrec_msg_sent_lem send (call_back pub_cb world fields) fields.packet_id,
      )
      (answered-Agrees (call_back pub_cb world fields) (ack_packet 0x50 fields.packet_id) _)
answer-Agrees send pub_cb world message message_len (suc (suc (suc qos))) fields small same e =
    absurd (omega arith)

-- For QoS 0 the identifier does not matter.
answer-id_back :
    (send : Send) (qos packet_id : ℕ) (v : View)
    → answer send qos (id_back qos packet_id) v ≡ answer send qos packet_id v
answer-id_back send zero packet_id v = refl
answer-id_back send (suc zero) packet_id v = refl
answer-id_back send (suc (suc qos)) packet_id v = rw (lt→ltb 0 (suc (suc qos)) (omega arith)) refl

pub publish-Agrees :
    (send : Send) (pub_cb : Bool) (world : World) (s : Sending) (m : Message) (rest : Bytes)
    → Sound s m
    → Agrees
        (publish_msg_process send pub_cb world
          (type_with_flags s.dup s.qos s.retain
            ∷ (length_field (length (publish_body s.qos m.0 s.packet_id m.1))
                ++ (publish_body s.qos m.0 s.packet_id m.1 ++ rest)))
          (1
            + length (length_field (length (publish_body s.qos m.0 s.packet_id m.1)))
            + length (publish_body s.qos m.0 s.packet_id m.1)))
        (answer send s.qos s.packet_id (hear pub_cb m (view world)))
publish-Agrees send pub_cb world s m rest sound =
    subst (Agrees _)
      (answer-id_back send s.qos s.packet_id _
        ∙ ap (answer send s.qos s.packet_id) (call_back-hear pub_cb world s m rest sound))
      (answer-Agrees send pub_cb world _ _ s.qos (parsed_fields s m rest) sound.qos_ok refl
        (parsed s m.0 m.1 rest sound))
