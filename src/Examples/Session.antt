-- ===== src/Examples/Session.antt =====
-- The send list and two packets at concrete inputs.
use simple_mqtt.Base.{◌>>=◌, ℕ, ◌≡◌, refl, true, some, List, [], ◌∷◌, Bytes, deref, get16, ok}
use simple_mqtt.Message.Remain.{remain_length_decode, decode_loop}
use simple_mqtt.Message.Publish.{
  PublishFields, publish_message_parse, publish_body_parse, publish_packet_id,
}
use simple_mqtt.Message.Publish.{publish_qos}
use simple_mqtt.Message.Field.{locate_string_field}
use simple_mqtt.Client.Keep.Store.{
  KeepCall, adding, finding, removing, keep_calls, stored, store_calls,
}
use simple_mqtt.Client.Keep.Queues.{keep_calls-Store}

-- The PUBLISH of the topic "a" with identifier 258 and payload 9, with its QoS in the flags.
abbrev incoming : ℕ → Bytes
incoming first = first ∷ 6 ∷ 0 ∷ 1 ∷ 97 ∷ 1 ∷ 2 ∷ 9 ∷ []

abbrev read_back : ℕ → PublishFields
read_back qos = record {
  dup = 0;
  qos = qos;
  retain = 0;
  topic = 97 ∷ 1 ∷ 2 ∷ 9 ∷ [];
  topic_len = 1;
  packet_id = 258;
  payload = 9 ∷ [];
  payload_len = 1;
}

incoming_one : publish_message_parse (some (incoming 0x32)) 8 true ≡ ok (read_back 1)
unfolding publish_message_parse publish_qos deref remain_length_decode decode_loop
    publish_body_parse locate_string_field get16 publish_packet_id
incoming_one = refl

incoming_two : publish_message_parse (some (incoming 0x34)) 8 true ≡ ok (read_back 2)
unfolding publish_message_parse publish_qos deref remain_length_decode decode_loop
    publish_body_parse locate_string_field get16 publish_packet_id
incoming_two = refl

-- Two messages under one identifier and one under another, of which some are looked for and taken out.
abbrev calls : List KeepCall
calls =
    adding 3 (7 ∷ []) 1
    ∷ adding 258 (8 ∷ []) 1
    ∷ adding 3 (9 ∷ []) 1
    ∷ finding 3
    ∷ finding 9
    ∷ removing 3
    ∷ removing 9
    ∷ []

keep_calls-Store_example :
    (keep_calls calls [] >>= stored) ≡ store_calls calls (record { size = 0; waiting = λ j. [] })
keep_calls-Store_example = keep_calls-Store calls []
