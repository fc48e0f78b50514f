-- ===== src/Examples/Packets.antt =====
-- PUBLISH, CONNACK, DISCONNECT and PINGRESP at concrete inputs.
use simple_mqtt.Base.{◌≡◌, arith, true, some, [], ◌∷◌, length, Endian, ok, err}
use simple_mqtt.Message.Remain.Bounds.{encoding}
use simple_mqtt.Message.Publish.{Published, publish_message_build, publish_message_parse}
use simple_mqtt.Message.Publish.RoundTrip.{publish_args, publish-parse-build}
use simple_mqtt.Message.Publish.Overflow.{publish_message_build_any}
use simple_mqtt.Message.Connack.{connack_message_parse}
use simple_mqtt.Message.Connack.Outcomes.{connack_message_parse_lem}

publish-parse-build_example :
    (out : Published) × (publish_message_build Endian.little
        (publish_args 7 1 0 (97 ∷ 98 ∷ []) 258 (9 ∷ []))
        (some 20)
        (some 12)
      ≡ ok out)
    × (publish_message_parse (some out.message) (length out.message) true
        ≡ ok (record {
          dup = 1;
          qos = 1;
          retain = 0;
          topic = 97 ∷ 98 ∷ 1 ∷ 2 ∷ 9 ∷ [];
          topic_len = 2;
          packet_id = 258;
          payload = 9 ∷ [];
          payload_len = 1;
        }))
unfolding encoding
publish-parse-build_example =
    publish-parse-build Endian.little 7 1 0 (97 ∷ 98 ∷ []) 258 (9 ∷ []) 12 20 (omega arith)
      (omega arith) (omega arith) (omega arith) (omega arith) (omega arith)

connack_message_parse_lem_example :
    connack_message_parse 9 (some (0x20 ∷ 2 ∷ 0 ∷ 5 ∷ [])) 4 true
    ≡ ok (record { ret = 11; connack_code = some 5; sp = some 0 })
connack_message_parse_lem_example = connack_message_parse_lem 9 0 5 (omega arith) (omega arith)

-- A packet of eight bytes, with identifier 258 and payload 9, in a buffer of nine of which seven may be used.
publish_message_build_any_example :
    publish_message_build Endian.little
      (publish_args 0 1 0 (97 ∷ []) 258 (9 ∷ []))
      (some 9)
      (some 7)
    ≡ err 3
unfolding encoding
publish_message_build_any_example =
    publish_message_build_any Endian.little 0 1 0 (97 ∷ []) 258 (9 ∷ []) 7 9 (omega arith)
      (omega arith)
