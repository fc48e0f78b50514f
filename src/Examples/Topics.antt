-- ===== src/Examples/Topics.antt =====
-- SUBSCRIBE and UNSUBSCRIBE at concrete inputs.
use simple_mqtt.Base.{
  ◌≡◌, ◌≢◌, refl, arith, true, some, List, [], ◌∷◌, map, length, Bytes, ok, fault, stuck,
}
use simple_mqtt.Message.Filters.{TopicFilter}
use simple_mqtt.Message.Filters.Wire.{Topic, as_filter, as_topic}
use simple_mqtt.Message.Remain.Bounds.{encoding}
use simple_mqtt.Message.Subscribe.{subscribe_message_build, subscribe_message_parse}
use simple_mqtt.Message.Subscribe.RoundTrip.{subscribe-parse-build}
use simple_mqtt.Message.Subscribe.Ends.{
  subscribe_message_parse-ne-stuck, subscribe_message_parse_bad_first,
}
use simple_mqtt.Message.Unsubscribe.{unsubscribe_message_build, unsubscribe_message_parse}
use simple_mqtt.Message.Unsubscribe.RoundTrip.{unsubscribe-parse-build}

-- Two topics, with QoS 1 and 2, and two with none.
abbrev topics : List Topic
topics = (97 ∷ 47 ∷ 98 ∷ [], 1) ∷ (35 ∷ [], 2) ∷ []

abbrev plain : List Topic
plain = (97 ∷ 47 ∷ 98 ∷ [], 0) ∷ (35 ∷ [], 0) ∷ []

subscribe-parse-build_example :
    (message : Bytes) × (found : List TopicFilter) × (subscribe_message_build 258
        (map as_filter topics)
        (some 30)
        (some 20)
      ≡ ok message)
    × (subscribe_message_parse true (λ i. true) (some message) (length message) true
        ≡ ok (258, found))
    × (map as_topic found ≡ topics)
unfolding encoding
subscribe-parse-build_example =
    subscribe-parse-build (λ i. true) 258 20 30 topics (λ i. refl) (λ e. cc)
      (
        record { name_len = omega arith; qos_ok = omega arith },
        (record { name_len = omega arith; qos_ok = omega arith }, tt),
      )
      (omega arith) (omega arith) (omega arith)

unsubscribe-parse-build_example :
    (message : Bytes) × (found : List TopicFilter) × (unsubscribe_message_build 258
        (map as_filter plain)
        (some 30)
        (some 20)
      ≡ ok message)
    × (unsubscribe_message_parse true (λ i. true) (some message) (length message) true
        ≡ ok (258, found))
    × (map as_topic found ≡ plain)
unfolding encoding
unsubscribe-parse-build_example =
    unsubscribe-parse-build (λ i. true) 258 20 30 plain (λ i. refl) (λ e. cc)
      (
        record { name_len = omega arith; no_qos = refl },
        (record { name_len = omega arith; no_qos = refl }, tt),
      )
      (omega arith) (omega arith) (omega arith)

subscribe_message_parse-ne-stuck_example :
    subscribe_message_parse true (λ i. true) (some (0x80 ∷ 6 ∷ 1 ∷ 2 ∷ 0 ∷ 1 ∷ 35 ∷ 0 ∷ [])) 8 true
    ≢ stuck
subscribe_message_parse-ne-stuck_example =
    subscribe_message_parse-ne-stuck true (λ i. true)
      (some (0x80 ∷ 6 ∷ 1 ∷ 2 ∷ 0 ∷ 1 ∷ 35 ∷ 0 ∷ [])) 8 true

subscribe_message_parse_bad_first_example :
    subscribe_message_parse true (λ i. true) (some (0x80 ∷ 6 ∷ 1 ∷ 2 ∷ 0 ∷ 1 ∷ 35 ∷ 3 ∷ [])) 8 true
    ≡ fault
unfolding encoding
subscribe_message_parse_bad_first_example =
    subscribe_message_parse_bad_first (λ i. true) 258 (35 ∷ []) 3 [] refl (omega arith)
      (omega arith)
