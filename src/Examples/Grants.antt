-- ===== src/Examples/Grants.antt =====
-- The array of QoS values and SUBACK at concrete inputs.
use simple_mqtt.Base.{
  ℕ, ◌≡◌, inr, refl, arith, true, false, some, [], ◌∷◌, length, Bytes, deref, get16, ok, fault,
}
use simple_mqtt.Examples.Zeros.{zeros, length-zeros}
use simple_mqtt.Message.Header.{parse_header}
use simple_mqtt.Message.Remain.{remain_length_decode, decode_loop}
use simple_mqtt.Message.Remain.Bounds.{encoding}
use simple_mqtt.Message.Suback.{
  SubackData, suback_data_init, suback_data_append, suback_message_build, suback_loop, store_next,
  suback_message_parse,
}
use simple_mqtt.Message.Suback.Array.{
  Holds, appended, suback_data_append-Holds, suback_data_append_wraps,
}
use simple_mqtt.Message.Suback.RoundTrip.{suback-parse-build}
use simple_mqtt.Message.Suback.Sound.{Parsed, suback_message_parse_sound}

-- An array that holds `items`, with the given capacity.
abbrev array : ℕ → Bytes → SubackData
array capacity items = record {
  qos = some (record { room = capacity; stored = items });
  size = length items;
  capacity = capacity;
}

abbrev pair : Bytes
pair = 1 ∷ 0x80 ∷ []

pair-Holds : Holds (array 2 pair) pair
pair-Holds = record {
  buffer = refl;
  counted = refl;
  within = omega arith;
  positive = omega arith;
  bounded = omega arith;
}

suback_data_append-Holds_example :
    (suback_data_append true (some (array 2 pair)) 2 ≡ ok (appended (array 2 pair) pair 2))
    × Holds (appended (array 2 pair) pair 2) (1 ∷ 0x80 ∷ 2 ∷ [])
suback_data_append-Holds_example =
    suback_data_append-Holds true (array 2 pair) pair 2 pair-Holds (inr (refl, omega arith))

suback-parse-build_example :
    (message : Bytes) × (arr' : SubackData) × (suback_message_build 258
        (some (array 2 pair))
        (some 9)
        (some 8)
      ≡ ok message)
    × (suback_message_parse true (λ i. false) (some message) (length message) true ≡ ok (258, arr'))
    × Holds arr' pair
unfolding encoding
suback-parse-build_example =
    suback-parse-build (λ i. false) 258 8 9 (array 2 pair) pair pair-Holds (refl, (refl, tt))
      (omega arith) (omega arith)

suback_message_parse_sound_example : Parsed (0x90 ∷ 4 ∷ 1 ∷ 2 ∷ 1 ∷ 0x80 ∷ []) 6 258 (array 2 pair)
unfolding suback_message_parse parse_header deref remain_length_decode decode_loop get16
    suback_data_init suback_loop suback_data_append store_next
suback_message_parse_sound_example =
    suback_message_parse_sound true (λ i. false) (0x90 ∷ 4 ∷ 1 ∷ 2 ∷ 1 ∷ 0x80 ∷ []) 6 258
      (array 2 pair) refl

-- An array of 65530 values that is full.
abbrev full : SubackData
full = record {
  qos = some (record { room = 65530; stored = zeros 65530 });
  size = 65530;
  capacity = 65530;
}

full-Holds : Holds full (zeros 65530)
full-Holds = record {
  buffer = refl;
  counted = omega (arith, length-zeros 65530);
  within = omega arith;
  positive = omega arith;
  bounded = omega arith;
}

suback_data_append_wraps_example : suback_data_append true (some full) 1 ≡ fault
suback_data_append_wraps_example =
    suback_data_append_wraps full (zeros 65530) 1 full-Holds refl (omega arith)
