-- ===== src/Examples/Lengths.antt =====
-- Length fields, string fields, fixed headers and acknowledgements at concrete inputs.
use simple_mqtt.Base.{◌+◌, ◌^◌, ◌≤◌, ◌<◌, ◌≡◌, refl, arith, true, some, [], ◌∷◌, min, take, ok}
use simple_mqtt.Message.Remain.{
  remain_length_encode, remain_length_decode, encode_loop, decode_loop,
}
use simple_mqtt.Message.Remain.RoundTrip.{
  remain_length_decode-encode, field_value, remain_length_decode-field_value,
}
use simple_mqtt.Message.Ack.RoundTrip.{puback, build, parse, parse-build}

remain_length_decode-encode_example : remain_length_decode (0xc1 ∷ 0x02 ∷ 7 ∷ []) 2 ≡ ok (2, 321)
unfolding remain_length_encode encode_loop
remain_length_decode-encode_example =
    remain_length_decode-encode 4 321 2 (7 ∷ []) (omega arith) refl (omega arith)

remain_length_decode-field_value_example :
    (321 ≡ field_value (take (min 2 4) (0xc1 ∷ 0x02 ∷ 7 ∷ [])))
    × (1 ≤ 2)
    × (2 ≤ 1 + min 2 4)
    × (321 < 2 ^ 28)
unfolding remain_length_decode decode_loop
remain_length_decode-field_value_example =
    remain_length_decode-field_value (0xc1 ∷ 0x02 ∷ 7 ∷ []) 2
      (omega arith, (omega arith, (omega arith, tt))) refl

parse-build_example :
    (build puback 258 (some 9) (some 5) ≡ ok (0x40 ∷ 2 ∷ 1 ∷ 2 ∷ []))
    × (parse puback (some (0x40 ∷ 2 ∷ 1 ∷ 2 ∷ [])) 4 true ≡ ok 258)
parse-build_example = parse-build puback 258 9 5 (omega arith) (omega arith) (omega arith)
