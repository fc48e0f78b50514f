-- ===== src/Message/Filters/Errors.antt =====
-- src/message/msg_subscribe.c and src/message/msg_unsubscribe.c: the codes that the builders return.
use simple_mqtt.Base.{
  arith, ℕ, zero, suc, ◌-◌, ◌/◌, ◌%◌, bit_or, take, ◌≢◌, Bool, true, false, not, Option, none, some,
  List, [], ◌∷◌, ◌++◌, Bytes, read, emit, length, ltb, leb, ◌==◌, if◌then◌else◌, add32, Outcome, ok,
  err, fault, stuck, ◌>>=◌, refuse_if, defined_if,
}
use simple_mqtt.Message.Codes
use simple_mqtt.Message.Field.{build_string_field}
use simple_mqtt.Message.Remain.{encode_loop, remain_length_encode}
use simple_mqtt.Message.Filters.{
  TopicFilter, filters_write, filters_len, filters_message_build, qos_field,
}

-- An error is another code than MQTT_SUCCESS.
abbrev pub Coded {ℓ} : {A : Type ℓ} → Outcome A → Type 0
Coded (ok a) = Unit
Coded (err code) = code ≢ 0
Coded fault = Unit
Coded stuck = Unit

>>=-Coded {ℓ κ} :
    {A : Type ℓ} {B : Type κ} (m : Outcome A) (f : A → Outcome B)
    → Coded m
    → ((a : A) → Coded (f a))
    → Coded (m >>= f)
>>=-Coded (ok a) f h rest = rest a
>>=-Coded (err code) f h rest = h
>>=-Coded fault f h rest = tt
>>=-Coded stuck f h rest = tt

refuse_if-Coded : (bad : Bool) (code : ℕ) → code ≢ 0 → Coded (refuse_if bad code)
refuse_if-Coded true code ne = ne
refuse_if-Coded false code ne = tt

defined_if-Coded : (b : Bool) → Coded (defined_if b)
defined_if-Coded true = tt
defined_if-Coded false = tt

if-Coded {ℓ} :
    {A : Type ℓ} (b : Bool) (m n : Outcome A) → Coded m → Coded n → Coded (if b then m else n)
if-Coded true m n h k = h
if-Coded false m n h k = k

emit-Coded : (cap : ℕ) (bs : Bytes) → Coded (emit cap bs)
unfolding emit
emit-Coded cap bs = if-Coded (leb (length bs) cap) (ok bs) fault tt tt

read-Coded : (n : ℕ) (bs : Bytes) → Coded (read n bs)
unfolding read
read-Coded n bs = if-Coded (leb n (length bs)) (ok (take n bs)) fault tt tt

encode_loop-Coded : (fuel len : ℕ) → Coded (encode_loop fuel len)
unfolding encode_loop
encode_loop-Coded zero len = tt
encode_loop-Coded (suc fuel) len =
    if-Coded (ltb 0 (len / 128)) _ (ok (len % 128 ∷ []))
      (>>=-Coded (encode_loop fuel (len / 128)) (λ rest. ok (bit_or (len % 128) 0x80 ∷ rest))
        (encode_loop-Coded fuel (len / 128)) (λ rest. tt))
      tt

remain_length_encode-Coded : (room len : ℕ) → Coded (remain_length_encode room len)
unfolding remain_length_encode
remain_length_encode-Coded room len =
    >>=-Coded (encode_loop 5 len) _ (encode_loop-Coded 5 len) (λ encode.
      >>=-Coded (defined_if (leb (length encode) room)) _
        (defined_if-Coded (leb (length encode) room))
        (λ u.
          >>=-Coded (refuse_if (ltb 4 (length encode)) Codes.mqtt_invalid_param) _
            (refuse_if-Coded (ltb 4 (length encode)) _ (omega arith)) (λ v. tt)))

build_string_field-Coded :
    (str : Option Bytes) (len : ℕ) (outs : Bool) → Coded (build_string_field str len outs)
unfolding build_string_field
build_string_field-Coded none len true =
    >>=-Coded (refuse_if (not (len == 0)) Codes.mqtt_invalid_param) _
      (refuse_if-Coded (not (len == 0)) _ (omega arith)) (λ u. tt)
build_string_field-Coded none len false =
    >>=-Coded (refuse_if (not (len == 0)) Codes.mqtt_invalid_param) _
      (refuse_if-Coded (not (len == 0)) _ (omega arith)) (λ u. omega arith)
build_string_field-Coded (some str) len true =
    >>=-Coded (read len str) _ (read-Coded len str) (λ text. tt)
build_string_field-Coded (some str) len false = omega arith

filters_write-Coded :
    (with_qos : Bool) (room : ℕ) (filters : List TopicFilter)
    → Coded (filters_write with_qos room filters)
unfolding filters_write
filters_write-Coded with_qos room [] = tt
filters_write-Coded with_qos room (f ∷ filters) =
    >>=-Coded (build_string_field f.topic_filter f.topic_filter_len true) _
      (build_string_field-Coded f.topic_filter f.topic_filter_len true)
      (λ field.
        let entry = field ++ qos_field with_qos f.qos in
        >>=-Coded (defined_if (leb (length entry) room)) _
          (defined_if-Coded (leb (length entry) room))
          (λ u.
            >>=-Coded (filters_write with_qos (room - length entry) filters) _
              (filters_write-Coded with_qos (room - length entry) filters) (λ rest. tt)))

-- The builders of SUBSCRIBE and UNSUBSCRIBE packets do not fail with the code of success.
pub filters_message_build-Coded :
    (message_type : ℕ) (with_qos : Bool) (packet_id : ℕ) (filters : List TopicFilter)
    (message message_len : Option ℕ)
    → Coded (filters_message_build message_type with_qos packet_id filters message message_len)
unfolding filters_message_build
filters_message_build-Coded message_type with_qos packet_id [] message message_len = omega arith
filters_message_build-Coded message_type with_qos packet_id (f ∷ filters) none message_len =
    omega arith
filters_message_build-Coded message_type with_qos packet_id (f ∷ filters) (some cap) none =
    omega arith
filters_message_build-Coded message_type with_qos packet_id (f ∷ filters) (some cap) (some given) =
    let remain_len = filters_len (if with_qos then 3 else 2) 2 (f ∷ filters) in
    >>=-Coded (remain_length_encode 4 remain_len) _ (remain_length_encode-Coded 4 remain_len)
      (λ buffer.
        let bad = ltb given (add32 (add32 (length buffer) remain_len) 1) in
        >>=-Coded (refuse_if bad Codes.mqtt_invalid_param) _ (refuse_if-Coded bad _ (omega arith))
          (λ u. >>=-Coded (emit cap _) _ (emit-Coded cap _) (λ header.
            >>=-Coded (filters_write with_qos (cap - length header) (f ∷ filters)) _
              (filters_write-Coded with_qos (cap - length header) (f ∷ filters)) (λ entries. tt))))
