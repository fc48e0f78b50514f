-- ===== src/Message/Connect/Ends.antt =====
-- src/message/msg_connect.c: the theorem that `connect_message_build` ends.
use simple_mqtt.Base.{
  ℕ, ◌-◌, ◌≢◌, arith, Bool, true, false, not, ◌&&◌, Option, none, some, [], ◌∷◌, ◌++◌, Bytes, read,
  emit, ◌==◌, ltb, is_null, length, Outcome, stuck, ◌>>=◌, ◌>>◌, refuse_if, >>=-ne-stuck, add32,
}
use simple_mqtt.Message.Codes.{mqtt_invalid_param, mqtt_memory_nobuffer}
use simple_mqtt.Message.Remain.{remain_length_encode}
use simple_mqtt.Message.Remain.Bounds.{remain_length_encode-ne-stuck}
use simple_mqtt.Message.Field.{build_string_field}
use simple_mqtt.Message.Connect.{
  ConnectPayload, ConnectSettings, bit_is_set, build_field_if, connect_payload_build,
  connect_packet_write, connect_message_build, connect_flags, connect_payload_len, variable_header,
  variable_header_size, mqtt_client_id_len_max,
}

refuse_if-ne-stuck : (b : Bool) (code : ℕ) → refuse_if b code ≢ stuck
refuse_if-ne-stuck true code e = cc
refuse_if-ne-stuck false code e = cc

emit-ne-stuck : (cap : ℕ) (bs : Bytes) → emit cap bs ≢ stuck
unfolding emit
emit-ne-stuck cap bs e = ground arith

pub read-ne-stuck : (n : ℕ) (bs : Bytes) → read n bs ≢ stuck
unfolding read
read-ne-stuck n bs e = ground arith

build_string_field-ne-stuck :
    (text : Option Bytes) (len : ℕ) → build_string_field text len true ≢ stuck
unfolding build_string_field
build_string_field-ne-stuck none len =
    >>=-ne-stuck (refuse_if (not (len == 0)) mqtt_invalid_param) _ (refuse_if-ne-stuck _ _)
      (λ u e p. cc)
build_string_field-ne-stuck (some text) len =
    >>=-ne-stuck (read len text) _ (read-ne-stuck len text) (λ t e p. cc)

build_field_if-ne-stuck :
    (b : Bool) (text : Option Bytes) (len : ℕ) → build_field_if b text len ≢ stuck
build_field_if-ne-stuck true text len = build_string_field-ne-stuck text len
build_field_if-ne-stuck false text len = λ e. cc

field_then :
    (b : Bool) (text : Option Bytes) (len : ℕ) (next : Bytes → Outcome Bytes)
    → ((field : Bytes) → next field ≢ stuck)
    → (build_field_if b text len >>= next) ≢ stuck
field_then b text len next h =
    >>=-ne-stuck (build_field_if b text len) next (build_field_if-ne-stuck b text len)
      (λ field e. h field)

connect_payload_build-ne-stuck :
    (p : ConnectPayload) (flags size : ℕ) → connect_payload_build p flags size ≢ stuck
unfolding connect_payload_build
connect_payload_build-ne-stuck p flags size =
    >>=-ne-stuck _ _ (build_string_field-ne-stuck p.client_id p.client_id_len) (λ a e.
      field_then (bit_is_set flags 2) p.will_topic p.will_topic_len _ (λ b.
        field_then (bit_is_set flags 2) p.will_msg p.will_msg_len _ (λ c.
          field_then (bit_is_set flags 7) p.username p.username_len _ (λ d.
            field_then (bit_is_set flags 6) p.password p.password_len _
              (λ f. emit-ne-stuck size _)))))

connect_packet_write-ne-stuck :
    (flags keep_alive : ℕ) (payload : Bytes) (cap : ℕ)
    → connect_packet_write flags keep_alive payload cap ≢ stuck
connect_packet_write-ne-stuck flags keep_alive payload cap =
    let len = add32 (length payload) variable_header_size in
    >>=-ne-stuck (emit cap (0x10 ∷ [])) _ (emit-ne-stuck cap (0x10 ∷ [])) (λ type e.
      >>=-ne-stuck (remain_length_encode (cap - 1) len) _
        (remain_length_encode-ne-stuck (cap - 1) len (omega arith))
        (λ field e'.
          emit-ne-stuck cap (type ++ (field ++ (variable_header flags keep_alive ++ payload)))))

refuse_then :
    (b : Bool) (code : ℕ) (next : Outcome Bytes) → next ≢ stuck → (refuse_if b code >> next) ≢ stuck
refuse_then true code next h = λ e. cc
refuse_then false code next h = h

pub connect_message_build-ne-stuck :
    (granted : Bool) (p : ConnectPayload) (s : ConnectSettings) (cap : ℕ)
    → connect_message_build granted p s cap ≢ stuck
unfolding connect_message_build
connect_message_build-ne-stuck granted p s cap =
    let long = ltb mqtt_client_id_len_max p.client_id_len in
    refuse_then long mqtt_invalid_param _ (
      refuse_then (not (is_null p.client_id) && long) mqtt_invalid_param _ (
        refuse_then (not granted) mqtt_memory_nobuffer _ (
          >>=-ne-stuck (connect_payload_build p (connect_flags p s) (connect_payload_len p)) _
            (connect_payload_build-ne-stuck p (connect_flags p s) (connect_payload_len p))
            (λ payload e.
              connect_packet_write-ne-stuck (connect_flags p s) s.keep_alive payload cap))))
