-- ===== src/Message/Connect.antt =====
-- src/message/msg_connect.c: the CONNECT packet.
pub mod Parser
pub mod Size
pub mod Fields
pub mod RoundTrip
pub mod Refused
pub mod Overflow
pub mod Ends
use simple_mqtt.Base.{
  ℕ, ◌+◌, ◌-◌, ◌*◌, ◌/◌, ◌%◌, ◌^◌, Bool, true, false, not, ◌&&◌, ◌||◌, Option, none, some, List, [],
  ◌∷◌, ◌++◌, Bytes, net16, get16, read, deref, emit, length, drop, ltb, ◌==◌, if◌then◌else◌,
  bit_and, bit_or, add32, sub32, Outcome, ok, err, ◌>>=◌, ◌>>◌, refuse_if, is_null,
}
use simple_mqtt.Message.Codes
use simple_mqtt.Message.Remain.{remain_length_encode}
use simple_mqtt.Message.Field.{build_string_field, parse_string_field}
use simple_mqtt.Message.Header.{parse_header}

-- `connect_payload_t`
pub record ConnectPayload : Type 0 where
  pub client_id_len : ℕ
  pub client_id : Option Bytes
  pub will_topic_len : ℕ
  pub will_topic : Option Bytes
  pub will_msg_len : ℕ
  pub will_msg : Option Bytes
  pub username_len : ℕ
  pub username : Option Bytes
  pub password_len : ℕ
  pub password : Option Bytes

-- The other arguments of the builder, and out parameters of the parser.
pub record ConnectSettings : Type 0 where
  pub keep_alive : ℕ
  pub clean_session : ℕ
  pub will_retain : ℕ
  pub will_qos : ℕ

-- MQTT_CLIENT_ID_LEN_MAX, and sizeof(connect_variable_header_t)
abbrev pub mqtt_client_id_len_max : ℕ
mqtt_client_id_len_max = 23

abbrev pub variable_header_size : ℕ
variable_header_size = 10

-- CONNECT_FLAG_INDEX_CLEAN_SESSION to CONNECT_FLAG_INDEX_USERNAME
abbrev pub connect_flag_index_clean_session : ℕ
connect_flag_index_clean_session = 1

abbrev pub connect_flag_index_will_flag : ℕ
connect_flag_index_will_flag = 2

abbrev pub connect_flag_index_will_qos_low : ℕ
connect_flag_index_will_qos_low = 3

abbrev pub connect_flag_index_will_qos_high : ℕ
connect_flag_index_will_qos_high = 4

abbrev pub connect_flag_index_will_retain : ℕ
connect_flag_index_will_retain = 5

abbrev pub connect_flag_index_passwd : ℕ
connect_flag_index_passwd = 6

abbrev pub connect_flag_index_username : ℕ
connect_flag_index_username = 7

-- `*message_len`; the code is MQTT_SUCCESS.
unfoldable pub connect_message_len_calc : ConnectPayload → ℕ
connect_message_len_calc p =
    let header : ℕ = 1 + 4 + variable_header_size in
    let with_client_id = add32 header (p.client_id_len + 2) in
    let with_will_topic = add32 with_client_id (p.will_topic_len + 2) in
    let with_will_msg = add32 with_will_topic (p.will_msg_len + 2) in
    let with_username = add32 with_will_msg (p.username_len + 2) in
    add32 with_username (p.password_len + 2)

-- The macros on the flags, a uint8_t.
abbrev pub bit_set : ℕ → ℕ → ℕ
bit_set flags index = bit_or flags (2 ^ index)

abbrev pub bit_clean : ℕ → ℕ → ℕ
bit_clean flags index = bit_and flags (255 - 2 ^ index)

abbrev pub bit_is_set : ℕ → ℕ → Bool
bit_is_set flags index = not (bit_and (flags / 2 ^ index) 1 == 0)

-- `text != NULL && text_len > 0`
abbrev pub has_text : Option Bytes → ℕ → Bool
has_text text text_len = not (is_null text) && ltb 0 text_len

abbrev pub has_will : ConnectPayload → Bool
has_will p = has_text p.will_topic p.will_topic_len && has_text p.will_msg p.will_msg_len

abbrev pub has_username : ConnectPayload → Bool
has_username p = has_text p.username p.username_len

abbrev pub has_password : ConnectPayload → Bool
has_password p = has_username p && has_text p.password p.password_len

-- The switch on `will_qos`.
pub set_will_qos : ℕ → ℕ → ℕ
set_will_qos flags will_qos =
    if will_qos == 0
    then bit_clean (bit_clean flags connect_flag_index_will_qos_low)
        connect_flag_index_will_qos_high
    else if will_qos == 1
    then bit_clean (bit_set flags connect_flag_index_will_qos_low) connect_flag_index_will_qos_high
    else if will_qos == 2
    then bit_set (bit_clean flags connect_flag_index_will_qos_low) connect_flag_index_will_qos_high
    else flags

pub connect_flags : ConnectPayload → ConnectSettings → ℕ
unfolding set_will_qos
connect_flags p s =
    let clean = if s.clean_session == 0 then 0 else bit_set 0 connect_flag_index_clean_session in
    let will = if has_will p then bit_set clean connect_flag_index_will_flag else clean in
    let qos =
      if bit_is_set will connect_flag_index_will_flag then set_will_qos will s.will_qos else will in
    let retain =
      if not (s.will_retain == 0) && bit_is_set qos connect_flag_index_will_flag
      then bit_set qos connect_flag_index_will_retain
      else qos in
    let passwd = if has_password p then bit_set retain connect_flag_index_passwd else retain in
    if has_username p then bit_set passwd connect_flag_index_username else passwd

-- The size that is allocated for the payload.
pub connect_payload_len : ConnectPayload → ℕ
connect_payload_len p =
    let client_id = add32 0 (p.client_id_len + 2) in
    let will =
      if has_will p
      then add32 (add32 client_id (p.will_topic_len + 2)) (p.will_msg_len + 2)
      else client_id in
    let passwd = if has_password p then add32 will (p.password_len + 2) else will in
    if has_username p then add32 passwd (p.username_len + 2) else passwd

-- A field that is only there when its flag is set.
abbrev pub build_field_if : Bool → Option Bytes → ℕ → Outcome Bytes
build_field_if true text text_len = build_string_field text text_len true
build_field_if false text text_len = ok []

-- What is stored in the payload's buffer of `size` bytes.
pub connect_payload_build : ConnectPayload → ℕ → ℕ → Outcome Bytes
connect_payload_build p flags size = do
  client_id ← build_string_field p.client_id p.client_id_len true
  will_topic ←
      build_field_if (bit_is_set flags connect_flag_index_will_flag) p.will_topic p.will_topic_len
  will_msg ←
      build_field_if (bit_is_set flags connect_flag_index_will_flag) p.will_msg p.will_msg_len
  username ← build_field_if (bit_is_set flags connect_flag_index_username) p.username p.username_len
  password ← build_field_if (bit_is_set flags connect_flag_index_passwd) p.password p.password_len
  emit size (client_id ++ (will_topic ++ (will_msg ++ (username ++ password))))

-- `connect_variable_header_t`
abbrev pub variable_header : ℕ → ℕ → Bytes
variable_header flags keep_alive = 0 ∷ 4 ∷ 77 ∷ 81 ∷ 84 ∷ 84 ∷ 4 ∷ flags ∷ net16 keep_alive

-- The packet is written from its first byte on.
abbrev pub connect_packet_write : ℕ → ℕ → Bytes → ℕ → Outcome Bytes
connect_packet_write flags keep_alive payload cap = do
  type ← emit cap (Codes.message_type_encode Codes.message_type_connect ∷ [])
  field ← remain_length_encode (cap - 1) (add32 (length payload) variable_header_size)
  emit cap (type ++ (field ++ (variable_header flags keep_alive ++ payload)))

-- `granted` is for the `malloc` of the payload, and `cap` is the size of the buffer at `message`;
-- the result is what is written there. The pointers are not tested for NULL.
unfoldable pub connect_message_build : Bool → ConnectPayload → ConnectSettings → ℕ → Outcome Bytes
unfolding connect_flags connect_payload_len connect_payload_build
connect_message_build granted p s cap = do
  refuse_if (ltb mqtt_client_id_len_max p.client_id_len) Codes.mqtt_invalid_param
  refuse_if (not (is_null p.client_id) && ltb mqtt_client_id_len_max p.client_id_len)
      Codes.mqtt_invalid_param
  let flags = connect_flags p s
  refuse_if (not granted) Codes.mqtt_memory_nobuffer
  payload ← connect_payload_build p flags (connect_payload_len p)
  connect_packet_write flags s.keep_alive payload cap

-- What `free` is given for one field.
pub freed : ℕ → Option Bytes → List Bytes
freed len none = []
freed len (some text) = if len == 0 then [] else text ∷ []

-- What `free` is given, in order.
unfoldable pub connect_payload_release : Option ConnectPayload → Outcome (List Bytes)
unfolding freed
connect_payload_release none = err Codes.mqtt_invalid_param
connect_payload_release (some p) = ok (
    freed p.password_len p.password
    ++ (freed p.username_len p.username
        ++ (freed p.will_msg_len p.will_msg
            ++ (freed p.will_topic_len p.will_topic ++ freed p.client_id_len p.client_id))))
