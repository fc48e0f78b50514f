-- ===== src/Message/Connect/Size.antt =====
-- src/message/msg_connect.c: theorems on sizes, and the packet that the builder writes.
use simple_mqtt.Base.{
  ℕ, ◌+◌, ◌-◌, ◌^◌, ◌≤◌, ◌<◌, ◌≡◌, refl, arith, Bool, true, false, ◌&&◌, some, [], ◌∷◌, ◌++◌, Bytes,
  IsU16, net16, emit_lem, length, length-append, ltb, if◌then◌else◌, ok,
}
use simple_mqtt.Message.Field.RoundTrip.{build_string_field_whole}
use simple_mqtt.Message.Header.Whole.{packet, length-packet}
use simple_mqtt.Message.Remain.Bounds.{length-encoding, remain_length_encode_lem}
use simple_mqtt.Message.Connect.{
  ConnectPayload, ConnectSettings, connect_message_len_calc, bit_is_set, set_will_qos,
  connect_flags, connect_payload_len, build_field_if, connect_payload_build, variable_header,
  connect_message_build,
}

-- The texts of a payload. The empty text stands for a field that is not there.
pub record Texts : Type 0 where
  pub client_id : Bytes
  pub will_topic : Bytes
  pub will_msg : Bytes
  pub username : Bytes
  pub password : Bytes

-- Each is as long as a string field can be, and the client id as long as the library allows.
pub record Fit (t : Texts) : Type 0 where
  pub client_id_fits : length t.client_id ≤ 23
  pub will_topic_fits : IsU16 (length t.will_topic)
  pub will_msg_fits : IsU16 (length t.will_msg)
  pub username_fits : IsU16 (length t.username)
  pub password_fits : IsU16 (length t.password)

-- The payload with pointers to them.
abbrev pub as_payload : Texts → ConnectPayload
as_payload t = record {
  client_id_len = length t.client_id;
  client_id = some t.client_id;
  will_topic_len = length t.will_topic;
  will_topic = some t.will_topic;
  will_msg_len = length t.will_msg;
  will_msg = some t.will_msg;
  username_len = length t.username;
  username = some t.username;
  password_len = length t.password;
  password = some t.password;
}

abbrev pub field : Bytes → Bytes
field text = net16 (length text) ++ text

abbrev pub field_if : Bool → Bytes → Bytes
field_if true text = field text
field_if false text = []

abbrev pub with_will : Texts → Bool
with_will t = ltb 0 (length t.will_topic) && ltb 0 (length t.will_msg)

abbrev pub with_username : Texts → Bool
with_username t = ltb 0 (length t.username)

abbrev pub with_password : Texts → Bool
with_password t = with_username t && ltb 0 (length t.password)

-- The payload as it stands in the packet.
abbrev pub payload_bytes : Texts → Bytes
payload_bytes t =
    field t.client_id
    ++ (field_if (with_will t) t.will_topic
        ++ (field_if (with_will t) t.will_msg
            ++ (field_if (with_username t) t.username ++ field_if (with_password t) t.password)))

-- The flags, bit by bit.
pub flags_bits :
    (t : Texts) (s : ConnectSettings)
    → (bit_is_set (connect_flags (as_payload t) s) 2 ≡ with_will t)
      × (bit_is_set (connect_flags (as_payload t) s) 7 ≡ with_username t)
      × (bit_is_set (connect_flags (as_payload t) s) 6 ≡ with_password t)
unfolding connect_flags set_will_qos
flags_bits t s = (ground arith, ground arith, ground arith)

length-field_if :
    (b : Bool) (text : Bytes) → length (field_if b text) ≡ (if b then 2 + length text else 0)
length-field_if true text = omega arith
length-field_if false text = refl

pub length-payload_bytes :
    (t : Texts)
    → length (payload_bytes t)
      ≡ 2
        + length t.client_id
        + length (field_if (with_will t) t.will_topic)
        + length (field_if (with_will t) t.will_msg)
        + length (field_if (with_username t) t.username)
        + length (field_if (with_password t) t.password)
length-payload_bytes t = omega (
  arith,
  length-append t.client_id (will_topic ++ (will_msg ++ (username ++ password))),
  length-append will_topic (will_msg ++ (username ++ password)),
  length-append will_msg (username ++ password),
  length-append username password,
)
  where
    will_topic : Bytes
    will_topic = field_if (with_will t) t.will_topic

    will_msg : Bytes
    will_msg = field_if (with_will t) t.will_msg

    username : Bytes
    username = field_if (with_username t) t.username

    password : Bytes
    password = field_if (with_password t) t.password

-- What is allocated for the payload is its size.
pub connect_payload_len_lem :
    (t : Texts) → Fit t → connect_payload_len (as_payload t) ≡ length (payload_bytes t)
unfolding connect_payload_len
connect_payload_len_lem t fit = rw length-payload_bytes (
    ground (
      arith,
      length-field_if (with_will t) t.will_topic,
      length-field_if (with_will t) t.will_msg,
      length-field_if (with_username t) t.username,
      length-field_if (with_password t) t.password,
    ))

-- What the texts take at most.
payload_bound :
    (t : Texts)
    → length (payload_bytes t)
      ≤ 10
        + length t.client_id
        + length t.will_topic
        + length t.will_msg
        + length t.username
        + length t.password
payload_bound t = rw length-payload_bytes (
    ground (
      arith,
      length-field_if (with_will t) t.will_topic,
      length-field_if (with_will t) t.will_msg,
      length-field_if (with_username t) t.username,
      length-field_if (with_password t) t.password,
    ))

-- A payload is far below the limit of the length field.
pub payload_fits : (t : Texts) → Fit t → length (payload_bytes t) < 2 ^ 19
payload_fits t fit = omega (arith, payload_bound t)

build_field_if_lem :
    (b : Bool) (text : Bytes) → build_field_if b (some text) (length text) ≡ ok (field_if b text)
build_field_if_lem true text = build_string_field_whole text
build_field_if_lem false text = refl

pub connect_payload_build_lem :
    (t : Texts) (s : ConnectSettings) (size : ℕ)
    → length (payload_bytes t) ≤ size
    → connect_payload_build (as_payload t) (connect_flags (as_payload t) s) size
      ≡ ok (payload_bytes t)
unfolding connect_payload_build
connect_payload_build_lem t s size fits =
    let (will, username, password) = flags_bits t s in
    rw
      (
        will,
        username,
        password,
        build_string_field_whole,
        build_field_if_lem (with_will t) t.will_topic,
        build_field_if_lem (with_will t) t.will_msg,
        build_field_if_lem (with_username t) t.username,
        build_field_if_lem (with_password t) t.password,
      )
      (emit_lem size (payload_bytes t) fits)

-- What follows the length field.
abbrev pub connect_body : Texts → ConnectSettings → Bytes
connect_body t s = variable_header (connect_flags (as_payload t) s) s.keep_alive ++ payload_bytes t

-- With a buffer for the packet, the builder writes the packet.
pub connect_message_build_lem :
    (t : Texts) (s : ConnectSettings) (cap : ℕ)
    → Fit t
    → length (packet 0x10 (connect_body t s)) ≤ cap
    → connect_message_build true (as_payload t) s cap ≡ ok (packet 0x10 (connect_body t s))
unfolding connect_message_build
connect_message_build_lem t s cap fit room = ground (
  arith,
  payload_fits t fit,
  connect_payload_len_lem t fit,
  connect_payload_build_lem t s (length (payload_bytes t)) (omega arith),
  remain_length_encode_lem (cap - 1) (length (connect_body t s)),
  length-encoding 3 (length (connect_body t s)),
  length-packet 0x10 (connect_body t s),
  emit_lem cap (packet 0x10 (connect_body t s)),
  emit_lem cap (0x10 ∷ []),
)

-- The buffer that a caller allocates is large enough.
pub connect_message_fits :
    (t : Texts) (s : ConnectSettings)
    → Fit t
    → length (packet 0x10 (connect_body t s)) ≤ connect_message_len_calc (as_payload t)
unfolding connect_message_len_calc
connect_message_fits t s fit = omega (
  arith,
  length-packet 0x10 (connect_body t s),
  length-encoding 3 (length (connect_body t s)),
  payload_bound t,
)

-- For a client id of at most 23 bytes, other texts of sixteen-bit length, and any settings, a buffer of
-- the size that `connect_message_len_calc` returns is enough: `connect_message_build`, which does not
-- look at the size of its buffer, stays inside it, and returns MQTT_SUCCESS if memory is granted.
pub connect_message_build-len_calc :
    (t : Texts) (s : ConnectSettings)
    → Fit t
    → (message : Bytes) × (connect_message_build true
          (as_payload t)
          s
          (connect_message_len_calc (as_payload t))
        ≡ ok message)
      × (length message ≤ connect_message_len_calc (as_payload t))
connect_message_build-len_calc t s fit =
    let bound = connect_message_fits t s fit in
    (
      packet 0x10 (connect_body t s),
      connect_message_build_lem t s (connect_message_len_calc (as_payload t)) fit bound,
      bound,
    )
