-- ===== src/Message/Connect/RoundTrip.antt =====
-- src/message/msg_connect.c: theorems on the builder and the parser together.
use simple_mqtt.Base.{
  as_flag, ℕ, ◌+◌, ◌-◌, ◌^◌, ◌≤◌, ◌<◌, ◌≡◌, refl, ◌∙◌, arith, Bool, true, false, some, [], ◌++◌,
  append-nil, subst, Bytes, length, ltb, if◌then◌else◌, sub32, ok, err, ◌>>=◌, ◌⊎◌,
}
use simple_mqtt.Message.Codes.{mqtt_connect_flags_error}
use simple_mqtt.Message.Header.Whole.{packet, parse_header-packet}
use simple_mqtt.Message.Connect.{
  ConnectPayload, ConnectSettings, connect_flags, connect_message_build,
}
use simple_mqtt.Message.Connect.Size.{
  Texts, Fit, as_payload, field_if, with_will, with_username, with_password, payload_bytes,
  payload_fits, length-payload_bytes, connect_body, connect_message_build_lem, flags_bits,
}
use simple_mqtt.Message.Connect.Fields.{
  variable_header_parse_lem, client_id_parse_lem, text_back, len_back, text_parse_if_lem,
  flags_settings_lem, flags_check_lem,
}
use simple_mqtt.Message.Connect.Parser.{
  flags_settings, text_parse_if, connect_payload_parse, connect_message_parse,
}

-- What is read back of the texts: those that were not written are NULL, with length 0.
abbrev pub payload_back : Texts → ConnectPayload
payload_back t = record {
  client_id_len = length t.client_id;
  client_id = some t.client_id;
  will_topic_len = len_back (with_will t) t.will_topic;
  will_topic = text_back (with_will t) t.will_topic;
  will_msg_len = len_back (with_will t) t.will_msg;
  will_msg = text_back (with_will t) t.will_msg;
  username_len = len_back (with_username t) t.username;
  username = text_back (with_username t) t.username;
  password_len = len_back (with_password t) t.password;
  password = text_back (with_password t) t.password;
}

module _ (granted : ℕ → Bool) (t : Texts) (s : ConnectSettings) (all : (i : ℕ) → granted i ≡ true)
    (fit : Fit t) (named : 1 ≤ length t.client_id) where
  connect_payload_parse_lem :
      connect_payload_parse granted
        (connect_flags (as_payload t) s)
        (payload_bytes t)
        (length (payload_bytes t))
      ≡ ok (payload_back t)
  unfolding connect_payload_parse
  connect_payload_parse_lem =
      let (will, username, password) = flags_bits t s in
      let sizes = length-payload_bytes t in
      let small = payload_fits t fit in
      let left = length (payload_bytes t) - (2 + length t.client_id) in
      let topic = length (field_if (with_will t) t.will_topic) in
      let msg = length (field_if (with_will t) t.will_msg) in
      let name = length (field_if (with_username t) t.username) in
      rw
        (
          all 0,
          all 1,
          all 2,
          all 3,
          all 4,
          will,
          username,
          password,
          client_id_parse_lem t.client_id rest₁ (length (payload_bytes t)) (omega arith)
              (omega arith) (omega arith) named (omega arith),
          text_parse_if_lem (with_will t) true t.will_topic rest₂ left (omega arith) (omega arith)
              (omega arith) (λ e. ground arith),
          text_parse_if_lem (with_will t) true t.will_msg rest₃ (left - topic) (omega arith)
              (omega arith) (omega arith) (λ e. ground arith),
          text_parse_if_lem (with_username t) true t.username rest₄ (left - topic - msg)
              (omega arith) (omega arith) (omega arith) (λ e. ground arith),
          password_lem (left - topic - msg - name) (omega arith) (omega arith),
        )
        (ground arith)
    where
      password_lem :
          (n : ℕ)
          → n < 2 ^ 32
          → length (field_if (with_password t) t.password) ≤ n
          → text_parse_if (with_password t) true false (field_if (with_password t) t.password) n
            ≡ ok (
              text_back (with_password t) t.password,
              len_back (with_password t) t.password,
              [],
              n - length (field_if (with_password t) t.password),
            )
      password_lem n n_ok fits =
          subst
            (λ ptr.
              text_parse_if (with_password t) true false ptr n
              ≡ ok (
                text_back (with_password t) t.password,
                len_back (with_password t) t.password,
                [],
                n - length (field_if (with_password t) t.password),
              ))
            (append-nil (field_if (with_password t) t.password))
            (text_parse_if_lem (with_password t) false t.password [] n fit.password_fits n_ok fits
              (λ e. ground arith))

      rest₄ : Bytes
      rest₄ = field_if (with_password t) t.password

      rest₃ : Bytes
      rest₃ = field_if (with_username t) t.username ++ rest₄

      rest₂ : Bytes
      rest₂ = field_if (with_will t) t.will_msg ++ rest₃

      rest₁ : Bytes
      rest₁ = field_if (with_will t) t.will_topic ++ rest₂

-- The parser on what the builder writes, up to the payload.
connect_message_parse_lem :
    (granted : ℕ → Bool) (t : Texts) (s : ConnectSettings)
    → Fit t
    → connect_message_parse granted
        (some (packet 0x10 (connect_body t s)))
        (length (packet 0x10 (connect_body t s)))
        true
      ≡ (if with_will t
          then (do
            payload ←
                connect_payload_parse granted
                  (connect_flags (as_payload t) s)
                  (payload_bytes t)
                  (length (payload_bytes t))
            ok (record {
              payload = payload;
              settings = flags_settings (connect_flags (as_payload t) s) s.keep_alive;
            }))
          else err 10)
unfolding connect_message_parse
connect_message_parse_lem granted t s fit =
    rw
      (
        parse_header-packet 0x10 2 (connect_body t s) (omega (arith, payload_fits t fit)),
        variable_header_parse_lem,
        flags_check_lem,
        payload_left,
      )
      (ground (arith, length-payload_bytes t))
  where
    payload_left : sub32 (length (connect_body t s)) 10 ≡ length (payload_bytes t)
    payload_left = omega (arith, payload_fits t fit)

-- For a client id of 1 to 23 bytes, a will topic and a will message that are not empty, and texts
-- of sixteen-bit length: with a buffer for the packet and memory granted, `connect_message_build` writes
-- the packet, and `connect_message_parse` reads it back. The username is read back if it is not empty, the
-- password if neither is; otherwise they are NULL. The flags come back as 0 or 1, and a will QoS
-- above 2 as 0.
pub connect-parse-build :
    (granted : ℕ → Bool) (t : Texts) (s : ConnectSettings) (cap : ℕ)
    → ((i : ℕ) → granted i ≡ true)
    → Fit t
    → 1 ≤ length t.client_id
    → 1 ≤ length t.will_topic
    → 1 ≤ length t.will_msg
    → length (packet 0x10 (connect_body t s)) ≤ cap
    → (message : Bytes) × (connect_message_build true (as_payload t) s cap ≡ ok message)
      × (connect_message_parse granted (some message) (length message) true
          ≡ ok (record {
            payload = payload_back t;
            settings = record {
              keep_alive = s.keep_alive;
              clean_session = as_flag s.clean_session;
              will_retain = as_flag s.will_retain;
              will_qos = if ltb s.will_qos 3 then s.will_qos else 0;
            };
          }))
connect-parse-build granted t s cap all fit named topic msg room =
    let will : with_will t ≡ true = ground arith in
    (
      packet 0x10 (connect_body t s),
      connect_message_build_lem t s cap fit room,
      connect_message_parse_lem granted t s fit
          ∙ rw
              (
                connect_payload_parse_lem granted t s all fit named,
                flags_settings_lem t s will,
                will,
              )
              refl,
    )

-- Whatever is in it, a packet without a will that `connect_message_build` writes, because the will topic
-- or the will message is empty, is refused by `connect_message_parse` with MQTT_CONNECT_FLAGS_ERROR.
pub connect_message_parse_no_will :
    (granted : ℕ → Bool) (t : Texts) (s : ConnectSettings) (cap : ℕ)
    → Fit t
    → (length t.will_topic ≡ 0) ⊎ (length t.will_msg ≡ 0)
    → length (packet 0x10 (connect_body t s)) ≤ cap
    → (message : Bytes) × (connect_message_build true (as_payload t) s cap ≡ ok message)
      × (connect_message_parse granted (some message) (length message) true
          ≡ err mqtt_connect_flags_error)
connect_message_parse_no_will granted t s cap fit none_there room =
    let will : with_will t ≡ false = ground arith in
    (
      packet 0x10 (connect_body t s),
      connect_message_build_lem t s cap fit room,
      connect_message_parse_lem granted t s fit ∙ rw will refl,
    )
