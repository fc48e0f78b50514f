-- ===== src/Client/Api/Connected.antt =====
-- src/client/client.c: theorems on `mqtt_client_create` where the server answers.
use simple_mqtt.Base.{
  ℕ, suc, ◌+◌, ◌≤◌, ◌<◌, ◌≡◌, ◌≢◌, refl, ap, ◌∙◌, sym, arith, true, none, some, [], ◌∷◌, ◌++◌,
  Bytes, length, take, read_all, lt→ltb, ne→==, ◌==◌, if◌then◌else◌, ok, ◌>>=◌,
}
use simple_mqtt.Message.Connect.{ConnectSettings, connect_message_len_calc, connect_message_build}
use simple_mqtt.Message.Connect.Size.{
  Texts, Fit, as_payload, connect_body, connect_message_build_lem, connect_message_fits,
}
use simple_mqtt.Message.Codes.{mqtt_connack_message_error}
use simple_mqtt.Message.Header.Whole.{packet}
use simple_mqtt.Message.Connack.Outcomes.{connack_message_parse_buffer}
use simple_mqtt.Client.Receive.{cleared}
use simple_mqtt.Client.Connection.{connack_message_len, ClientConfig, System, Session, bytes}
use simple_mqtt.Client.Connection.Waiting.{message_send_and_wait_ack_answer}
use simple_mqtt.Client.Api.{
  network_close, connect_settings, chosen_keep_alive, copy_client_id, connect_accepted,
  code_checked, connack_received, answer_received, connect_message_send, disconnected,
  mqtt_client_create,
}
use simple_mqtt.Client.Api.Created.{create_opened}

-- The server answers with a CONNACK packet of four bytes, and nothing else goes wrong.
pub record Answered (system : System) (attempts receptions : ℕ) (message : Bytes)
    (sent flags code : ℕ) : Type 0 where
  pub socket_there : system.socket ≢ none
  pub known : system.address_known ≡ true
  pub accepted : system.accepted ≡ true
  pub message_granted : system.message_granted ≡ true
  pub payload_granted : system.payload_granted ≡ true
  pub copy_granted : system.copy_granted ≡ true
  pub junk_there : 1 ≤ system.junk
  pub is_sent : system.send attempts message ≡ some sent
  pub answer : system.recv receptions connack_message_len ≡ bytes (0x20 ∷ 2 ∷ flags ∷ code ∷ [])

copy_client_id_lem : (text : Bytes) → copy_client_id true (some text) (length text) ≡ ok (some text)
unfolding copy_client_id
copy_client_id_lem [] = refl
copy_client_id_lem (b ∷ text) = rw (read_all (b ∷ text)) refl

-- A configuration with these texts.
abbrev pub config_of : Texts → ConnectSettings → ClientConfig
config_of t s = record {
  keep_alive = s.keep_alive;
  clean_session = s.clean_session;
  will_retain = s.will_retain;
  will_qos = s.will_qos;
  payload = as_payload t;
}

-- The packet that is sent.
abbrev pub connect_packet : Texts → ConnectSettings → Bytes
connect_packet t s = packet 0x10 (connect_body t (connect_settings (config_of t s)))

-- The state behind the answer.
abbrev pub heard : Session → Bytes → Session
heard session sent = record session {
  world = record session.world {
    attempts = session.world.attempts + 1;
    wire = session.world.wire ++ (sent ∷ []);
  };
  receptions = session.receptions + 1;
}

module _ (fuel : ℕ) (system : System) (t : Texts) (s : ConnectSettings) (session : Session)
    (sent flags code : ℕ) (fit : Fit t)
    (h : Answered system session.world.attempts session.receptions
      (connect_packet t s)
      sent
      flags
      code)
    (flags_ok : flags < 2) where
  built :
      connect_message_build system.payload_granted
        (as_payload t)
        (connect_settings (config_of t s))
        (connect_message_len_calc (as_payload t))
      ≡ ok (connect_packet t s)
  built =
      let settings = connect_settings (config_of t s) in
      rw h.payload_granted (
        connect_message_build_lem t settings (connect_message_len_calc (as_payload t)) fit
          (connect_message_fits t settings fit))

  connect_message_send_answered :
      connect_message_send (suc fuel) system (config_of t s) session
      ≡ connack_received system
          (config_of t s)
          (heard session (take sent (connect_packet t s)))
          (record { ret = if code == 0 then 0 else 11; connack_code = some code; sp = some flags })
  unfolding connect_message_send answer_received cleared
  connect_message_send_answered = simp (
    h.message_granted,
    built,
    message_send_and_wait_ack_answer fuel system (connect_packet t s) connack_message_len
        session.world session.receptions sent 0x20 (2 ∷ flags ∷ code ∷ []) h.is_sent h.answer,
    connack_message_parse_buffer system.junk flags code (0 ∷ []) h.junk_there (omega arith),
    lt→ltb flags 2 flags_ok,
  )

-- For texts that fit, a CONNACK packet of four bytes as the first answer, no failure of another call,
-- and an uninitialised local of `connack_message_parse` that is not 0,
-- `mqtt_client_create` sends the CONNECT packet once. If that CONNACK has code 0 and flags below 2,
-- it returns MQTT_SUCCESS, with the client connected, the session flag, the client id and the keep alive
-- time stored, and the first packet identifier 1, but with the socket closed.
pub mqtt_client_create_accepted :
    (fuel : ℕ) (system : System) (t : Texts) (s : ConnectSettings) (session : Session)
    (sent flags : ℕ)
    → Fit t
    → Answered system session.world.attempts session.receptions (connect_packet t s) sent flags 0
    → flags < 2
    → mqtt_client_create (suc fuel) system true (some (config_of t s)) session
      ≡ ok (
        record (heard session (take sent (connect_packet t s))) {
          client = record session.client {
            connected = true;
            socket_fd = some 0;
            keep_alive = chosen_keep_alive (config_of t s);
            client_id = some t.client_id;
            client_id_len = length t.client_id;
            sp = flags;
            packet_id_next = 1;
          };
          closed = session.closed ++ (system.socket ∷ []);
          keep_alive_timestamp = system.time;
        },
        0,
      )
unfolding connack_received code_checked connect_accepted disconnected network_close
mqtt_client_create_accepted fuel system t s session sent flags fit h flags_ok =
    sym (create_opened (suc fuel) system (config_of t s) session h.socket_there h.known h.accepted)
    ∙ ap (λ x. x >>= disconnected)
        (connect_message_send_answered fuel system t s
          (record session { client = record session.client { socket_fd = system.socket } }) sent
          flags 0 fit h flags_ok)
    ∙ simp (h.copy_granted, copy_client_id_lem t.client_id)

-- For texts that fit, a CONNACK packet of four bytes as the first answer, with flags below 2 and another code
-- than 0, no failure of another call, and an uninitialised local of `connack_message_parse` that is not
-- 0, `mqtt_client_create` sends the CONNECT packet once and returns MQTT_CONNACK_MESSAGE_ERROR, with the
-- socket closed, descriptor 0 in the connection, and nothing else of the client changed but the session flag.
pub mqtt_client_create_refused :
    (fuel : ℕ) (system : System) (t : Texts) (s : ConnectSettings) (session : Session)
    (sent flags code : ℕ)
    → Fit t
    → Answered system session.world.attempts session.receptions (connect_packet t s) sent flags code
    → flags < 2
    → code ≢ 0
    → mqtt_client_create (suc fuel) system true (some (config_of t s)) session
      ≡ ok (
        record (heard session (take sent (connect_packet t s))) {
          client = record session.client { socket_fd = some 0; sp = flags };
          closed = session.closed ++ (system.socket ∷ []);
        },
        mqtt_connack_message_error,
      )
unfolding connack_received disconnected network_close
mqtt_client_create_refused fuel system t s session sent flags code fit h flags_ok ne =
    let opened : Session = record session {
      client = record session.client { socket_fd = system.socket };
    } in
    sym (create_opened (suc fuel) system (config_of t s) session h.socket_there h.known h.accepted)
    ∙ ap (λ x. x >>= disconnected)
        (connect_message_send_answered fuel system t s opened sent flags code fit h flags_ok)
    ∙ simp (ne→== code 0 ne)
