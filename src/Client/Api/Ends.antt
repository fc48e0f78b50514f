-- ===== src/Client/Api/Ends.antt =====
-- src/client/client.c: the theorem that `mqtt_client_create` ends.
use simple_mqtt.Base.{
  if-ne-stuck, ℕ, zero, suc, ◌-◌, ◌≢◌, refl, Bool, true, false, not, Option, none, some, [], ◌++◌,
  Bytes, read, length, ◌==◌, Outcome, ok, err, fault, stuck, >>=-ne-stuck,
}
use simple_mqtt.Message.Connect.{connect_message_len_calc, connect_message_build}
use simple_mqtt.Message.Connect.Ends.{connect_message_build-ne-stuck, read-ne-stuck}
use simple_mqtt.Message.Connack.{connack_message_parse}
use simple_mqtt.Message.Connack.Outcomes.{connack_message_parse-ne-stuck}
use simple_mqtt.Client.Receive.{cleared}
use simple_mqtt.Client.Connection.{
  ClientConfig, System, Session, Called, Waited, bytes, connack_message_len,
}
use simple_mqtt.Client.Connection.Waiting.{message_send_and_wait_ack_ends}
use simple_mqtt.Client.Api.{
  on_code, network_connect, connect_settings, copy_client_id, connect_accepted, store_sp,
  code_checked, connack_received, answer_received, connect_message_send, disconnected,
  mqtt_client_create,
}

on_code-ne-stuck :
    (m : Outcome Bytes) (failed : ℕ → Called) (done : Bytes → Called)
    → m ≢ stuck
    → ((code : ℕ) → failed code ≢ stuck)
    → ((message : Bytes) → done message ≢ stuck)
    → on_code m failed done ≢ stuck
on_code-ne-stuck (ok a) failed done h bad good = good a
on_code-ne-stuck (err code) failed done h bad good = bad code
on_code-ne-stuck fault failed done h bad good = λ e. cc
on_code-ne-stuck stuck failed done h bad good = λ e. h refl

copy_client_id-ne-stuck :
    (granted : Bool) (text : Option Bytes) (len : ℕ) → copy_client_id granted text len ≢ stuck
unfolding copy_client_id
copy_client_id-ne-stuck granted text zero = λ e. cc
copy_client_id-ne-stuck granted none (suc len) = λ e. cc
copy_client_id-ne-stuck false (some text) (suc len) = λ e. cc
copy_client_id-ne-stuck true (some text) (suc len) =
    >>=-ne-stuck (read (suc len) text) _ (read-ne-stuck (suc len) text) (λ t e p. cc)

module _ (system : System) (config : ClientConfig) where
  connect_accepted-ne-stuck : (session : Session) → connect_accepted system config session ≢ stuck
  unfolding connect_accepted
  connect_accepted-ne-stuck session =
      >>=-ne-stuck
        (copy_client_id system.copy_granted config.payload.client_id config.payload.client_id_len) _
        (copy_client_id-ne-stuck system.copy_granted config.payload.client_id
          config.payload.client_id_len)
        (λ copy e p. cc)

  code_checked-ne-stuck :
      (session : Session) (code : Option ℕ) → code_checked system config session code ≢ stuck
  unfolding code_checked
  code_checked-ne-stuck session none = λ e. cc
  code_checked-ne-stuck session (some code) =
      if-ne-stuck (not (code == 0)) _ _ (λ e. cc) (connect_accepted-ne-stuck session)

  answer_received-ne-stuck :
      (session : Session) (waited : Waited) → answer_received system config session waited ≢ stuck
  unfolding answer_received connack_received
  answer_received-ne-stuck session waited =
      let answer = waited.ack ++ cleared (connack_message_len - length waited.ack) in
      let session' = record session { world = waited.world; receptions = waited.receptions } in
      if-ne-stuck (not (waited.ret == 0)) _ _ (λ e. cc)
        (>>=-ne-stuck (connack_message_parse system.junk (some answer) (length waited.ack) true) _
          (connack_message_parse-ne-stuck system.junk answer (length waited.ack))
          (λ out e.
            if-ne-stuck (not (out.ret == 0)) _ _ (λ e. cc)
              (code_checked-ne-stuck (store_sp session' out.sp) out.connack_code)))

  connect_message_send-ne-stuck :
      (session : Session)
      → ((n len : ℕ) → system.recv n len ≢ bytes [])
      → connect_message_send 4 system config session ≢ stuck
  unfolding connect_message_send
  connect_message_send-ne-stuck session answers =
      if-ne-stuck (not system.message_granted) _ _ (λ e. cc)
        (on_code-ne-stuck
          (connect_message_build system.payload_granted config.payload (connect_settings config)
            (connect_message_len_calc config.payload))
          _ _
          (connect_message_build-ne-stuck system.payload_granted config.payload
            (connect_settings config) (connect_message_len_calc config.payload))
          (λ code e. cc)
          (λ message.
            let (w, ends, bounded) =
              message_send_and_wait_ack_ends system message connack_message_len answers
                session.world session.receptions in
            rw ends (answer_received-ne-stuck session w)))

-- Where recv(2) never returns 0, so that the server does not close the connection, fuel 4 is enough for
-- `mqtt_client_create`, whatever the configuration, the client and the answers of the operating system and the
-- allocator are: the call comes to an end.
pub mqtt_client_create-ne-stuck :
    (system : System) (client_ok : Bool) (config : Option ClientConfig) (session : Session)
    → ((n len : ℕ) → system.recv n len ≢ bytes [])
    → mqtt_client_create 4 system client_ok config session ≢ stuck
unfolding mqtt_client_create disconnected
mqtt_client_create-ne-stuck system client_ok none session answers = λ e. cc
mqtt_client_create-ne-stuck system false (some config) session answers = λ e. cc
mqtt_client_create-ne-stuck system true (some config) session answers =
    let opened = record session {
      client = record session.client { socket_fd = (network_connect system).0 };
    } in
    if-ne-stuck (not ((network_connect system).1 == 0)) _ _ (λ e. cc)
      (>>=-ne-stuck (connect_message_send 4 system config opened) _
        (connect_message_send-ne-stuck system config opened answers) (λ r e p. cc))
