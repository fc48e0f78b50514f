-- ===== src/Client/Api.antt =====
-- src/client/client.c, and `network_connect` and `network_close` of src/network/network.c: the calls
-- that an application makes.
pub mod Returns
pub mod Created
pub mod Connected
pub mod Subscribed
pub mod Ends
use simple_mqtt.Base.{
  ℕ, zero, suc, ◌+◌, ◌%◌, Bool, true, false, not, ◌||◌, Option, none, some, [], ◌∷◌, ◌++◌, Bytes,
  read, length, ◌-◌, ◌==◌, if◌then◌else◌, Outcome, ok, err, fault, stuck, ◌>>=◌, is_null,
}
use simple_mqtt.Message.Codes
use simple_mqtt.Message.Filters.{located}
use simple_mqtt.Message.Connect.{ConnectSettings, connect_message_len_calc, connect_message_build}
use simple_mqtt.Message.Connack.{ConnackOut, connack_message_parse}
use simple_mqtt.Message.Subscribe.{subscribe_message_len_calc, subscribe_message_build}
use simple_mqtt.Client.Keep.{message_send_add}
use simple_mqtt.Client.Process.{World, network_send}
use simple_mqtt.Client.Receive.{cleared}
use simple_mqtt.Client.Connection.{
  Client, ClientConfig, System, Session, Called, connack_message_len, mqtt_keep_alive_default,
  Waited, message_send_and_wait_ack,
}

-- Code that looks at the return code of a call, and goes on in both cases.
abbrev pub on_code {ℓ} : {A : Type ℓ} → Outcome A → (ℕ → Called) → (A → Called) → Called
on_code (ok a) failed done = done a
on_code (err code) failed done = failed code
on_code fault failed done = fault
on_code stuck failed done = stuck

-- The descriptor that is stored in the connection, and the return code.
unfoldable pub network_connect : System → Option ℕ × ℕ
network_connect system =
    if is_null system.socket
    then (none, Codes.mqtt_broker_connect_error)
    else if not system.address_known
    then (system.socket, Codes.mqtt_broker_hostname_error)
    else if not system.accepted
    then (system.socket, Codes.mqtt_broker_connect_error)
    else (system.socket, Codes.mqtt_success)

-- What close(2) returns is only looked at in `mqtt_client_destroy`.
unfoldable pub network_close : Session → Session
network_close session = record session {
  closed = session.closed ++ (session.client.socket_fd ∷ []);
}

-- The keep alive time that is used. The C code also writes it back into the configuration, which is not
-- returned here: another call with that configuration chooses the same time.
abbrev pub chosen_keep_alive : ClientConfig → ℕ
chosen_keep_alive config =
    if config.keep_alive == 0 then mqtt_keep_alive_default else config.keep_alive

abbrev pub connect_settings : ClientConfig → ConnectSettings
connect_settings config = record {
  keep_alive = chosen_keep_alive config;
  clean_session = config.clean_session;
  will_retain = config.will_retain;
  will_qos = config.will_qos;
}

-- `memcpy(client->client_id, config->client_id, config->client_id_len)` into the memory that
-- `malloc` has, or has not, returned.
pub copy_client_id : Bool → Option Bytes → ℕ → Outcome (Option Bytes)
copy_client_id granted text zero = ok (if granted then some [] else none)
copy_client_id granted none (suc len) = fault
copy_client_id false (some text) (suc len) = fault
copy_client_id true (some text) (suc len) = do copy ← read (suc len) text; ok (some copy)

-- What is stored in the client when the server has accepted the connection.
pub connect_accepted : System → ClientConfig → Session → Called
unfolding copy_client_id
connect_accepted system config session = do
  copy ← copy_client_id system.copy_granted config.payload.client_id config.payload.client_id_len
  ok (
    record session {
      client = record session.client {
        connected = true;
        keep_alive = chosen_keep_alive config;
        client_id = copy;
        client_id_len = config.payload.client_id_len;
        packet_id_next = 1;
      };
      keep_alive_timestamp = system.time;
    },
    Codes.mqtt_success,
  )

-- `client->sp` is stored by the parser, on an error too.
abbrev pub store_sp : Session → Option ℕ → Session
store_sp session none = session
store_sp session (some sp) = record session { client = record session.client { sp = sp } }

-- The test of `connack_code`, which holds nothing if it was never stored.
pub code_checked : System → ClientConfig → Session → Option ℕ → Called
unfolding connect_accepted
code_checked system config session none = fault
code_checked system config session (some code) =
    if not (code == 0)
    then ok (session, Codes.mqtt_client_connect_error)
    else connect_accepted system config session

-- The answer is looked at.
pub connack_received : System → ClientConfig → Session → ConnackOut → Called
unfolding code_checked
connack_received system config session out =
    let stored = store_sp session out.sp in
    if not (out.ret == 0)
    then ok (stored, out.ret)
    else code_checked system config stored out.connack_code

-- `connack_message` is cleared before the answer is stored in it.
pub answer_received : System → ClientConfig → Session → Waited → Called
unfolding connack_received
answer_received system config session waited =
    let session' = record session { world = waited.world; receptions = waited.receptions } in
    if not (waited.ret == 0) then ok (session', waited.ret) else (do
      out ←
          connack_message_parse system.junk
            (some (waited.ack ++ cleared (connack_message_len - length waited.ack)))
            (length waited.ack) true
      connack_received system config session' out)

unfoldable pub connect_message_send : ℕ → System → ClientConfig → Session → Called
unfolding answer_received
connect_message_send fuel system config session =
    if not system.message_granted
    then ok (session, Codes.mqtt_memory_nobuffer)
    else on_code
        (connect_message_build system.payload_granted config.payload (connect_settings config)
          (connect_message_len_calc config.payload))
        (λ code. ok (session, code))
        (λ message. do
          waited ←
              message_send_and_wait_ack fuel system message connack_message_len session.world
                session.receptions 0
          answer_received system config session waited)

-- `network_close`, and `memset` of the connection.
pub disconnected : Session × ℕ → Called
disconnected (session, ret) =
    let closed = network_close session in
    ok (record closed { client = record closed.client { socket_fd = some 0 } }, ret)

-- `goto disconnect` stands behind a test, and the label behind that: both branches come to it.
unfoldable pub mqtt_client_create : ℕ → System → Bool → Option ClientConfig → Session → Called
unfolding disconnected
mqtt_client_create fuel system client_ok none session = ok (session, Codes.mqtt_invalid_param)
mqtt_client_create fuel system false (some config) session = ok (session, Codes.mqtt_invalid_param)
mqtt_client_create fuel system true (some config) session =
    let (socket_fd, ret) = network_connect system in
    let opened = record session { client = record session.client { socket_fd = socket_fd } } in
    if not (ret == 0)
    then ok (opened, ret)
    else (do result ← connect_message_send fuel system config opened; disconnected result)

-- The next packet identifier, a uint16_t.
unfoldable pub next_packet_id : ℕ → ℕ
next_packet_id packet_id = let next = (packet_id + 1) % 65536 in if next == 0 then 1 else next

-- The message is kept until it is acknowledged.
pub subscribe_keep : System → Session → Bytes → ℕ → Called
unfolding next_packet_id
subscribe_keep system session message qos =
    on_code
      (message_send_add true system.node_granted system.copy_granted session.world.send_list
        session.client.packet_id_next message (length message) qos)
      (λ code. ok (session, Codes.mqtt_memory_nobuffer))
      (λ list. ok (
        record session {
          client = record session.client {
            packet_id_next = next_packet_id session.client.packet_id_next;
          };
          world = record session.world { send_list = list };
        },
        Codes.mqtt_success,
      ))

pub subscribe_sent : System → Session → Bytes → ℕ → World × Bool → Called
unfolding subscribe_keep
subscribe_sent system session message qos (world, false) =
    ok (record session { world = world }, Codes.mqtt_message_send_error)
subscribe_sent system session message qos (world, true) =
    subscribe_keep system (record session { world = world }) message qos

-- `topic` is the text at that pointer; `client_ok` says that the client is not NULL.
unfoldable pub mqtt_client_subscribe : System → Bool → Session → Option Bytes → ℕ → ℕ → Called
unfolding subscribe_sent
mqtt_client_subscribe system client_ok session none topic_len qos =
    ok (session, Codes.mqtt_invalid_param)
mqtt_client_subscribe system client_ok session (some topic) topic_len qos =
    let filters = located topic topic_len qos ∷ [] in
    if not client_ok || topic_len == 0 then ok (session, Codes.mqtt_invalid_param) else (do
      size ← subscribe_message_len_calc filters true
      if not system.message_granted
          then ok (session, Codes.mqtt_memory_nobuffer)
          else on_code
              (subscribe_message_build session.client.packet_id_next filters (some size)
                (some size))
              (λ code. ok (session, code))
              (λ message.
                subscribe_sent system session message qos
                  (network_send system.send session.world message)))

-- It does nothing more than look at its arguments; `pointers_ok` says that none is NULL.
unfoldable pub mqtt_client_publish : Bool → ℕ → ℕ → ℕ → ℕ
mqtt_client_publish pointers_ok topic_len payload_len qos =
    if not pointers_ok || topic_len == 0 || payload_len == 0
    then Codes.mqtt_invalid_param
    else if not (qos == 0)
    then Codes.mqtt_publish_qos_error
    else Codes.mqtt_success

-- The client id is given back, if there is one, and the socket is closed. What close(2) returns, where `none`
-- is -1, is an argument and what the call returns.
unfoldable pub mqtt_client_destroy : Option ℕ → Session → Session × Option ℕ
mqtt_client_destroy answer session =
    let released =
      if session.client.client_id_len == 0 || is_null session.client.client_id
      then session
      else record session { client = record session.client { client_id = none } } in
    (network_close released, answer)
