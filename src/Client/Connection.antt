-- ===== src/Client/Connection.antt =====
-- src/client/client.c, with the functions of src/network/network.c that it calls: connecting to
-- a server, subscribing, and giving a client up.
pub mod Waiting
use simple_mqtt.Base.{
  ℕ, zero, suc, ◌+◌, ◌-◌, ◌%◌, Bool, true, false, not, ◌&&◌, ◌||◌, Option, none, some, List, [],
  ◌∷◌, ◌++◌, Bytes, read, length, ltb, ◌==◌, if◌then◌else◌, Outcome, ok, err, fault, stuck, ◌>>=◌,
  ◌>>◌, refuse_if, defined_if, is_null,
}
use simple_mqtt.Message.Codes
use simple_mqtt.Message.Filters.{TopicFilter, located}
use simple_mqtt.Message.Connect.{
  ConnectPayload, ConnectSettings, connect_message_len_calc, connect_message_build,
}
use simple_mqtt.Message.Connack.{ConnackOut, connack_message_parse}
use simple_mqtt.Message.Subscribe.{subscribe_message_len_calc, subscribe_message_build}
use simple_mqtt.Client.Keep.{MessageSend, message_send_add}
use simple_mqtt.Client.Process.{World, Send, network_send}

-- `mqtt_client_t`. The socket is a file descriptor; `none` is -1.
pub record Client : Type 0 where
  pub connected : Bool
  pub socket_fd : Option ℕ
  pub keep_alive : ℕ
  pub timeout_sec : ℕ
  pub client_id : Option Bytes
  pub client_id_len : ℕ
  pub sp : ℕ
  pub packet_id_next : ℕ

-- `mqtt_client_config_t` without the address. Its last fields are those of a payload.
pub record ClientConfig : Type 0 where
  pub keep_alive : ℕ
  pub clean_session : ℕ
  pub will_retain : ℕ
  pub will_qos : ℕ
  pub payload : ConnectPayload

-- What recv(2) comes to: bytes, where none at all means that the server has closed the connection;
-- -1 with EAGAIN or EWOULDBLOCK; or -1 with another error.
pub data Received : Type 0 where
  bytes : Bytes → Received
  timed_out broken : Received

-- What the operating system and the allocator do during a call. The calls of recv(2) are numbered;
-- `junk` is what the uninitialised local of `connack_message_parse` holds.
pub record System : Type 0 where
  pub socket : Option ℕ
  pub address_known : Bool
  pub accepted : Bool
  pub send : Send
  pub recv : ℕ → ℕ → Received
  pub message_granted : Bool
  pub payload_granted : Bool
  pub copy_granted : Bool
  pub node_granted : Bool
  pub junk : ℕ
  pub time : ℕ

-- The client, the state that the handlers share, the calls of recv(2) so far, the descriptors
-- that close(2) was called with, and `keep_alive_timestamp`.
pub record Session : Type 0 where
  pub client : Client
  pub world : World
  pub receptions : ℕ
  pub closed : List (Option ℕ)
  pub keep_alive_timestamp : ℕ

-- A call's return code, with the state it leaves.
abbrev pub Called : Type 0
Called = Outcome (Session × ℕ)

-- MQTT_CLIENT_CONNECT_RETRY_MAX, CONNACK_MESSAGE_LEN and MQTT_KEEP_ALIVE_DEFAULT
abbrev pub mqtt_client_connect_retry_max : ℕ
mqtt_client_connect_retry_max = 3

abbrev pub connack_message_len : ℕ
connack_message_len = 5

abbrev pub mqtt_keep_alive_default : ℕ
mqtt_keep_alive_default = 60

-- How `message_send_and_wait_ack` ends: its return code, and what is in `ack_buffer`.
pub record Waited : Type 0 where
  pub world : World
  pub receptions : ℕ
  pub ret : ℕ
  pub ack : Bytes

-- The branches behind recv(2). `again` is the next round of the loop, from the value of `retry`.
pub after_recv : Received → World → ℕ → ℕ → (ℕ → Outcome Waited) → Outcome Waited
after_recv (bytes []) world receptions retry again = again retry
after_recv (bytes (b ∷ ack)) world receptions retry again =
    ok (record { world = world; receptions = receptions; ret = Codes.mqtt_success; ack = b ∷ ack })
after_recv timed_out world receptions retry again = again (retry + 1)
after_recv broken world receptions retry again = ok (record {
  world = world;
  receptions = receptions;
  ret = Codes.mqtt_client_connect_error;
  ack = [];
})

-- One round: the message is sent, and an answer of at most `ack_len` bytes is waited for.
pub send_and_receive :
    System → World × Bool → ℕ → ℕ → ℕ → (World → ℕ → ℕ → Outcome Waited) → Outcome Waited
unfolding after_recv
send_and_receive system (world, false) receptions retry ack_len again = ok (record {
  world = world;
  receptions = receptions;
  ret = Codes.mqtt_message_send_error;
  ack = [];
})
send_and_receive system (world, true) receptions retry ack_len again =
    after_recv (system.recv receptions ack_len) world (receptions + 1) retry
      (again world (receptions + 1))

-- The loop and what follows it. With no fuel left it is still running.
unfoldable pub message_send_and_wait_ack : ℕ → System → Bytes → ℕ → World → ℕ → ℕ → Outcome Waited
unfolding send_and_receive
message_send_and_wait_ack zero system message ack_len world receptions retry = stuck
message_send_and_wait_ack (suc fuel) system message ack_len world receptions retry =
    let round =
      send_and_receive system (network_send system.send world message) receptions retry ack_len
        (message_send_and_wait_ack fuel system message ack_len) in
    if ltb retry mqtt_client_connect_retry_max
    then round
    else ok (record {
      world = world;
      receptions = receptions;
      ret = Codes.mqtt_client_connect_error;
      ack = [];
    })
