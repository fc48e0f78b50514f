-- ===== src/Client/Timer.antt =====
-- src/client/client_deamon.c: `process_timer_event`, which pings the server and looks for messages that
-- have not been acknowledged in time.
pub mod Expiry
pub mod Keepalive
pub mod Unregistered
use simple_mqtt.Base.{
  ℕ, ◌+◌, Bool, true, false, not, ◌||◌, Option, none, some, List, [], ◌∷◌, ◌++◌, ltb, leb, ◌==◌,
  if◌then◌else◌, Outcome, ok, err, fault, stuck, ◌>>=◌, ◌>>◌, defined_if,
}
use simple_mqtt.Message.Codes
use simple_mqtt.Client.Callbacks.{Callbacks, is_registered}
use simple_mqtt.Client.Keep.{MessageSend, message_send_find, message_send_remove}
use simple_mqtt.Client.Process.{World, Send, pingreq_msg_sent}
use simple_mqtt.Client.Connection.{Session}

-- What the operating system does: whether read(2) succeeds, and what time(2) returns before and
-- after a ping; and the callbacks that are registered.
pub record Tick : Type 0 where
  pub readable : Bool
  pub now : ℕ
  pub later : ℕ
  pub callbacks : Callbacks

-- `none` for `ret` is -1. `timeouts` are the messages that `timeout_cb` was called with, which is taken to
-- leave the state alone, as `timeout_cb_default` does.
pub record Ticked : Type 0 where
  pub session : Session
  pub timeouts : List MessageSend
  pub ret : Option ℕ

-- `curr->timestamp + ctx->client->timeout_sec < now`
pub is_expired : ℕ → ℕ → MessageSend → Bool
is_expired timeout_sec now curr = ltb (curr.timestamp + timeout_sec) now

-- `message_send_remove` takes the first node with the identifier off the list. Where that is `curr`
-- itself, no node in `before` having the identifier, `curr` has been freed when `curr->next` is read.
pub remove_expired : List MessageSend → MessageSend → Outcome (List MessageSend)
remove_expired before curr =
    if message_send_find before curr.packet_id == Codes.mqtt_success
    then message_send_remove true before curr.packet_id
    else fault

-- The while loop, at the node behind those in `before`: the list afterwards, and the calls of `timeout_cb`.
-- The flag says whether that is not NULL; it is called without a test.
unfoldable pub timeout_loop :
    Bool
    → ℕ
    → ℕ
    → List MessageSend
    → List MessageSend
    → List MessageSend
    → Outcome (List MessageSend × List MessageSend)
unfolding is_expired remove_expired
timeout_loop registered timeout_sec now before [] timeouts = ok (before, timeouts)
timeout_loop registered timeout_sec now before (curr ∷ next) timeouts =
    let kept = timeout_loop registered timeout_sec now (before ++ (curr ∷ [])) next timeouts in
    let removed : Outcome (List MessageSend × List MessageSend) = (do
      defined_if registered
      before' ← remove_expired before curr
      timeout_loop registered timeout_sec now (before' ++ (curr ∷ [])) next
          (timeouts ++ (curr ∷ []))) in
    if is_expired timeout_sec now curr then removed else kept

-- From the walk on.
pub check_timeouts : Callbacks → ℕ → Session → Outcome Ticked
unfolding timeout_loop
check_timeouts callbacks now session = do
  walked ←
      timeout_loop (is_registered callbacks.timeout_cb) session.client.timeout_sec now []
        session.world.send_list []
  ok (record {
    session = record session { world = record session.world { send_list = walked.0 } };
    timeouts = walked.1;
    ret = some Codes.mqtt_success;
  })

-- From the return code of `pingreq_msg_sent` on.
pub after_ping : Tick → Session → World × ℕ → Outcome Ticked
unfolding check_timeouts
after_ping tick session (world, ret) =
    let pinged = record session { world = world } in
    if not (ret == Codes.mqtt_success)
    then ok (record { session = pinged; timeouts = []; ret = some ret })
    else check_timeouts tick.callbacks tick.now
        (record pinged { keep_alive_timestamp = tick.later })

unfoldable pub process_timer_event : Send → Tick → Session → Outcome Ticked
unfolding after_ping check_timeouts
process_timer_event send tick session =
    if not tick.readable
    then ok (record { session = session; timeouts = []; ret = none })
    else if leb (session.keep_alive_timestamp + session.client.keep_alive) tick.now
    then pingreq_msg_sent send session.world >>= after_ping tick session
    else check_timeouts tick.callbacks tick.now session
