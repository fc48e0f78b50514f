-- ===== src/Message/Suback.antt =====
-- src/message/msg_suback.c: the array of granted QoS values, and the SUBACK packet.
pub mod Array
pub mod RoundTrip
pub mod Sound
pub mod Within
use simple_mqtt.Base.{
  ℕ, zero, suc, ◌+◌, ◌-◌, ◌*◌, ◌%◌, ◌<◌, ◌≡◌, Bool, true, false, not, ◌&&◌, ◌||◌, Option, none,
  some, [], ◌∷◌, ◌++◌, Bytes, net16, get16, deref, emit, length, take, drop, ltb, leb, ◌==◌,
  if◌then◌else◌, sub32, Outcome, ok, err, fault, ◌>>=◌, ◌>>◌, refuse_if, defined_if, non_null,
}
use simple_mqtt.Message.Codes
use simple_mqtt.Message.Header.{parse_header}
use simple_mqtt.Message.Remain.{remain_length_encode}

-- An allocation of `room` bytes, of which the first ones have been stored.
pub record Buffer : Type 0 where
  pub room : ℕ
  pub stored : Bytes

pub record SubackData : Type 0 where
  pub qos : Option Buffer
  pub size : ℕ
  pub capacity : ℕ

-- SUBACK_TOPIC_NUM_DEFAULT and SUBACK_TOPIC_NUM_THRESHOLD
abbrev pub suback_topic_num_default : ℕ
suback_topic_num_default = 10

abbrev pub suback_topic_num_threshold : ℕ
suback_topic_num_threshold = 40

-- `granted` says whether `malloc` returns memory. The flag `outs` is `data != NULL`.
unfoldable pub suback_data_init : Bool → Bool → ℕ → Outcome SubackData
suback_data_init granted outs capacity = do
  refuse_if (not outs) Codes.mqtt_invalid_param
  let capacity' = if capacity == 0 then suback_topic_num_default else capacity
  refuse_if (not granted) Codes.mqtt_memory_nobuffer
  ok (record {
    qos = some (record { room = capacity'; stored = [] });
    size = 0;
    capacity = capacity';
  })

-- The uint16_t capacity after a growth.
abbrev pub new_capacity : ℕ → ℕ
new_capacity capacity =
    if ltb capacity suback_topic_num_threshold
    then capacity * 2 % 65536
    else (capacity + suback_topic_num_default) % 65536

-- `realloc` keeps the bytes that fit; from NULL it allocates.
pub realloc : Option Buffer → ℕ → Buffer
realloc none room = record { room = room; stored = [] }
realloc (some b) room = record { room = room; stored = take room b.stored }

-- `data->qos[data->size++] = qos`, at the first index that has not been stored.
unfoldable pub store_next : Option Buffer → SubackData → ℕ → Outcome SubackData
store_next none arr qos = fault
store_next (some b) arr qos = do
  defined_if (ltb arr.size b.room && arr.size == length b.stored)
  ok (record arr {
    qos = some (record b { stored = b.stored ++ (qos ∷ []) });
    size = (arr.size + 1) % 65536;
  })

-- `granted` says whether `realloc` returns memory.
unfoldable pub suback_data_append : Bool → Option SubackData → ℕ → Outcome SubackData
unfolding realloc store_next
suback_data_append granted none qos = err Codes.mqtt_invalid_param
suback_data_append granted (some arr) qos =
    if leb arr.capacity arr.size
    then (do
      refuse_if (not granted) Codes.mqtt_memory_nobuffer
      let capacity = new_capacity arr.capacity
      let buffer = some (realloc arr.qos capacity)
      store_next buffer (record arr { qos = buffer; capacity = capacity }) qos)
    else store_next arr.qos arr qos

-- The array afterwards, and what `free` is given.
unfoldable pub suback_data_release : Option SubackData → Outcome (SubackData × Option Buffer)
suback_data_release none = err Codes.mqtt_invalid_param
suback_data_release (some arr) = ok (record arr { qos = none }, none)

-- A QoS that is neither 0, 1 or 2 nor the refusal.
abbrev pub qos_refused : ℕ → Bool
qos_refused qos = leb Codes.mqtt_qos_max qos && not (qos == Codes.mqtt_qos_reject)

-- The loop of the builder, with `room` bytes of the packet's buffer left.
pub suback_items : ℕ → Bytes → ℕ → Outcome Bytes
suback_items zero qos room = ok []
suback_items (suc left) [] room = fault
suback_items (suc left) (q ∷ qos) room =
    let rest = (do written ← suback_items left qos (room - 1); ok (q ∷ written)) in
    if qos_refused q then err Codes.mqtt_suback_qos_error else if room == 0 then fault else rest

abbrev pub stored_bytes : Option Buffer → Bytes
stored_bytes none = []
stored_bytes (some b) = b.stored

-- `message` is the size of the buffer, and `message_len` is `*message_len`.
unfoldable pub suback_message_build : ℕ → Option SubackData → Option ℕ → Option ℕ → Outcome Bytes
suback_message_build packet_id arr message message_len = do
  arr' ← non_null arr Codes.mqtt_invalid_param
  cap ← non_null message Codes.mqtt_invalid_param
  given ← non_null message_len Codes.mqtt_invalid_param
  let remain_len = 2 + arr'.size
  buffer ← remain_length_encode 4 remain_len
  refuse_if (ltb given (remain_len + length buffer + 1)) Codes.mqtt_invalid_param
  header ←
      emit cap (Codes.message_type_encode Codes.message_type_suback ∷ (buffer ++ net16 packet_id))
  items ← suback_items arr'.size (stored_bytes arr'.qos) (cap - length header)
  ok (header ++ items)

-- The loop of the parser: `message` from index `i` on. `granted i` says whether `realloc` returns
-- memory in round `i`. On an error the caller does not look at the array.
unfoldable pub suback_loop : (ℕ → Bool) → ℕ → ℕ → Bytes → SubackData → Outcome SubackData
suback_loop granted i message_len [] arr = if ltb i message_len then fault else ok arr
suback_loop granted i message_len (q ∷ message) arr =
    if not (ltb i message_len)
    then ok arr
    else if qos_refused q
    then err Codes.mqtt_suback_qos_error
    else (do
      arr' ← suback_data_append (granted i) (some arr) q
      suback_loop granted (i + 1) message_len message arr')

-- `first_granted` is for the `malloc` of the array.
unfoldable pub suback_message_parse :
    Bool → (ℕ → Bool) → Option Bytes → ℕ → Bool → Outcome (ℕ × SubackData)
suback_message_parse first_granted granted none message_len outs = err Codes.mqtt_invalid_param
suback_message_parse first_granted granted (some message) message_len outs = do
  refuse_if (message_len == 0 || not outs) Codes.mqtt_invalid_param
  (body, body_len) ←
      parse_header (Codes.message_type_encode Codes.message_type_suback)
        Codes.mqtt_suback_message_error message message_len
  packet_id ← get16 body
  let items_len = sub32 body_len 2
  arr ← suback_data_init first_granted true (items_len % 65536)
  arr' ← suback_loop granted 0 items_len (drop 2 body) arr
  ok (packet_id, arr')
