-- ===== src/Client/Keep/Store.antt =====
-- src/client/message_keep.c: what the list is for whoever calls its functions, a queue of messages for each
-- packet identifier.
use simple_mqtt.Base.{
  ℕ, zero, suc, ◌+◌, true, List, [], ◌∷◌, ◌++◌, Bytes, length, ◌==◌, if◌then◌else◌, Outcome, ok,
  err, fault, stuck, ◌>>=◌,
}
use simple_mqtt.Client.Keep.{MessageSend, message_send_add, message_send_find, message_send_remove}

-- A call of `message_send_add`, `message_send_find` or `message_send_remove`.
pub data KeepCall : Type 0 where
  adding : ℕ → Bytes → ℕ → KeepCall
  finding removing : ℕ → KeepCall

-- The list that a removal leaves, with its return code.
abbrev pub after_remove :
    List MessageSend → Outcome (List MessageSend) → Outcome (List MessageSend × ℕ)
after_remove list (ok list') = ok (list', 0)
after_remove list (err code) = ok (list, code)
after_remove list fault = fault
after_remove list stuck = stuck

-- One call with memory granted, and calls one after the other, with what they return.
abbrev pub keep_call : KeepCall → List MessageSend → Outcome (List MessageSend × ℕ)
keep_call (adding packet_id message qos) list = do
  list' ← message_send_add true true true list packet_id message (length message) qos
  ok (list', 0)
keep_call (finding packet_id) list = ok (list, message_send_find list packet_id)
keep_call (removing packet_id) list = after_remove list (message_send_remove true list packet_id)

abbrev pub keep_calls : List KeepCall → List MessageSend → Outcome (List MessageSend × List ℕ)
keep_calls [] list = ok (list, [])
keep_calls (c ∷ calls) list = do
  (list', code) ← keep_call c list
  (list'', codes) ← keep_calls calls list'
  ok (list'', code ∷ codes)

-- How many messages there are, and those of each identifier, the oldest first.
pub record Store : Type 0 where
  pub size : ℕ
  pub waiting : ℕ → List MessageSend

-- The message that is kept.
abbrev pub kept_message : ℕ → Bytes → ℕ → MessageSend
kept_message packet_id message qos = record {
  packet_id = packet_id;
  message = message;
  message_len = length message;
  qos = qos;
  timestamp = 0;
}

abbrev pub found_code : List MessageSend → ℕ
found_code [] = 1
found_code (m ∷ list) = 0

-- A removal, from the number of messages and those of the identifier: with no message at all it is
-- undefined.
abbrev pub dequeue : ℕ → Store → ℕ → List MessageSend → Outcome (Store × ℕ)
dequeue packet_id store zero queue = fault
dequeue packet_id store (suc n) [] = ok (store, 1)
dequeue packet_id store (suc n) (m ∷ queue) =
    ok (record { size = n; waiting = λ j. if packet_id == j then queue else store.waiting j }, 0)

abbrev pub store_call : KeepCall → Store → Outcome (Store × ℕ)
store_call (adding packet_id message qos) store = ok (
  record {
    size = store.size + 1;
    waiting = λ j.
        if packet_id == j
        then store.waiting j ++ (kept_message packet_id message qos ∷ [])
        else store.waiting j;
  },
  0,
)
store_call (finding packet_id) store = ok (store, found_code (store.waiting packet_id))
store_call (removing packet_id) store = dequeue packet_id store store.size (store.waiting packet_id)

abbrev pub store_calls : List KeepCall → Store → Outcome (Store × List ℕ)
store_calls [] store = ok (store, [])
store_calls (c ∷ calls) store = do
  (store', code) ← store_call c store
  (store'', codes) ← store_calls calls store'
  ok (store'', code ∷ codes)

-- The messages of an identifier in a list.
abbrev pub those : ℕ → List MessageSend → List MessageSend
those packet_id [] = []
those packet_id (m ∷ list) =
    let rest = those packet_id list in if m.packet_id == packet_id then m ∷ rest else rest

abbrev pub store_of : List MessageSend → Store
store_of list = record { size = length list; waiting = λ j. those j list }

abbrev pub stored {ℓ} : {A : Type ℓ} → List MessageSend × A → Outcome (Store × A)
stored (list, a) = ok (store_of list, a)
