-- ===== src/Message/Suback/Array.antt =====
-- src/message/msg_suback.c: the invariant of the array of QoS values, and theorems on its operations.
use simple_mqtt.Base.{
  ℕ, ◌+◌, ◌≤◌, ◌<◌, ◌≡◌, ◌⊎◌, refl, arith, Bool, true, false, some, [], ◌∷◌, ◌++◌, Bytes, length,
  length-append, take_all, leb, ◌==◌, if◌then◌else◌, ok, err, fault, IsU16,
}
use simple_mqtt.Message.Codes.{mqtt_memory_nobuffer}
use simple_mqtt.Message.Suback.{SubackData, suback_data_init, suback_data_append, new_capacity}

-- The array holds `items`: its memory is there and as large as `capacity` says, and its first
-- `size` bytes are the items.
pub record Holds (arr : SubackData) (items : Bytes) : Type 0 where
  pub buffer : arr.qos ≡ some (record { room = arr.capacity; stored = items })
  pub counted : arr.size ≡ length items
  pub within : arr.size ≤ arr.capacity
  pub positive : 1 ≤ arr.capacity
  pub bounded : IsU16 arr.capacity

-- When memory is granted, a new array for a sixteen-bit `capacity` is empty, satisfies the
-- invariant, and has room for `capacity` values, or for ten if that is 0.
pub suback_data_init-Holds :
    (capacity : ℕ)
    → IsU16 capacity
    → (arr : SubackData) × (suback_data_init true true capacity ≡ ok arr)
      × Holds arr []
      × (arr.capacity ≡ (if capacity == 0 then 10 else capacity))
unfolding suback_data_init
suback_data_init-Holds capacity h = (
  record {
    qos = some (record { room = if capacity == 0 then 10 else capacity; stored = [] });
    size = 0;
    capacity = if capacity == 0 then 10 else capacity;
  },
  refl,
  record {
    buffer = refl;
    counted = refl;
    within = omega arith;
    positive = ground arith;
    bounded = ground arith;
  },
  refl,
)

-- The array after an append to one that holds `items`.
abbrev pub appended : SubackData → Bytes → ℕ → SubackData
appended arr items qos =
    let capacity' = if leb arr.capacity arr.size then new_capacity arr.capacity else arr.capacity in
    record {
      qos = some (record { room = capacity'; stored = items ++ (qos ∷ []) });
      size = arr.size + 1;
      capacity = capacity';
    }

-- An append stores the value behind the others and keeps the invariant, growing the array when it
-- is full, if `realloc` then returns memory and the new capacity has sixteen bits.
pub suback_data_append-Holds :
    (granted : Bool) (arr : SubackData) (items : Bytes) (qos : ℕ)
    → Holds arr items
    → (arr.size < arr.capacity) ⊎ ((granted ≡ true) × (arr.capacity ≤ 65525))
    → (suback_data_append granted (some arr) qos ≡ ok (appended arr items qos))
      × Holds (appended arr items qos) (items ++ (qos ∷ []))
unfolding suback_data_append
suback_data_append-Holds granted arr items qos h free = (append_ok, append_Holds)
  where
    append_ok : suback_data_append granted (some arr) qos ≡ ok (appended arr items qos)
    append_ok = rw h.buffer (ground (arith, take_all (new_capacity arr.capacity) items))

    append_Holds : Holds (appended arr items qos) (items ++ (qos ∷ []))
    append_Holds = ground (arith, length-append items (qos ∷ []))

-- A full array that `realloc` does not grow is refused.
pub suback_data_append_refused :
    (arr : SubackData) (items : Bytes) (qos : ℕ)
    → Holds arr items
    → arr.size ≡ arr.capacity
    → suback_data_append false (some arr) qos ≡ err mqtt_memory_nobuffer
unfolding suback_data_append
suback_data_append_refused arr items qos h full = ground arith

-- On a full array of 65526 values or more the new capacity wraps: an append for which `realloc`
-- succeeds shrinks the array, and writes outside it.
pub suback_data_append_wraps :
    (arr : SubackData) (items : Bytes) (qos : ℕ)
    → Holds arr items
    → arr.size ≡ arr.capacity
    → 65526 ≤ arr.capacity
    → suback_data_append true (some arr) qos ≡ fault
unfolding suback_data_append
suback_data_append_wraps arr items qos h full big = rw h.buffer (ground arith)

-- Whatever `realloc` does, an append that returns MQTT_SUCCESS has stored the value behind the
-- others, and kept the invariant.
pub suback_data_append_sound :
    (granted : Bool) (arr : SubackData) (items : Bytes) (qos : ℕ) {arr' : SubackData}
    → Holds arr items
    → suback_data_append granted (some arr) qos ≡ ok arr'
    → Holds arr' (items ++ (qos ∷ []))
unfolding suback_data_append
suback_data_append_sound granted arr items qos h e = ground (
  arith,
  rw h.buffer at e,
  length-append items (qos ∷ []),
  take_all (new_capacity arr.capacity) items,
)
