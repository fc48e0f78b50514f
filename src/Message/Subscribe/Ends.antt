-- ===== src/Message/Subscribe/Ends.antt =====
-- src/message/msg_subscribe.c: theorems on the end of the parsing loop.
use simple_mqtt.Base.{
  ℕ, zero, suc, ◌+◌, ◌-◌, ◌*◌, ◌^◌, ◌≤◌, ◌<◌, ◌≡◌, ◌≢◌, arith, Bool, true, not, ◌||◌, ◌==◌, Option,
  none, some, List, [], ◌∷◌, ◌++◌, Bytes, net16, net16_value, get16, deref, length, length-append,
  drop, drop_append, drop-add_two, ltb, lt→ltb, sub32, ok, fault, stuck, length-drop, >>=-ne-stuck,
  Bool-cases, inl, inr,
}
use simple_mqtt.Message.Codes.{mqtt_subscribe_message_error}
use simple_mqtt.Message.Field.{locate_string_field}
use simple_mqtt.Message.Filters.{TopicFilter}
use simple_mqtt.Message.Header.{parse_header}
use simple_mqtt.Message.Header.Whole.{packet, parse_header-packet, parse_header-ne-stuck}
use simple_mqtt.Message.Filters.Wire.{unlink_first-ne-stuck}
use simple_mqtt.Message.Subscribe.{
  subscribe_entry, subscribe_loop, subscribe_body_parse, subscribe_message_parse,
}

deref-ne-stuck : (message : Bytes) → deref message ≢ stuck
unfolding deref
deref-ne-stuck [] e = cc
deref-ne-stuck (b ∷ message) e = cc

length_left : (n : ℕ) (message : Bytes) → length (drop 1 (drop n message)) ≤ length message - 1
length_left n message = omega (arith, length-drop 1 (drop n message), length-drop n message)

-- A round of the loop is no loop itself, and one that goes on has read a byte at least.
subscribe_entry-ne-stuck :
    (granted : Bool) (message : Bytes) (message_len : ℕ) (filters : List TopicFilter)
    → subscribe_entry granted message message_len filters ≢ stuck
unfolding subscribe_entry locate_string_field get16
subscribe_entry-ne-stuck granted [] message_len [] e = ground arith
subscribe_entry-ne-stuck granted [] message_len (f ∷ filters) e = ground arith
subscribe_entry-ne-stuck granted (a ∷ []) message_len [] e = ground arith
subscribe_entry-ne-stuck granted (a ∷ []) message_len (f ∷ filters) e = ground arith
subscribe_entry-ne-stuck granted (a ∷ b ∷ message) message_len [] e =
    ground (arith, deref-ne-stuck (drop (a * 256 + b + 2) (a ∷ b ∷ message)))
subscribe_entry-ne-stuck granted (a ∷ b ∷ message) message_len (f ∷ filters) e =
    ground (arith, deref-ne-stuck (drop (a * 256 + b + 2) (a ∷ b ∷ message)))

subscribe_entry_shorter :
    (granted : Bool) (message : Bytes) (message_len : ℕ) (filters filters' : List TopicFilter)
    (message' : Bytes) (message_len' : ℕ)
    → subscribe_entry granted message message_len filters ≡ ok (filters', message', message_len')
    → length message' < length message
unfolding subscribe_entry locate_string_field get16
subscribe_entry_shorter granted [] message_len [] filters' message' message_len' e = ground arith
subscribe_entry_shorter granted [] message_len (f ∷ filters) filters' message' message_len' e =
    ground arith
subscribe_entry_shorter granted (a ∷ []) message_len [] filters' message' message_len' e =
    ground arith
subscribe_entry_shorter granted (a ∷ []) message_len (f ∷ filters) filters' message' message_len'
      e =
    ground arith
subscribe_entry_shorter granted (a ∷ b ∷ message) message_len [] filters' message' message_len' e =
    ground (arith, length_left (a * 256 + b + 2) (a ∷ b ∷ message))
subscribe_entry_shorter granted (a ∷ b ∷ message) message_len (f ∷ filters) filters' message'
      message_len' e =
    ground (arith, length_left (a * 256 + b + 2) (a ∷ b ∷ message))

-- The parsing loop ends on every packet, whatever the allocator does: more fuel than there are
-- bytes is enough.
pub subscribe_loop-ne-stuck :
    (granted : ℕ → Bool) (fuel i : ℕ) (message : Bytes) (message_len : ℕ)
    (filters : List TopicFilter)
    → length message < fuel
    → subscribe_loop granted fuel i message message_len filters ≢ stuck
unfolding subscribe_loop
subscribe_loop-ne-stuck granted zero i message message_len filters h = absurd (omega arith)
subscribe_loop-ne-stuck granted (suc fuel) i message message_len filters h =
    elim (Bool-cases (ltb 0 message_len)) [
      | inr done ↦ rw done (unlink_first-ne-stuck filters)
      | inl more ↦ rw more (
          >>=-ne-stuck (subscribe_entry (granted i) message message_len filters)
            (λ r. subscribe_loop granted fuel (i + 1) r.1 r.2 r.0)
            (subscribe_entry-ne-stuck (granted i) message message_len filters)
            (λ r e. subscribe_loop-ne-stuck granted fuel (i + 1) r.1 r.2 r.0 (
              omega (
                arith,
                subscribe_entry_shorter (granted i) message message_len filters r.0 r.1 r.2 e,
              ))))
    ]

subscribe_body_parse-ne-stuck :
    (head_granted : Bool) (granted : ℕ → Bool) (body : Bytes) (body_len : ℕ)
    → subscribe_body_parse head_granted granted body body_len ≢ stuck
unfolding subscribe_body_parse get16
subscribe_body_parse-ne-stuck head_granted granted [] body_len e = cc
subscribe_body_parse-ne-stuck head_granted granted (a ∷ []) body_len e = cc
subscribe_body_parse-ne-stuck head_granted granted (a ∷ b ∷ body) body_len e = ground (
  arith,
  subscribe_loop-ne-stuck granted (suc (suc (suc (length body)))) 0 body (sub32 body_len 2) [],
)

-- Whatever the packet and the allocator do, `subscribe_message_parse` ends: the fuel of its loop
-- does not run out.
pub subscribe_message_parse-ne-stuck :
    (head_granted : Bool) (granted : ℕ → Bool) (message : Option Bytes) (message_len : ℕ)
    (outs : Bool)
    → subscribe_message_parse head_granted granted message message_len outs ≢ stuck
unfolding subscribe_message_parse
subscribe_message_parse-ne-stuck head_granted granted none message_len outs = λ e. cc
subscribe_message_parse-ne-stuck head_granted granted (some message) message_len outs =
    elim (Bool-cases (message_len == 0 || not outs)) [
      | inl bad ↦ rw bad (λ e. cc)
      | inr good ↦ rw good (
          >>=-ne-stuck (parse_header 0x80 mqtt_subscribe_message_error message message_len)
            (λ r. subscribe_body_parse head_granted granted r.0 r.1)
            (parse_header-ne-stuck 0x80 mqtt_subscribe_message_error message message_len)
            (λ r _. subscribe_body_parse-ne-stuck head_granted granted r.0 r.1))
    ]

bad_entry :
    (name : Bytes) (qos : ℕ) (rest : Bytes) (message_len : ℕ)
    → 2 < qos
    → subscribe_entry true ((net16 (length name) ++ name) ++ (qos ∷ rest)) message_len [] ≡ fault
unfolding subscribe_entry locate_string_field get16 deref
bad_entry name qos rest message_len bad =
    rw (net16_value, drop-add_two, drop_append, lt→ltb 2 qos bad)

-- In a packet with a right length field whose first filter asks for a QoS above 2, the clean-up
-- follows the uninitialised `next` of the node in front, if memory is granted.
pub subscribe_message_parse_bad_first :
    (granted : ℕ → Bool) (packet_id : ℕ) (name : Bytes) (qos : ℕ) (rest : Bytes)
    → granted 0 ≡ true
    → 2 < qos
    → length name + length rest + 5 < 2 ^ 28
    → let message =
        packet 0x80 (net16 packet_id ++ ((net16 (length name) ++ name) ++ (qos ∷ rest))) in
      subscribe_message_parse true granted (some message) (length message) true ≡ fault
unfolding subscribe_message_parse subscribe_loop get16
subscribe_message_parse_bad_first granted packet_id name qos rest grant bad small = ground (
  arith,
  length-append name (qos ∷ rest),
  parse_header-packet 0x80 mqtt_subscribe_message_error
      (net16 packet_id ++ ((net16 (length name) ++ name) ++ (qos ∷ rest))),
  bad_entry name qos rest
      (sub32 (length (net16 packet_id ++ ((net16 (length name) ++ name) ++ (qos ∷ rest)))) 2) bad,
)
