-- ===== src/Message/Unsubscribe/Ends.antt =====
-- src/message/msg_unsubscribe.c: theorems on the end of the parsing loop.
use simple_mqtt.Base.{
  ℕ, zero, suc, ◌+◌, ◌*◌, ◌<◌, ◌≡◌, ◌≢◌, arith, Bool, not, ◌||◌, ◌==◌, Option, none, some, List, [],
  ◌∷◌, Bytes, get16, length, ltb, sub32, ok, stuck, length-drop, >>=-ne-stuck, Bool-cases, inl, inr,
}
use simple_mqtt.Message.Codes.{mqtt_subscribe_message_error}
use simple_mqtt.Message.Field.{locate_string_field}
use simple_mqtt.Message.Filters.{TopicFilter}
use simple_mqtt.Message.Header.{parse_header}
use simple_mqtt.Message.Header.Whole.{parse_header-ne-stuck}
use simple_mqtt.Message.Filters.Wire.{unlink_first-ne-stuck}
use simple_mqtt.Message.Unsubscribe.{
  unsubscribe_entry, unsubscribe_loop, unsubscribe_body_parse, unsubscribe_message_parse,
}

-- A round of the loop is no loop itself, and one that goes on has read a byte at least.
unsubscribe_entry-ne-stuck :
    (granted : Bool) (message : Bytes) (message_len : ℕ) (filters : List TopicFilter)
    → unsubscribe_entry granted message message_len filters ≢ stuck
unfolding unsubscribe_entry locate_string_field get16
unsubscribe_entry-ne-stuck granted [] message_len [] e = ground arith
unsubscribe_entry-ne-stuck granted [] message_len (f ∷ filters) e = ground arith
unsubscribe_entry-ne-stuck granted (a ∷ []) message_len [] e = ground arith
unsubscribe_entry-ne-stuck granted (a ∷ []) message_len (f ∷ filters) e = ground arith
unsubscribe_entry-ne-stuck granted (a ∷ b ∷ message) message_len [] e = ground arith
unsubscribe_entry-ne-stuck granted (a ∷ b ∷ message) message_len (f ∷ filters) e = ground arith

unsubscribe_entry_shorter :
    (granted : Bool) (message : Bytes) (message_len : ℕ) (filters filters' : List TopicFilter)
    (message' : Bytes) (message_len' : ℕ)
    → unsubscribe_entry granted message message_len filters ≡ ok (filters', message', message_len')
    → length message' < length message
unfolding unsubscribe_entry locate_string_field get16
unsubscribe_entry_shorter granted [] message_len [] filters' message' message_len' e = ground arith
unsubscribe_entry_shorter granted [] message_len (f ∷ filters) filters' message' message_len' e =
    ground arith
unsubscribe_entry_shorter granted (a ∷ []) message_len [] filters' message' message_len' e =
    ground arith
unsubscribe_entry_shorter granted (a ∷ []) message_len (f ∷ filters) filters' message' message_len'
      e =
    ground arith
unsubscribe_entry_shorter granted (a ∷ b ∷ message) message_len [] filters' message' message_len'
      e =
    ground (arith, length-drop (a * 256 + b + 2) (a ∷ b ∷ message))
unsubscribe_entry_shorter granted (a ∷ b ∷ message) message_len (f ∷ filters) filters' message'
      message_len' e =
    ground (arith, length-drop (a * 256 + b + 2) (a ∷ b ∷ message))

-- The parsing loop ends on every packet, whatever the allocator does: more fuel than there are
-- bytes is enough.
pub unsubscribe_loop-ne-stuck :
    (granted : ℕ → Bool) (fuel i : ℕ) (message : Bytes) (message_len : ℕ)
    (filters : List TopicFilter)
    → length message < fuel
    → unsubscribe_loop granted fuel i message message_len filters ≢ stuck
unfolding unsubscribe_loop
unsubscribe_loop-ne-stuck granted zero i message message_len filters h = absurd (omega arith)
unsubscribe_loop-ne-stuck granted (suc fuel) i message message_len filters h =
    elim (Bool-cases (ltb 0 message_len)) [
      | inr done ↦ rw done (unlink_first-ne-stuck filters)
      | inl more ↦ rw more (
          >>=-ne-stuck (unsubscribe_entry (granted i) message message_len filters)
            (λ r. unsubscribe_loop granted fuel (i + 1) r.1 r.2 r.0)
            (unsubscribe_entry-ne-stuck (granted i) message message_len filters)
            (λ r e. unsubscribe_loop-ne-stuck granted fuel (i + 1) r.1 r.2 r.0 (
              omega (
                arith,
                unsubscribe_entry_shorter (granted i) message message_len filters r.0 r.1 r.2 e,
              ))))
    ]

unsubscribe_body_parse-ne-stuck :
    (head_granted : Bool) (granted : ℕ → Bool) (body : Bytes) (body_len : ℕ)
    → unsubscribe_body_parse head_granted granted body body_len ≢ stuck
unfolding unsubscribe_body_parse get16
unsubscribe_body_parse-ne-stuck head_granted granted [] body_len e = cc
unsubscribe_body_parse-ne-stuck head_granted granted (a ∷ []) body_len e = cc
unsubscribe_body_parse-ne-stuck head_granted granted (a ∷ b ∷ body) body_len e = ground (
  arith,
  unsubscribe_loop-ne-stuck granted (suc (suc (suc (length body)))) 0 body (sub32 body_len 2) [],
)

-- Whatever the packet and the allocator do, `unsubscribe_message_parse` ends: the fuel of its
-- loop does not run out.
unsubscribe_message_parse-ne-stuck :
    (head_granted : Bool) (granted : ℕ → Bool) (message : Option Bytes) (message_len : ℕ)
    (outs : Bool)
    → unsubscribe_message_parse head_granted granted message message_len outs ≢ stuck
unfolding unsubscribe_message_parse
unsubscribe_message_parse-ne-stuck head_granted granted none message_len outs = λ e. cc
unsubscribe_message_parse-ne-stuck head_granted granted (some message) message_len outs =
    elim (Bool-cases (message_len == 0 || not outs)) [
      | inl bad ↦ rw bad (λ e. cc)
      | inr good ↦ rw good (
          >>=-ne-stuck (parse_header 0xa0 mqtt_subscribe_message_error message message_len)
            (λ r. unsubscribe_body_parse head_granted granted r.0 r.1)
            (parse_header-ne-stuck 0xa0 mqtt_subscribe_message_error message message_len)
            (λ r _. unsubscribe_body_parse-ne-stuck head_granted granted r.0 r.1))
    ]
