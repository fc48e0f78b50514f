-- ===== src/Message/Suback/Sound.antt =====
-- src/message/msg_suback.c: the theorem on whatever `suback_message_parse` accepts.
use simple_mqtt.Base.{
  ℕ, zero, suc, ◌+◌, ◌%◌, ◌≤◌, ◌≡◌, inl, inr, arith, Bool, true, some, [], ◌∷◌, ◌++◌, Bytes, IsU16,
  All, take, get16, length, drop, append_assoc, append-nil, lt→ltb, Bool-cases, >>=-eq-ok, ◌==◌,
  Outcome, ok, sub32, ap, ◌∙◌,
}
use simple_mqtt.Message.Codes.{mqtt_suback_message_error}
use simple_mqtt.Message.Header.{parse_header}
use simple_mqtt.Message.Suback.{
  SubackData, suback_data_init, suback_data_append, qos_refused, suback_loop, suback_message_parse,
}
use simple_mqtt.Message.Suback.Array.{Holds, suback_data_append_sound}
use simple_mqtt.Message.Suback.RoundTrip.{IsGranted}

suback_loop_sound :
    (granted : ℕ → Bool) (message : Bytes) (i left n : ℕ) (arr : SubackData) (items : Bytes)
    (arr' : SubackData)
    → Holds arr items
    → n ≡ i + left
    → suback_loop granted i n message arr ≡ ok arr'
    → Holds arr' (items ++ take left message)
      × All IsGranted (take left message)
      × (left ≤ length message)
unfolding suback_loop
suback_loop_sound granted [] i zero n arr items arr' h len e =
    rw append-nil (ground arith, tt, omega arith)
suback_loop_sound granted [] i (suc left) n arr items arr' h len e = ground arith
suback_loop_sound granted (q ∷ message) i zero n arr items arr' h len e =
    rw append-nil (ground arith, tt, omega arith)
suback_loop_sound granted (q ∷ message) i (suc left) n arr items arr' h len e =
    elim (Bool-cases (qos_refused q)) [
      | inl bad ↦ ground (arith, rw (lt→ltb i n (omega arith), bad) at e)
      | inr good ↦
          let (next, stored, more) =
            >>=-eq-ok (suback_data_append (granted i) (some arr) q)
              (λ arr''. suback_loop granted (i + 1) n message arr'')
              (rw (lt→ltb i n (omega arith), good) at e) in
          let (h', all_good, long) =
            suback_loop_sound granted message (i + 1) left n next (items ++ (q ∷ [])) arr'
              (suback_data_append_sound (granted i) arr items q h stored) (omega arith) more in
          (rw append_assoc at h', (good, all_good), omega arith)
    ]

suback_data_init-eq_ok :
    (granted : Bool) (capacity : ℕ) {arr : SubackData}
    → IsU16 capacity
    → suback_data_init granted true capacity ≡ ok arr
    → Holds arr []
unfolding suback_data_init
suback_data_init-eq_ok granted capacity h e = ground arith

-- What a packet's array holds.
pub record Parsed (message : Bytes) (message_len packet_id : ℕ) (arr : SubackData) : Type 0 where
  pub body : Bytes
  pub body_len : ℕ
  pub header : parse_header 0x90 mqtt_suback_message_error message message_len ≡ ok (body, body_len)
  pub identifier : get16 body ≡ ok packet_id
  pub held : Holds arr (take (sub32 body_len 2) (drop 2 body))
  pub all_granted : All IsGranted (take (sub32 body_len 2) (drop 2 body))

module _ (message : Bytes) (message_len packet_id : ℕ) (arr : SubackData) where
  Parsed-intro :
      (first_granted : Bool) (granted : ℕ → Bool) (body : Bytes) (body_len id : ℕ)
      (new arr' : SubackData)
      → parse_header 0x90 mqtt_suback_message_error message message_len ≡ ok (body, body_len)
      → get16 body ≡ ok id
      → suback_data_init first_granted true (sub32 body_len 2 % 65536) ≡ ok new
      → suback_loop granted 0 (sub32 body_len 2) (drop 2 body) new ≡ ok arr'
      → ◌≡◌ {A = Outcome (ℕ × SubackData)} (ok (id, arr')) (ok (packet_id, arr))
      → Parsed message message_len packet_id arr
  Parsed-intro first_granted granted body body_len id new arr' header read_id made filled same =
      let empty = suback_data_init-eq_ok first_granted _ (omega arith) made in
      let filled' = filled ∙ ap ok (ground arith) in
      let (h, good, _) =
        suback_loop_sound granted (drop 2 body) 0 (sub32 body_len 2) (sub32 body_len 2) new [] arr
          empty (omega arith) filled' in
      record {
        body = body;
        body_len = body_len;
        header = header;
        identifier = ground arith;
        held = h;
        all_granted = good;
      }

-- Whatever the packet and the allocator do, when `suback_message_parse` returns MQTT_SUCCESS, the
-- packet has passed the header's tests, the array holds just the bytes behind the packet
-- identifier, up to the length of the packet, and each of them is a granted QoS or the refusal.
pub suback_message_parse_sound :
    (first_granted : Bool) (granted : ℕ → Bool) (message : Bytes) (message_len packet_id : ℕ)
    (arr : SubackData)
    → suback_message_parse first_granted granted (some message) message_len true
      ≡ ok (packet_id, arr)
    → Parsed message message_len packet_id arr
unfolding suback_message_parse
suback_message_parse_sound first_granted granted message message_len packet_id arr e =
    elim (Bool-cases (message_len == 0)) [
      | inl empty ↦ ground (arith, rw empty at e)
      | inr some_bytes ↦
          let ((body, body_len), header, e₁) =
            >>=-eq-ok (parse_header 0x90 mqtt_suback_message_error message message_len) _
              (rw some_bytes at e) in
          let (id, read_id, e₂) = >>=-eq-ok (get16 body) _ e₁ in
          let (new, made, e₃) =
            >>=-eq-ok (suback_data_init first_granted true (sub32 body_len 2 % 65536)) _ e₂ in
          let (arr', filled, e₄) =
            >>=-eq-ok (suback_loop granted 0 (sub32 body_len 2) (drop 2 body) new) _ e₃ in
          Parsed-intro message message_len packet_id arr first_granted granted body body_len id new
            arr' header read_id made filled e₄
    ]
