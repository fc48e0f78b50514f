-- ===== src/Client/Keep/Queues.antt =====
-- src/client/message_keep.c: the theorem that calls of its functions refine a queue for each identifier.
use std.Path.{fun_ext}
use simple_mqtt.Base.{
  ℕ, suc, ◌≡◌, ◌≢◌, refl, ap, ◌∙◌, sym, arith, inl, inr, true, List, [], ◌∷◌, ◌++◌, Bytes,
  Bool-cases, length, length-append, ◌==◌, ne→==, eq→==, append-nil, Bool, false, if◌then◌else◌,
  Outcome, ok, err, fault, stuck, ◌>>=◌,
}
use simple_mqtt.Client.Keep.{MessageSend, message_send_find, message_send_remove}
use simple_mqtt.Client.Keep.Laws.{Absent, FirstAt, others, find_remove_cases, message_send_add_lem}
use simple_mqtt.Client.Keep.Store.{
  KeepCall, adding, finding, removing, keep_call, keep_calls, Store, kept_message, dequeue,
  store_call, store_calls, those, store_of, stored,
}

those-append : (j : ℕ) (xs ys : List MessageSend) → those j (xs ++ ys) ≡ those j xs ++ those j ys
those-append j [] ys = refl
those-append j (m ∷ xs) ys = elim (Bool-cases (m.packet_id == j)) [
  | inl same ↦ rw same (ap (◌∷◌ m) (those-append j xs ys))
  | inr other ↦ rw other (those-append j xs ys)
]

those-Absent : (j : ℕ) (xs : List MessageSend) → Absent j xs → those j xs ≡ []
those-Absent j [] absent = refl
those-Absent j (m ∷ xs) (ne, absent) = rw (ne→== m.packet_id j ne) (those-Absent j xs absent)

-- Two stores are the same if their parts are.
same_store :
    (s t : Store) (code : ℕ)
    → s.size ≡ t.size
    → ((j : ℕ) → s.waiting j ≡ t.waiting j)
    → ◌≡◌ {A = Outcome (Store × ℕ)} (ok (s, code)) (ok (t, code))
same_store s t code h k =
    ap (λ n. ok (record { size = n; waiting = s.waiting }, code)) h
    ∙ ap (λ w. ok (record { size = t.size; waiting = w }, code)) (fun_ext k)

add-Store :
    (packet_id : ℕ) (message : Bytes) (qos : ℕ) (list : List MessageSend)
    → (keep_call (adding packet_id message qos) list >>= stored)
      ≡ store_call (adding packet_id message qos) (store_of list)
add-Store packet_id message qos list =
    let m = kept_message packet_id message qos in
    rw (message_send_add_lem list packet_id message qos) (
      same_store _ _ 0 (length-append list (m ∷ []))
        (λ j. those-append j list (m ∷ []) ∙ last (packet_id == j) (those j list) m))
  where
    last :
        (b : Bool) (queue : List MessageSend) (m : MessageSend)
        → (queue ++ (if b then m ∷ [] else [])) ≡ (if b then queue ++ (m ∷ []) else queue)
    last true queue m = refl
    last false queue m = append-nil queue

-- The first message of an identifier is the first of its queue, and the other queues do not have it.
module _ (packet_id : ℕ) (list : List MessageSend) (f : FirstAt packet_id list) where
  queue_split : those packet_id list ≡ f.node ∷ those packet_id (others f)
  queue_split =
      ap (those packet_id) f.splits
      ∙ those-append packet_id f.before (f.node ∷ f.after)
      ∙ rw
          (
            those-Absent packet_id f.before f.first,
            eq→== f.node.packet_id packet_id f.same_id,
            those-append packet_id f.before f.after,
          )
          (rw (those-Absent packet_id f.before f.first) refl)

  other_queue : (j : ℕ) → packet_id ≢ j → those j list ≡ those j (others f)
  other_queue j ne =
      ap (those j) f.splits
      ∙ those-append j f.before (f.node ∷ f.after)
      ∙ rw (ne→== f.node.packet_id j (λ e. ne (sym f.same_id ∙ e)))
          (sym (those-append j f.before f.after))

  size_split : length list ≡ suc (length (others f))
  size_split =
      ap length f.splits
      ∙ omega (arith, length-append f.before (f.node ∷ f.after), length-append f.before f.after)

  remove_found :
      ok (store_of (others f), 0)
      ≡ dequeue packet_id (store_of list) (length list) (those packet_id list)
  remove_found =
      rw (queue_split, size_split)
        (same_store _ _ 0 refl (λ j. elim (Bool-cases (packet_id == j)) [
          | inl same ↦
              let e : j ≡ packet_id = ground (arith, same) in
              rw same (ap (λ k. those k (others f)) e)
          | inr other ↦ rw other (sym (other_queue j (ground (arith, other))))
        ]))

-- One call.
keep_call-Store :
    (c : KeepCall) (list : List MessageSend)
    → (keep_call c list >>= stored) ≡ store_call c (store_of list)
unfolding message_send_find message_send_remove
keep_call-Store (adding packet_id message qos) list = add-Store packet_id message qos list
keep_call-Store (finding packet_id) [] = refl
keep_call-Store (finding packet_id) (m ∷ list) =
    elim (find_remove_cases (m ∷ list) packet_id (λ e. cc)) [
      | inl (f, found, removed) ↦ rw (found, queue_split packet_id (m ∷ list) f) refl
      | inr (absent, missed, kept) ↦ rw (missed, those-Absent packet_id (m ∷ list) absent) refl
    ]
keep_call-Store (removing packet_id) [] = refl
keep_call-Store (removing packet_id) (m ∷ list) =
    elim (find_remove_cases (m ∷ list) packet_id (λ e. cc)) [
      | inl (f, found, removed) ↦ rw removed (remove_found packet_id (m ∷ list) f)
      | inr (absent, missed, kept) ↦ rw (kept, those-Absent packet_id (m ∷ list) absent) refl
    ]

-- The codes so far go in front of those of the rest, on either side.
code_first :
    (code : ℕ) (rest : Outcome (List MessageSend × List ℕ))
    → ((rest >>= λ r. ok (r.0, code ∷ r.1)) >>= stored {A = List ℕ})
      ≡ ((rest >>= stored) >>= λ r. ok (r.0, code ∷ r.1))
code_first code (ok (list, codes)) = refl
code_first code (err e) = refl
code_first code fault = refl
code_first code stuck = refl

-- Calls behind one call.
follow :
    (calls : List KeepCall) (result : Outcome (List MessageSend × ℕ))
    → ((list : List MessageSend)
        → (keep_calls calls list >>= stored) ≡ store_calls calls (store_of list))
    → ((do
      (list', code) ← result
      (list'', codes) ← keep_calls calls list'
      ok (list'', code ∷ codes))
        >>= stored)
      ≡ (do
        (store', code) ← result >>= stored
        (store'', codes) ← store_calls calls store'
        ok (store'', code ∷ codes))
follow calls (ok (list, code)) rest = rw (← rest list) (code_first code (keep_calls calls list))
follow calls (err e) rest = refl
follow calls fault rest = refl
follow calls stuck rest = refl

-- For calls of `message_send_add`, with memory granted, `message_send_find` and `message_send_remove` in any
-- order and on any list: what they return, and the messages of each identifier afterwards, oldest
-- first, with how many there are in all, are those of a queue for each identifier, where a message goes to
-- the end of its queue and the first one is taken out. The order between identifiers does not matter.
-- It is undefined exactly when a removal meets an empty list.
pub keep_calls-Store :
    (calls : List KeepCall) (list : List MessageSend)
    → (keep_calls calls list >>= stored) ≡ store_calls calls (store_of list)
keep_calls-Store [] list = refl
keep_calls-Store (c ∷ calls) list =
    rw (← keep_call-Store c list) (follow calls (keep_call c list) (keep_calls-Store calls))
