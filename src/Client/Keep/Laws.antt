-- ===== src/Client/Keep/Laws.antt =====
-- src/client/message_keep.c: theorems on additions, searches and removals.
use simple_mqtt.Base.{
  ℕ, ◌≡◌, ◌≢◌, refl, arith, ◌⊎◌, inl, inr, true, List, [], ◌∷◌, ◌++◌, Bytes, length, read_all, All,
  ◌==◌, ok, err, Bool-cases, ne→==, ap, sym, ◌∙◌,
}
use simple_mqtt.Client.Keep.{
  MessageSend, add_last, message_send_add, message_send_find, remove_after, message_send_remove,
}

-- No node of the list has this identifier.
abbrev pub Absent : ℕ → List MessageSend → Type 0
Absent packet_id list = All (λ m. m.packet_id ≢ packet_id) list

-- No two messages have the same identifier.
abbrev pub Distinct : List MessageSend → Type 0
Distinct [] = Unit
Distinct (m ∷ list) = Absent m.packet_id list × Distinct list

pub Absent-snoc :
    (packet_id : ℕ) (before : List MessageSend) (m : MessageSend)
    → Absent packet_id before
    → m.packet_id ≢ packet_id
    → Absent packet_id (before ++ (m ∷ []))
Absent-snoc packet_id [] m absent ne = (ne, tt)
Absent-snoc packet_id (b ∷ before) m (h, absent) ne = (h, Absent-snoc packet_id before m absent ne)

-- Nor with a message behind them whose identifier is new.
pub Distinct-snoc :
    (list : List MessageSend) (m : MessageSend)
    → Distinct list
    → Absent m.packet_id list
    → Distinct (list ++ (m ∷ []))
Distinct-snoc [] m distinct absent = (tt, tt)
Distinct-snoc (b ∷ list) m (h, distinct) (ne, absent) =
    (Absent-snoc b.packet_id list m h (λ e. ne (sym e)), Distinct-snoc list m distinct absent)

add_last-append :
    (list : List MessageSend) (node : MessageSend) → add_last list node ≡ list ++ (node ∷ [])
unfolding add_last
add_last-append [] node = refl
add_last-append (curr ∷ next) node = ap (◌∷◌ curr) (add_last-append next node)

-- A message goes to the end of the list, with a copy of its bytes and timestamp 0.
pub message_send_add_lem :
    (list : List MessageSend) (packet_id : ℕ) (message : Bytes) (qos : ℕ)
    → message_send_add true true true list packet_id message (length message) qos
      ≡ ok (
          list
          ++ (record {
            packet_id = packet_id;
            message = message;
            message_len = length message;
            qos = qos;
            timestamp = 0;
          }
              ∷ []))
unfolding message_send_add
message_send_add_lem list packet_id message qos = rw (read_all, add_last-append)

-- The place of the first node with an identifier.
pub record FirstAt (packet_id : ℕ) (list : List MessageSend) : Type 0 where
  pub before : List MessageSend
  pub node : MessageSend
  pub after : List MessageSend
  pub splits : list ≡ before ++ (node ∷ after)
  pub same_id : node.packet_id ≡ packet_id
  pub first : Absent packet_id before

abbrev pub others :
    {packet_id : ℕ} {list : List MessageSend} → FirstAt packet_id list → List MessageSend
others f = f.before ++ f.after

FirstAt-here :
    (packet_id : ℕ) (curr : MessageSend) (next : List MessageSend)
    → curr.packet_id ≡ packet_id
    → FirstAt packet_id (curr ∷ next)
FirstAt-here packet_id curr next e = record {
  before = [];
  node = curr;
  after = next;
  splits = refl;
  same_id = e;
  first = tt;
}

FirstAt-there :
    (packet_id : ℕ) (curr : MessageSend) (next : List MessageSend)
    → curr.packet_id ≢ packet_id
    → FirstAt packet_id next
    → FirstAt packet_id (curr ∷ next)
FirstAt-there packet_id curr next ne f = record {
  before = curr ∷ f.before;
  node = f.node;
  after = f.after;
  splits = ap (◌∷◌ curr) f.splits;
  same_id = f.same_id;
  first = (ne, f.first);
}

remove_after_cases :
    (list : List MessageSend) (packet_id : ℕ)
    → ((f : FirstAt packet_id list) × (message_send_find list packet_id ≡ 0)
        × (remove_after list packet_id ≡ ok (others f)))
      ⊎ (Absent packet_id list
          × (message_send_find list packet_id ≡ 1)
          × (remove_after list packet_id ≡ err 1))
unfolding message_send_find remove_after FirstAt-here FirstAt-there
remove_after_cases [] packet_id = inr (tt, refl, refl)
remove_after_cases (curr ∷ next) packet_id = elim (Bool-cases (curr.packet_id == packet_id)) [
  | inl same ↦ inl (FirstAt-here packet_id curr next (ground arith), rw same, rw same)
  | inr other ↦ elim (remove_after_cases next packet_id) [
    | inl (f, found, removed) ↦
        inl
          (FirstAt-there packet_id curr next (ground arith) f, rw other found, rw (other, removed))
    | inr (absent, missed, kept) ↦ inr ((ground arith, absent), rw other missed, rw (other, kept))
  ]
]

remove-eq-after :
    (list : List MessageSend) (packet_id : ℕ)
    → list ≢ []
    → message_send_remove true list packet_id ≡ remove_after list packet_id
unfolding message_send_remove
remove-eq-after [] packet_id ne = absurd (ne refl)
remove-eq-after (curr ∷ next) packet_id ne = refl

-- On a list that is not empty there are two cases. Some message has the identifier: then
-- `message_send_find` returns MQTT_SUCCESS and `message_send_remove` takes out the first one that
-- has it, and no other. Or none has it, and both return MQTT_UNKNOWN.
pub find_remove_cases :
    (list : List MessageSend) (packet_id : ℕ)
    → list ≢ []
    → ((f : FirstAt packet_id list) × (message_send_find list packet_id ≡ 0)
        × (message_send_remove true list packet_id ≡ ok (others f)))
      ⊎ (Absent packet_id list
          × (message_send_find list packet_id ≡ 1)
          × (message_send_remove true list packet_id ≡ err 1))
find_remove_cases list packet_id ne =
    rw (remove-eq-after list packet_id ne) (remove_after_cases list packet_id)

remove_after_fresh :
    (list : List MessageSend) (node : MessageSend)
    → Absent node.packet_id list
    → remove_after (list ++ (node ∷ [])) node.packet_id ≡ ok list
unfolding remove_after
remove_after_fresh [] node absent = ground arith
remove_after_fresh (curr ∷ next) node (ne, absent) =
    rw (ne→== curr.packet_id node.packet_id ne, remove_after_fresh next node absent)

-- For an identifier that no message of the list has, `message_send_add` succeeds when memory is
-- granted, and `message_send_remove` with that identifier then gives the old list back.
remove-add :
    (list : List MessageSend) (packet_id : ℕ) (message : Bytes) (qos : ℕ)
    → Absent packet_id list
    → (list' : List MessageSend) × (message_send_add true true true list packet_id message
          (length message)
          qos
        ≡ ok list')
      × (message_send_remove true list' packet_id ≡ ok list)
remove-add list packet_id message qos absent =
    let node : MessageSend = record {
      packet_id = packet_id;
      message = message;
      message_len = length message;
      qos = qos;
      timestamp = 0;
    } in
    (
      list ++ (node ∷ []),
      message_send_add_lem list packet_id message qos,
      remove-eq-after (list ++ (node ∷ [])) packet_id (added list node)
          ∙ remove_after_fresh list node absent,
    )
  where
    added : (l : List MessageSend) (m : MessageSend) → l ++ (m ∷ []) ≢ []
    added [] m e = cc
    added (x ∷ l) m e = cc
