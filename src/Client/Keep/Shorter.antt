-- ===== src/Client/Keep/Shorter.antt =====
-- src/client/message_keep.c: how long the list is after a removal.
use simple_mqtt.Base.{
  ℕ, suc, ◌≤◌, arith, true, List, [], ◌∷◌, length, Bool-cases, inl, inr, ◌==◌, Outcome, ok, err,
  fault, stuck, ◌>>=◌,
}
use simple_mqtt.Client.Keep.{MessageSend, remove_after, message_send_remove}

-- Where it is a list, it is not longer than this.
abbrev pub Shorter : ℕ → Outcome (List MessageSend) → Type 0
Shorter n (ok list) = length list ≤ n
Shorter n (err code) = Unit
Shorter n fault = Unit
Shorter n stuck = Unit

cons-Shorter :
    (n : ℕ) (m : Outcome (List MessageSend)) (curr : MessageSend)
    → Shorter n m
    → Shorter (suc n) (m >>= λ list. ok (curr ∷ list))
cons-Shorter n (ok list) curr h = omega arith
cons-Shorter n (err code) curr h = tt
cons-Shorter n fault curr h = tt
cons-Shorter n stuck curr h = tt

remove_after-Shorter :
    (list : List MessageSend) (packet_id : ℕ) → Shorter (length list) (remove_after list packet_id)
unfolding remove_after
remove_after-Shorter [] packet_id = tt
remove_after-Shorter (next ∷ rest) packet_id = elim (Bool-cases (next.packet_id == packet_id)) [
  | inl same ↦ rw same (omega arith)
  | inr other ↦ rw other (
      cons-Shorter (length rest) (remove_after rest packet_id) next
        (remove_after-Shorter rest packet_id))
]

pub message_send_remove-Shorter :
    (list : List MessageSend) (packet_id : ℕ)
    → Shorter (length list) (message_send_remove true list packet_id)
unfolding message_send_remove remove_after
message_send_remove-Shorter [] packet_id = tt
message_send_remove-Shorter (curr ∷ next) packet_id = remove_after-Shorter (curr ∷ next) packet_id
