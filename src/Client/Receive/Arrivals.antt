-- ===== src/Client/Receive/Arrivals.antt =====
-- src/client/client_deamon.c: theorems on a round of `process_socket_event` for each of the two ways in which
-- a packet comes in.
use simple_mqtt.Base.{
  ℕ, ◌+◌, ◌-◌, ◌/◌, ◌≤◌, ◌≡◌, refl, ap, ◌∙◌, sym, arith, some, List, [], ◌∷◌, ◌++◌, append_assoc,
  append-nil, Bytes, IsByte, length, take, drop, take_beyond, drop_beyond, take-append-drop,
  length-take, length-drop, none, ◌⊎◌, ◌^◌, ◌<◌,
}
use simple_mqtt.Message.Header.Whole.{packet, length-packet}
use simple_mqtt.Message.Remain.Bounds.{length_field, length-encoding}
use simple_mqtt.Client.Process.{World}
use simple_mqtt.Client.Receive.{Outside, cleared, message_switch, socket_round}
use simple_mqtt.Client.Receive.Framing.{socket_round_whole, socket_round_short}

-- One round, with the whole packet in the buffer and zeros behind it, after `calls'` calls of recv(2).
abbrev pub Whole : Outside → World → ℕ → ℕ → ℕ → Bytes → Type 0
Whole outside world calls calls' first body =
    (ret : ℕ) × (ret ≤ 1024)
    × (socket_round outside world calls
        ≡ message_switch outside world calls' (first / 16)
            (first
              ∷ (length_field (length body)
                  ++ (body ++ cleared (1024 - length (packet first body)))))
            (1 + length (length_field (length body)) + length body) ret)

-- A packet of which the first five bytes and the rest are received one after the other.
module _ (outside : Outside) (world : World) (calls first : ℕ) (body : Bytes) (byte : IsByte first)
    (more : 6 ≤ length (packet first body)) (fits : length (packet first body) ≤ 1024)
    (got : outside.recv calls 5 ≡ some (take 5 (packet first body)))
    (rest : outside.recv (calls + 1) (length (packet first body) - 5)
      ≡ some (drop 5 (packet first body))) where
  -- What of the body is received with the header.
  early : ℕ
  early = 4 - length (length_field (length body))

  early_lem :
      (length (take early body) + length (length_field (length body)) ≡ 4)
      × (length (take early body) + length (drop early body) ≡ length body)
      × (length (packet first body) ≡ 5 + length (drop early body))
  unfolding early
  early_lem = omega (
    arith,
    length-take early body,
    length-drop early body,
    length-packet first body,
    length-encoding 3 (length body),
  )

  field_short : length (length_field (length body)) ≤ 4
  field_short = omega (arith, length-encoding 3 (length body))

  -- The buffer holds the packet.
  buffer_lem :
      (zeros : Bytes)
      → (length_field (length body) ++ take early body) ++ (drop early body ++ zeros)
        ≡ length_field (length body) ++ (body ++ zeros)
  buffer_lem zeros =
      append_assoc (length_field (length body)) (take early body) (drop early body ++ zeros)
      ∙ ap (λ xs. length_field (length body) ++ xs)
          (sym (append_assoc (take early body) (drop early body) zeros)
            ∙ ap (λ xs. xs ++ zeros) (take-append-drop early body))

  pub split_round : Whole outside world calls (calls + 2) first body
  unfolding early
  split_round = (
    length (drop early body),
    omega (arith, early_lem, fits),
    socket_round_whole outside world calls first (length body) (take early body) (drop early body)
          byte (omega (arith, length-packet first body)) (omega (arith, early_lem))
          (omega (arith, early_lem)) (omega (arith, early_lem)) (omega (arith, early_lem))
          (got
            ∙ ap (λ xs. some (first ∷ xs))
                (take_beyond 4 (length_field (length body)) body field_short))
          (ap (λ n. outside.recv (calls + 1) n) (omega (arith, early_lem))
            ∙ rest
            ∙ ap some (drop_beyond 4 (length_field (length body)) body field_short))
        ∙ rw (early_lem.2, total, buffer_lem (cleared (1024 - (5 + length (drop early body)))))
            refl,
  )
    where
      total : 1 + length (length_field (length body)) + length body ≡ 5 + length (drop early body)
      total = omega (arith, early_lem, length-packet first body)

-- A packet that is received at once, with nothing behind it.
pub single_round :
    (outside : Outside) (world : World) (calls first : ℕ) (body : Bytes)
    → IsByte first
    → length body < 2 ^ 28
    → outside.recv calls 5 ≡ some (packet first body)
    → Whole outside world calls (calls + 1) first body
single_round outside world calls first body byte small got = (
  0,
  omega arith,
  socket_round_short outside world calls first body [] byte small
        (got ∙ ap (λ xs. some (first ∷ (length_field (length body) ++ xs))) (sym (append-nil body)))
      ∙ rw (append-nil body, append_assoc (length_field (length body)) body) refl,
)

-- The connection delivers these packets, each of them at once or, when it has more than five bytes, the
-- first five bytes and the rest, and fails then. `calls` is the number of calls of recv(2) before that.
abbrev pub Arrives : Outside → ℕ → List Bytes → Type 0
Arrives outside calls [] = outside.recv calls 5 ≡ none
Arrives outside calls (p ∷ packets) =
    ((outside.recv calls 5 ≡ some p) × Arrives outside (calls + 1) packets)
    ⊎ ((outside.recv calls 5 ≡ some (take 5 p))
        × (6 ≤ length p)
        × (outside.recv (calls + 1) (length p - 5) ≡ some (drop 5 p))
        × Arrives outside (calls + 2) packets)
