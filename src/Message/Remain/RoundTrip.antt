-- ===== src/Message/Remain/RoundTrip.antt =====
-- src/message/message.c: theorems on `remain_length_decode`.
use simple_mqtt.Base.{
  ℕ, zero, suc, ◌+◌, ◌*◌, ◌/◌, ◌%◌, ◌^◌, ◌≤◌, ◌<◌, ◌≡◌, refl, arith, [], ◌∷◌, length, take, Bytes,
  ◌++◌, IsByte, IsU32, All, min, leb, Bool-cases, inl, inr, ltb, lt→ltb, le→ltb, if◌then◌else◌, ok,
  low_seven, top_bit, ap, bit_and, ◌==◌,
}
use native.Mathlib.Nat.{div-add-mod, pow-suc, pow-le-pow_right}
use simple_mqtt.Message.Remain.{remain_length_encode, decode_loop, remain_length_decode}
use simple_mqtt.Message.Remain.Bounds.{
  encoding, length-encoding, length_field, remain_length_encode-eq_ok,
}

-- One round, on a last byte and on a byte with the top bit set.
last_byte :
    (left b base index len : ℕ) (rest : Bytes)
    → b < 128
    → IsU32 (len + b * base)
    → decode_loop (suc left) (b ∷ rest) base index len ≡ ok (index + 1, len + b * base)
unfolding decode_loop
last_byte left b base index len rest hb fits = ground (arith, low_seven b, top_bit b)

inner_byte :
    (left g base index len : ℕ) (rest : Bytes)
    → g < 128
    → base * 128 < 2 ^ 32
    → IsU32 (len + g * base)
    → decode_loop (suc left) ((g + 128) ∷ rest) base index len
      ≡ decode_loop left rest (base * 128) (index + 1) (len + g * base)
unfolding decode_loop
inner_byte left g base index len rest hg hb fits =
    ground (arith, low_seven (g + 128), top_bit (g + 128))

split_group : (w base : ℕ) → w * base ≡ w % 128 * base + w / 128 * (base * 128)
split_group w base = omega (arith, ap (λ (t : ℕ). t * base) (div-add-mod w 128))

pow_pos : (k : ℕ) → 1 ≤ 128 ^ k
pow_pos zero = omega arith
pow_pos (suc k) = omega (arith, pow_pos k, pow-suc 128 k)

base_next : (k base : ℕ) → base * 128 ^ suc k < 2 ^ 32 → base * 128 * 128 ^ k < 2 ^ 32
base_next k base h = omega (arith, ap (λ (t : ℕ). base * t) (pow-suc 128 k))

base_fits : (k base : ℕ) → base * 128 ^ k < 2 ^ 32 → base < 2 ^ 32
base_fits k base h = grind (arith, pow_pos k)

-- `w` is what is still to be read, in units of `base`.
decode_loop-encoding :
    (k left w base index len : ℕ) (rest : Bytes)
    → length (encoding k w) ≤ left
    → w < 128 ^ suc k
    → base * 128 ^ suc k < 2 ^ 32
    → IsU32 (len + w * base)
    → decode_loop left (encoding k w ++ rest) base index len
      ≡ ok (index + length (encoding k w), len + w * base)
unfolding encoding
decode_loop-encoding k zero w base index len rest hl hw hb fits =
    absurd (omega (arith, length-encoding k w))
decode_loop-encoding zero (suc left) w base index len rest hl hw hb fits =
    last_byte left w base index len rest (omega arith) fits
decode_loop-encoding (suc k) (suc left) w base index len rest hl hw hb fits =
    let hb' = base_next (suc k) base hb in
    let hb'' = base_fits (suc k) (base * 128) hb' in
    ground (
      arith,
      last_byte left w base index len rest,
      split_group w base,
      inner_byte left (w % 128) base index len (encoding k (w / 128) ++ rest),
      λ (h : length (encoding k (w / 128)) ≤ left).
          decode_loop-encoding k left (w / 128) (base * 128) (index + 1) (len + w % 128 * base) rest
            h (omega arith) hb',
    )

pub remain_length_decode_field :
    (len n : ℕ) (rest : Bytes)
    → len < 2 ^ 28
    → length (length_field len) ≤ n
    → remain_length_decode (length_field len ++ rest) n ≡ ok (length (length_field len), len)
unfolding remain_length_decode
remain_length_decode_field len n rest h fits = ground (
  arith,
  decode_loop-encoding 3 4 len 1 0 0 rest (length-encoding 3 len).1 (omega arith) (omega arith),
  decode_loop-encoding 3 n len 1 0 0 rest fits (omega arith) (omega arith),
)

-- When `remain_length_encode` has stored a uint32_t length, `remain_length_decode` reads it back
-- with the number of its bytes, whatever follows them, if `*encode_len` covers them.
pub remain_length_decode-encode :
    (room len n : ℕ) {encode : Bytes} (rest : Bytes)
    → IsU32 len
    → remain_length_encode room len ≡ ok encode
    → length encode ≤ n
    → remain_length_decode (encode ++ rest) n ≡ ok (length encode, len)
remain_length_decode-encode room len n rest h e fits =
    let (small, same, _) = remain_length_encode-eq_ok room len h e in
    rw same (remain_length_decode_field len n rest small (rw same at fits))

-- The number that a field of at most as many bytes stands for: up to the first byte below 128, or
-- to the end.
abbrev pub field_value : Bytes → ℕ
field_value [] = 0
field_value (b ∷ bs) = if ltb b 128 then b else b % 128 + 128 * field_value bs

field_value_last :
    (b base : ℕ) (bs : Bytes) → b < 128 → base * field_value (b ∷ bs) ≡ b % 128 * base
field_value_last b base bs h = rw (lt→ltb b 128 h) (grind arith)

field_value_inner :
    (b base : ℕ) (bs : Bytes)
    → 128 ≤ b
    → base * field_value (b ∷ bs) ≡ b % 128 * base + base * 128 * field_value bs
field_value_inner b base bs h = rw (le→ltb b 128 h) (omega arith)

-- `base` stays a power of 128, and `len` below it.
base_room :
    (left base len g : ℕ)
    → base * 128 ^ suc left ≤ 2 ^ 28
    → len < base
    → g < 128
    → (base * 128 * 128 ^ left ≤ 2 ^ 28) × (base * 128 ≤ 2 ^ 28) × (len + g * base < base * 128)
base_room left base len g fits small hg =
    let e : base * 128 ^ suc left ≡ base * 128 * 128 ^ left =
      omega (arith, ap (λ (t : ℕ). base * t) (pow-suc 128 left)) in
    (omega arith, grind (arith, pow_pos left), grind arith)

decode_loop-value :
    (left : ℕ) (encode : Bytes) (base index len l v : ℕ)
    → All IsByte encode
    → base * 128 ^ left ≤ 2 ^ 28
    → len < base
    → decode_loop left encode base index len ≡ ok (l, v)
    → (v ≡ len + base * field_value (take left encode))
      × (index + 1 ≤ l)
      × (l ≤ index + 1 + left)
      × (v < 2 ^ 28)
unfolding decode_loop
decode_loop-value zero encode base index len l v bytes fits small e = ground arith
decode_loop-value (suc left) [] base index len l v bytes fits small e = cc
decode_loop-value (suc left) (b ∷ encode) base index len l v (hb, bytes) fits small e =
    let (next, wide, below) = base_room left base len (b % 128) fits small (omega arith) in
    ground (
      arith,
      low_seven b,
      top_bit b,
      pow_pos left,
      field_value_last b base (take left encode),
      field_value_inner b base (take left encode),
      decode_loop-value left encode (base * 128) (index + 1) (len + b % 128 * base) l v bytes next
          below,
    )

capped : (n : ℕ) → (if leb n 4 then n else 4) ≡ min n 4
capped n = ground arith

-- On bytes, whatever they are, when `remain_length_decode` returns MQTT_SUCCESS, the length is
-- the number that the field stands for, cut off after four bytes or where `*encode_len` ends, and
-- less than 2^28; `*encode_len` is then at least 1, and at most one more than the bytes it could
-- read.
pub remain_length_decode-field_value :
    (encode : Bytes) (n : ℕ) {l v : ℕ}
    → All IsByte encode
    → remain_length_decode encode n ≡ ok (l, v)
    → (v ≡ field_value (take (min n 4) encode)) × (1 ≤ l) × (l ≤ 1 + min n 4) × (v < 2 ^ 28)
unfolding remain_length_decode
remain_length_decode-field_value encode n {l} {v} bytes e = ground (
  arith,
  capped n,
  decode_loop-value (min n 4) encode 1 0 0 l v bytes (power (min n 4) (omega arith)) (omega arith)
      (rw capped at e),
)
  where
    power : (k : ℕ) → k ≤ 4 → 1 * 128 ^ k ≤ 2 ^ 28
    power k h = omega (arith, pow-le-pow_right {n = 128} (omega arith) h)

decode_loop_returns :
    (left : ℕ) (encode : Bytes) (base index len : ℕ)
    → left ≤ length encode
    → (l : ℕ) × (v : ℕ) × (decode_loop left encode base index len ≡ ok (l, v))
unfolding decode_loop
decode_loop_returns zero encode base index len h = (index + 1, len, refl)
decode_loop_returns (suc left) [] base index len h = absurd (omega arith)
decode_loop_returns (suc left) (b ∷ encode) base index len h =
    elim (Bool-cases (bit_and b 0x80 == 0)) [
      | inl last ↦ (index + 1, (len + bit_and b 0x7f * base) % 2 ^ 32, rw last)
      | inr inner ↦ rw inner (decode_loop_returns left encode _ _ _ (omega arith))
    ]

-- `remain_length_decode` returns MQTT_SUCCESS, and reads no byte that is not there, whenever as
-- many bytes follow as `*encode_len` says, or four.
remain_length_decode_returns :
    (encode : Bytes) (n : ℕ)
    → min n 4 ≤ length encode
    → (l : ℕ) × (v : ℕ) × (remain_length_decode encode n ≡ ok (l, v))
unfolding remain_length_decode
remain_length_decode_returns encode n h = rw capped (decode_loop_returns (min n 4) encode 1 0 0 h)

-- A field of one byte.
pub remain_length_decode_one :
    (b n : ℕ) (rest : Bytes) → b < 128 → 1 ≤ n → remain_length_decode (b ∷ rest) n ≡ ok (1, b)
unfolding remain_length_decode decode_loop
remain_length_decode_one b n rest hb hn = elim (Bool-cases (leb n 4)) [
  | inl small ↦ rw small (one_byte n hn)
  | inr large ↦ rw large (one_byte 4 (omega arith))
]
  where
    one_byte : (m : ℕ) → 1 ≤ m → decode_loop m (b ∷ rest) 1 0 0 ≡ ok (1, b)
    one_byte zero h = absurd (omega arith)
    one_byte (suc m) h = ground (arith, low_seven b, top_bit b)

-- With `*encode_len` 0 no byte is read, and the field is taken to have one byte and to say 0.
pub remain_length_decode_none : (encode : Bytes) → remain_length_decode encode 0 ≡ ok (1, 0)
unfolding remain_length_decode decode_loop
remain_length_decode_none encode = refl
