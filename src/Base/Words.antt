-- ===== src/Base/Words.antt =====
-- Bytes, memory and machine words. A pointer into a buffer is the list of the bytes from there to
-- the end of the allocation, so `ptr + n` is `drop n ptr`.
use Prim.Native.Nat.{ℕ, ◌+◌, ◌-◌, ◌*◌, ◌/◌, ◌%◌, ◌^◌, ◌≤◌, ◌<◌}
use mathlib.Core.Path.{◌≡◌, refl}
use mathlib.Core.List.{List, [], ◌∷◌, ◌++◌}
use native.Mathlib.Omega.{arith}
use simple_mqtt.Base.Tests.{leb, if◌then◌else◌}
use simple_mqtt.Base.Lists.{length, take, take_append, take_all, length-append}
use simple_mqtt.Base.Calls.{Outcome, ok, fault}

abbrev pub Bytes : Type 0
Bytes = List ℕ

abbrev pub IsByte : ℕ → Type 0
IsByte b = b < 256

abbrev pub IsU16 : ℕ → Type 0
IsU16 n = n < 65536

abbrev pub IsU32 : ℕ → Type 0
IsU32 n = n < 2 ^ 32

-- uint32_t a + b and a - b
abbrev pub add32 : ℕ → ℕ → ℕ
add32 a b = (a + b) % 2 ^ 32

abbrev pub sub32 : ℕ → ℕ → ℕ
sub32 a b = (a + 2 ^ 32 - b % 2 ^ 32) % 2 ^ 32

-- `*ptr`
unfoldable pub deref : Bytes → Outcome ℕ
deref [] = fault
deref (b ∷ bs) = ok b

-- `memcpy(dst, ptr, n)`: the bytes copied
unfoldable pub read : ℕ → Bytes → Outcome Bytes
read n bs = if leb n (length bs) then ok (take n bs) else fault

-- A buffer of `cap` bytes is written from its start on, in order. Some write leaves it just when
-- there are more bytes than that.
unfoldable pub emit : ℕ → Bytes → Outcome Bytes
emit cap bs = if leb (length bs) cap then ok bs else fault

-- A uint16_t in network order, as `htons` and `memcpy` leave it on the wire.
abbrev pub net16 : ℕ → Bytes
net16 n = (n / 256) ∷ (n % 256) ∷ []

-- `ntohs(*(uint16_t *)ptr)`
unfoldable pub get16 : Bytes → Outcome ℕ
get16 [] = fault
get16 (a ∷ []) = fault
get16 (a ∷ b ∷ bs) = ok (a * 256 + b)

-- What the two library calls do on a host, whose byte order is one of these.
pub data Endian : Type 0 where
  little big : Endian

pub htons : Endian → ℕ → ℕ
htons little n = n % 256 * 256 + n / 256
htons big n = n

store16 : Endian → ℕ → Bytes
store16 little n = (n % 256) ∷ (n / 256) ∷ []
store16 big n = (n / 256) ∷ (n % 256) ∷ []

-- On either host the bytes on the wire are those of `net16`.
store16-htons : (host : Endian) (n : ℕ) → n < 65536 → store16 host (htons host n) ≡ net16 n
unfolding store16 htons
store16-htons little n h = ground arith
store16-htons big n h = refl

pub get16-net16 : (n : ℕ) (bs : Bytes) → get16 (net16 n ++ bs) ≡ ok n
unfolding get16
get16-net16 n bs = ground arith

pub emit_lem : (cap : ℕ) (bs : Bytes) → length bs ≤ cap → emit cap bs ≡ ok bs
unfolding emit
emit_lem cap bs h = ground arith

pub emit_short : (cap : ℕ) (bs : Bytes) → cap < length bs → emit cap bs ≡ fault
unfolding emit
emit_short cap bs h = ground arith

pub read_append : (xs ys : Bytes) → read (length xs) (xs ++ ys) ≡ ok xs
unfolding read
read_append xs ys = ground (arith, take_append xs ys, length-append xs ys)

-- The number that `get16` reads from `net16 n`.
pub net16_value : (n : ℕ) → n / 256 * 256 + n % 256 ≡ n
net16_value n = omega arith

pub sub32_lem : (a b : ℕ) → b ≤ a → a < 2 ^ 32 → sub32 a b ≡ a - b
sub32_lem a b h ha = omega arith

pub read_all : (xs : Bytes) → read (length xs) xs ≡ ok xs
unfolding read
read_all xs = ground (arith, take_all (length xs) xs)
