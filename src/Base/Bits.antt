-- ===== src/Base/Bits.antt =====
-- Masks on one byte as arithmetic, each a table of at most 256 entries checked by evaluation.
use Prim.Native.Nat.{ℕ, zero, suc, ◌+◌, ◌*◌, ◌/◌, ◌%◌, ◌<◌, bit_and, bit_or}
use mathlib.Core.Path.{◌≡◌, refl}
use mathlib.Core.Bool.{Bool, true, false}
use native.Mathlib.Omega.{arith}
use simple_mqtt.Base.Tests.{◌==◌, if◌then◌else◌}

agree_below : (ℕ → ℕ) → (ℕ → ℕ) → ℕ → Bool
agree_below f g zero = true
agree_below f g (suc n) = if f n == g n then agree_below f g n else false

both : (p q : Bool) → (if p then q else false) ≡ true → (p ≡ true) × (q ≡ true)
both true q e = (refl, e)
both false q e = cc

agree : (f g : ℕ → ℕ) (n : ℕ) → agree_below f g n ≡ true → (b : ℕ) → b < n → f b ≡ g b
unfolding agree_below
agree f g zero table b below = absurd (omega arith)
agree f g (suc n) table b below =
    let (here, there) = both (f n == g n) (agree_below f g n) table in
    ground (arith, agree f g n there b)

pub low_seven : (b : ℕ) → b < 256 → bit_and b 0x7f ≡ b % 128
unfolding agree_below
low_seven = agree _ _ 256 refl

pub top_bit : (b : ℕ) → b < 256 → bit_and b 0x80 ≡ b / 128 * 128
unfolding agree_below
top_bit = agree _ _ 256 refl

pub set_top_bit : (b : ℕ) → b < 128 → bit_or b 0x80 ≡ b + 128
unfolding agree_below
set_top_bit = agree _ _ 128 refl

pub high_nibble : (b : ℕ) → b < 256 → bit_and b 0xf0 ≡ b / 16 * 16
unfolding agree_below
high_nibble = agree _ _ 256 refl

pub low_nibble : (b : ℕ) → b < 256 → bit_and b 0x0f ≡ b % 16
unfolding agree_below
low_nibble = agree _ _ 256 refl

pub high_seven : (b : ℕ) → b < 256 → bit_and b 0xfe ≡ b / 2 * 2
unfolding agree_below
high_seven = agree _ _ 256 refl

pub low_bit : (b : ℕ) → b < 256 → bit_and b 1 ≡ b % 2
unfolding agree_below
low_bit = agree _ _ 256 refl
