-- ===== src/Examples/Zeros.antt =====
-- Long data for the examples.
use simple_mqtt.Base.{ℕ, zero, suc, ◌≡◌, refl, arith, [], ◌∷◌, length, Bytes}

-- So many zeros.
pub zeros : ℕ → Bytes
zeros zero = []
zeros (suc n) = 0 ∷ zeros n

pub length-zeros : (n : ℕ) → length (zeros n) ≡ n
unfolding zeros
length-zeros zero = refl
length-zeros (suc n) = omega (arith, length-zeros n)
