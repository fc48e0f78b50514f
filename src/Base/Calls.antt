-- ===== src/Base/Calls.antt =====
-- What a call of the C code comes to.
use Prim.Native.Nat.{ℕ}
use mathlib.Core.Path.{◌≡◌, refl, subst}
use mathlib.Core.Bool.{Bool, true, false}
use simple_mqtt.Base.Tests.{if◌then◌else◌}
use mathlib.Core.Option.{Option, none, some}

-- `ok` is a return of MQTT_SUCCESS with what the out parameters then hold, and `err` a return of
-- another code. `fault` is undefined behaviour: a read or a write outside an allocation, or through
-- a NULL or an uninitialised pointer. `stuck` is no behaviour of the code: a loop of the model ran
-- out of fuel.
pub data Outcome {ℓ} (A : Type ℓ) : Type ℓ where
  ok : A → Outcome A
  err : ℕ → Outcome A
  fault : Outcome A
  stuck : Outcome A

infixl 5 ◌>>=◌ ◌>>◌
abbrev pub ◌>>=◌ {ℓ κ} : {A : Type ℓ} {B : Type κ} → Outcome A → (A → Outcome B) → Outcome B
stuck >>= next = stuck
fault >>= next = fault
err code >>= next = err code
ok out >>= next = next out

-- A call whose results are not used.
abbrev pub ◌>>◌ {ℓ} : {A : Type ℓ} → Outcome (Unit {0}) → Outcome A → Outcome A
call >> rest = call >>= λ out. rest

-- `if (bad) return code;`
abbrev pub refuse_if : Bool → ℕ → Outcome (Unit {0})
refuse_if true code = err code
refuse_if false code = ok tt

-- The access is undefined unless the test holds.
abbrev pub defined_if : Bool → Outcome (Unit {0})
defined_if true = ok tt
defined_if false = fault

pub >>=-eq-ok {ℓ κ} :
    {A : Type ℓ} {B : Type κ} (m : Outcome A) (f : A → Outcome B) {b : B}
    → (m >>= f) ≡ ok b
    → (a : A) × (m ≡ ok a) × (f a ≡ ok b)
>>=-eq-ok stuck next e = cc
>>=-eq-ok fault next e = cc
>>=-eq-ok (err code) next e = cc
>>=-eq-ok (ok out) next e = (out, refl, e)

-- `if (ptr == NULL) return code;`
abbrev pub non_null {ℓ} : {A : Type ℓ} → Option A → ℕ → Outcome A
non_null none code = err code
non_null (some a) code = ok a

abbrev pub is_null {ℓ} : {A : Type ℓ} → Option A → Bool
is_null none = true
is_null (some a) = false

-- A chain of calls does not get stuck if none of them does.
pub >>=-ne-stuck {ℓ κ} :
    {A : Type ℓ} {B : Type κ} (m : Outcome A) (f : A → Outcome B)
    → ¬ (m ≡ stuck)
    → ((a : A) → m ≡ ok a → ¬ (f a ≡ stuck))
    → ¬ ((m >>= f) ≡ stuck)
>>=-ne-stuck (ok a) f h k = k a refl
>>=-ne-stuck (err e) f h k = λ p. cc
>>=-ne-stuck fault f h k = λ p. cc
>>=-ne-stuck stuck f h k = λ p. h refl

-- A chain of calls, however it is put together.
pub >>=_assoc {ℓ κ μ} :
    {A : Type ℓ} {B : Type κ} {C : Type μ} (m : Outcome A) (f : A → Outcome B) (g : B → Outcome C)
    → ((m >>= f) >>= g) ≡ (m >>= λ a. f a >>= g)
>>=_assoc (ok a) f g = refl
>>=_assoc (err e) f g = refl
>>=_assoc fault f g = refl
>>=_assoc stuck f g = refl

pub >>=_ext {ℓ κ} :
    {A : Type ℓ} {B : Type κ} (m : Outcome A) (f g : A → Outcome B)
    → ((a : A) → f a ≡ g a)
    → (m >>= f) ≡ (m >>= g)
>>=_ext (ok a) f g h = h a
>>=_ext (err e) f g h = refl
>>=_ext fault f g h = refl
>>=_ext stuck f g h = refl

pub if-ne-stuck {ℓ} :
    {A : Type ℓ} (b : Bool) (first second : Outcome A)
    → ¬ (first ≡ stuck)
    → ¬ (second ≡ stuck)
    → ¬ ((if b then first else second) ≡ stuck)
if-ne-stuck true first second h k = h
if-ne-stuck false first second h k = k

-- Wherever a call succeeds, its results have a property.
abbrev pub Yields {ℓ κ} : {A : Type ℓ} → (A → Type κ) → Outcome A → Type κ
Yields P (ok a) = P a
Yields P (err code) = Unit
Yields P fault = Unit
Yields P stuck = Unit

pub bind-Yields {ℓ κ μ ν} :
    {A : Type ℓ} {B : Type κ} (P : A → Type μ) (Q : B → Type ν) (m : Outcome A) (f : A → Outcome B)
    → Yields P m
    → ((a : A) → P a → Yields Q (f a))
    → Yields Q (m >>= f)
bind-Yields P Q (ok a) f h rest = rest a h
bind-Yields P Q (err code) f h rest = tt
bind-Yields P Q fault f h rest = tt
bind-Yields P Q stuck f h rest = tt

pub Yields-ok {ℓ κ} :
    {A : Type ℓ} (P : A → Type κ) (m : Outcome A) {a : A} → Yields P m → m ≡ ok a → P a
Yields-ok P m h e = subst (Yields P) e h
