-- ===== src/Client/Api/Returns.antt =====
-- src/client/client.c: what holds of the state and the code wherever a call returns.
use simple_mqtt.Base.{
  ℕ, ◌≡◌, ◌≢◌, subst, Bool, true, false, if◌then◌else◌, Outcome, ok, err, fault, stuck, ◌>>=◌,
}
use simple_mqtt.Message.Filters.Errors.{Coded}
use simple_mqtt.Client.Connection.{Session, Called}
use simple_mqtt.Client.Api.{on_code}

abbrev pub Returns : (Session → ℕ → Type 0) → Called → Type 0
Returns P (ok (session, code)) = P session code
Returns P (err code) = Unit
Returns P fault = Unit
Returns P stuck = Unit

pub Returns-ok :
    (P : Session → ℕ → Type 0) (called : Called) {session : Session} {code : ℕ}
    → Returns P called
    → called ≡ ok (session, code)
    → P session code
Returns-ok P called h e = subst (Returns P) e h

-- The ways in which the calls are put together.
module _ (P : Session → ℕ → Type 0) where
  pub bind-Returns {ℓ} :
      {A : Type ℓ} (m : Outcome A) (f : A → Called)
      → ((a : A) → Returns P (f a))
      → Returns P (m >>= f)
  bind-Returns (ok a) f rest = rest a
  bind-Returns (err code) f rest = tt
  bind-Returns fault f rest = tt
  bind-Returns stuck f rest = tt

  pub on_code-Returns {ℓ} :
      {A : Type ℓ} (m : Outcome A) (failed : ℕ → Called) (done : A → Called)
      → ((code : ℕ) → Returns P (failed code))
      → ((a : A) → Returns P (done a))
      → Returns P (on_code m failed done)
  on_code-Returns (ok a) failed done bad good = good a
  on_code-Returns (err code) failed done bad good = bad code
  on_code-Returns fault failed done bad good = tt
  on_code-Returns stuck failed done bad good = tt

  pub on_code-Returns-Coded {ℓ} :
      {A : Type ℓ} (m : Outcome A) (failed : ℕ → Called) (done : A → Called)
      → Coded m
      → ((code : ℕ) → code ≢ 0 → Returns P (failed code))
      → ((a : A) → Returns P (done a))
      → Returns P (on_code m failed done)
  on_code-Returns-Coded (ok a) failed done ne bad good = good a
  on_code-Returns-Coded (err code) failed done ne bad good = bad code ne
  on_code-Returns-Coded fault failed done ne bad good = tt
  on_code-Returns-Coded stuck failed done ne bad good = tt

  pub if-Returns :
      (b : Bool) (first second : Called)
      → Returns P first
      → Returns P second
      → Returns P (if b then first else second)
  if-Returns true first second h k = h
  if-Returns false first second h k = k
