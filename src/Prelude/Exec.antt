-- ===== src/Prelude/Exec.antt =====
-- Python code that changes a state and may raise. What was written before an exception stays
-- written, so the state comes back beside the exception too.
pub mod Keeps
use mathlib.Core.Option.{Option, none, some}

-- The exceptions that the modelled code can raise.
pub data Error : Type 0 where
  key_error unbound_local assertion_error index_error value_error attribute_error : Error

pub data Result {ℓ} (A : Type ℓ) : Type ℓ where
  ok : A → Result A
  err : Error → Result A

abbrev pub Exec : Type 0 → Type 0 → Type 0
Exec S A = S → Result A × S

module _ {S A : Type 0} where
  abbrev pub pure : A → Exec S A
  pure a s = (ok a, s)

  abbrev pub raise : Error → Exec S A
  raise e s = (err e, s)

  -- `d[key]`, and every other value that must be there
  abbrev pub need : Error → Option A → Exec S A
  need e none s = (err e, s)
  need e (some a) s = (ok a, s)

  abbrev pub needs : Error → (S → Option A) → Exec S A
  needs e f s = need e (f s) s

  abbrev pub gets : (S → A) → Exec S A
  gets f s = (ok (f s), s)

abbrev pub modify : {S : Type 0} → (S → S) → Exec S (Unit {0})
modify f s = (ok tt, f s)

module _ {S A B : Type 0} where
  abbrev pub continue : (A → Exec S B) → Result A × S → Result B × S
  continue f (ok a, s) = f a s
  continue f (err e, s) = (err e, s)

  infixl 10 ◌>>=◌ ◌>>◌
  abbrev pub ◌>>=◌ : Exec S A → (A → Exec S B) → Exec S B
  ◌>>=◌ m f s = continue f (m s)

  abbrev pub ◌>>◌ : Exec S A → Exec S B → Exec S B
  m >> n = m >>= λ _. n
