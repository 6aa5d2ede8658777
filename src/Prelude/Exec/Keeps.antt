-- ===== src/Prelude/Exec/Keeps.antt =====
-- Code that keeps a property of the state, also when it raises.
use bumper.Prelude.{Bool, true, false, Option, none, some, if◌then◌else◌}
use bumper.Prelude.Exec.{Exec, Result, Error, ok, err, pure, need, continue, ◌>>=◌}

module _ {S : Type 0} (P : S → Type 0) where
  unfoldable pub Keeps : {A : Type 0} → Exec S A → Type 0
  Keeps m = (s : S) → P s → P (m s).1

  continue-Keeps :
      {A B : Type 0} (f : A → Exec S B)
      → ((a : A) → Keeps (f a))
      → (r : Result A × S) → P r.1
      → P (continue f r).1
  unfolding Keeps
  continue-Keeps f keep (ok a, s) holds = keep a s holds
  continue-Keeps f keep (err e, s) holds = holds

  pub bind-Keeps :
      {A B : Type 0} (m : Exec S A) (f : A → Exec S B)
      → Keeps m
      → ((a : A) → Keeps (f a))
      → Keeps (m >>= f)
  unfolding Keeps
  bind-Keeps m f m_keeps f_keeps s holds = continue-Keeps f f_keeps (m s) (m_keeps s holds)

  pub need-Keeps : {A : Type 0} (e : Error) (o : Option A) → Keeps (need {S = S} e o)
  unfolding Keeps
  need-Keeps e none s holds = holds
  need-Keeps e (some a) s holds = holds

  pub if_Keeps :
      {A : Type 0} (b : Bool) (m n : Exec S A) → Keeps m → Keeps n → Keeps (if b then m else n)
  if_Keeps true m n m_keeps n_keeps = m_keeps
  if_Keeps false m n m_keeps n_keeps = n_keeps

  pub pure-Keeps : {A : Type 0} (a : A) → Keeps (pure a)
  unfolding Keeps
  pure-Keeps a s holds = holds
