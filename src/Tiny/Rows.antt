-- ===== src/Tiny/Rows.antt =====
-- The documents of a TinyDB table as a list: what its queries select and its updates leave.
pub mod Laws
use bumper.Prelude.{
  ℕ, ◌+◌, ◌≡◌, ◌≢◌, ◌⊎◌, Bool, false, Option, none, some, List, [], ◌∷◌, ◌||◌, nat_eq,
  if◌then◌else◌,
}

pub record Document (D : Type 0) : Type 0 where
  pub doc_id : ℕ
  pub fields : D

module _ {D : Type 0} where
  unfoldable pub first : (D → Bool) → List (Document D) → Option (Document D)
  first q [] = none
  first q (r ∷ rs) = if q r.fields then some r else first q rs

  unfoldable pub matching : (D → Bool) → List (Document D) → List (Document D)
  matching q [] = []
  matching q (r ∷ rs) = let rest = matching q rs in if q r.fields then r ∷ rest else rest

  unfoldable pub any_match : (D → Bool) → List (Document D) → Bool
  any_match q [] = false
  any_match q (r ∷ rs) = q r.fields || any_match q rs

  unfoldable pub count : (D → Bool) → List (Document D) → ℕ
  count q [] = 0
  count q (r ∷ rs) = (if q r.fields then 1 else 0) + count q rs

  unfoldable pub merge_matching :
      (D → D → D) → D → (D → Bool) → List (Document D) → List (Document D)
  merge_matching update d q [] = []
  merge_matching update d q (r ∷ rs) =
      (if q r.fields then record r { fields = update r.fields d } else r)
      ∷ merge_matching update d q rs

  unfoldable pub without_id : ℕ → List (Document D) → List (Document D)
  without_id i [] = []
  without_id i (r ∷ rs) = let rest = without_id i rs in if nat_eq r.doc_id i then rest else r ∷ rest

  abbrev pub HasId : ℕ → List (Document D) → Type 0
  HasId i [] = ⊥
  HasId i (r ∷ rs) = (r.doc_id ≡ i) ⊎ HasId i rs

  abbrev pub IsFresh : ℕ → List (Document D) → Type 0
  IsFresh i [] = Unit
  IsFresh i (r ∷ rs) = (r.doc_id ≢ i) × IsFresh i rs

  abbrev pub Distinct : List (Document D) → Type 0
  Distinct [] = Unit
  Distinct (r ∷ rs) = IsFresh r.doc_id rs × Distinct rs
