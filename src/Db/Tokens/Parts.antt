-- ===== src/Db/Tokens/Parts.antt =====
-- Lists of tokens that keep some of the elements of another, as the sweeps of bumper/db.py leave.
use bumper.Prelude.{◌≤◌, ◌≡◌, refl, Bool, false, List, [], ◌∷◌, ◌++◌, arith, inl, inr, Bool-cases}
use bumper.Tiny.Rows.{Document, any_match, count}
use bumper.Db.Documents.{TokenDoc}
use bumper.Db.Tokens.Sweep.{others}

-- A list that keeps some of the elements of another, in their order
pub data IsPart : List (Document TokenDoc) → List (Document TokenDoc) → Type 0 where
  no_more : IsPart [] []
  kept :
      {r : Document TokenDoc} {l m : List (Document TokenDoc)} → IsPart l m → IsPart (r ∷ l) (r ∷ m)
  left_out :
      {r : Document TokenDoc} {l m : List (Document TokenDoc)} → IsPart l m → IsPart l (r ∷ m)

pub count-IsPart :
    (q : TokenDoc → Bool) {l m : List (Document TokenDoc)} → IsPart l m → count q l ≤ count q m
unfolding count
count-IsPart q no_more = omega arith
count-IsPart q (kept p) = omega (arith, count-IsPart q p)
count-IsPart q (left_out p) = omega (arith, count-IsPart q p)

pub any_match-IsPart :
    (q : TokenDoc → Bool) {l m : List (Document TokenDoc)}
    → IsPart l m
    → any_match q m ≡ false
    → any_match q l ≡ false
unfolding any_match
any_match-IsPart q no_more h = refl
any_match-IsPart q (kept p) h = ground (arith, any_match-IsPart q p)
any_match-IsPart q (left_out p) h = any_match-IsPart q p (ground arith)

pub same-IsPart : (l : List (Document TokenDoc)) → IsPart l l
same-IsPart [] = no_more
same-IsPart (r ∷ l) = kept (same-IsPart l)

pub middle-IsPart :
    (l m : List (Document TokenDoc)) (r : Document TokenDoc) → IsPart (l ++ m) (l ++ r ∷ m)
middle-IsPart [] m r = left_out (same-IsPart m)
middle-IsPart (s ∷ l) m r = kept (middle-IsPart l m r)

pub others-IsPart : (q : TokenDoc → Bool) (l : List (Document TokenDoc)) → IsPart (others q l) l
unfolding others
others-IsPart q [] = no_more
others-IsPart q (r ∷ l) = elim (Bool-cases (q r.fields)) [
  | inl e ↦ rw (e, others) (left_out (others-IsPart q l))
  | inr e ↦ rw (e, others) (kept (others-IsPart q l))
]
