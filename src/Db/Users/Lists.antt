-- ===== src/Db/Users/Lists.antt =====
-- The lists of devices and bots that a user's document holds.
use bumper.Prelude.{
  ℕ, ◌+◌, ◌-◌, ◌≡◌, refl, String, true, false, ◌==◌, ◌&&◌, not, List, [], ◌∷◌, ◌++◌, arith, eq_iff,
  eq_refl, inl, inr, if◌then◌else◌, contains, remove_first, Bool-cases, ◌∙◌,
}
use bumper.Db.Users.{add_new, drop_old}

-- How often a text stands in a list.
unfoldable pub copies : String → List String → ℕ
copies x [] = 0
copies x (y ∷ ys) = (if y == x then 1 else 0) + copies x ys

copies-append : (x : String) (l m : List String) → copies x (l ++ m) ≡ copies x l + copies x m
unfolding copies
copies-append x [] m = omega arith
copies-append x (y ∷ l) m = omega (arith, copies-append x l m)

copies_of_missing : (x : String) (l : List String) → contains x l ≡ false → copies x l ≡ 0
unfolding contains copies
copies_of_missing x [] h = refl
copies_of_missing x (y ∷ l) h = ground (arith, copies_of_missing x l)

missing_of_copies : (x : String) (l : List String) → copies x l ≡ 0 → contains x l ≡ false
unfolding contains copies
missing_of_copies x [] h = refl
missing_of_copies x (y ∷ l) h = ground (arith, missing_of_copies x l)

copies-remove_first :
    (x y : String) (l : List String)
    → copies y (remove_first x l) ≡ copies y l - (if x == y && contains x l then 1 else 0)
unfolding copies remove_first contains
copies-remove_first x y [] = ground arith
copies-remove_first x y (z ∷ l) =
    ground (arith, eq_iff z x, eq_iff z y, eq_iff x y, copies-remove_first x y l)

-- Adding leaves every other text as often as it was, and its own at least once: once more only if
-- it was not there. Removing takes away one of its own.
pub copies-edit :
    (x y : String) (l : List String)
    → (copies y (add_new x l) ≡ copies y l + (if x == y && not (contains x l) then 1 else 0))
      × (copies y (drop_old x l) ≡ copies y l - (if x == y && contains x l then 1 else 0))
unfolding add_new drop_old copies
copies-edit x y l = (
  elim (Bool-cases (contains x l)) [
    | inl e ↦ rw e (ground arith)
    | inr e ↦ rw (e, copies-append) (ground arith)
  ],
  elim (Bool-cases (contains x l)) [
    | inl e ↦ rw e (copies-remove_first x y l ∙ rw e)
    | inr e ↦ rw e (ground arith)
  ],
)

contains_end : (x : String) (l : List String) → contains x (l ++ x ∷ []) ≡ true
unfolding contains
contains_end x [] = rw eq_refl
contains_end x (z ∷ l) = ground (arith, contains_end x l)

pub contains-add_new : (x : String) (l : List String) → contains x (add_new x l) ≡ true
unfolding add_new
contains-add_new x l = elim (Bool-cases (contains x l)) [
  | inl e ↦ rw (e, e)
  | inr e ↦ rw e (contains_end x l)
]
