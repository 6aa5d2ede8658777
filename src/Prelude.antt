-- ===== src/Prelude.antt =====
-- What the modules share: the libraries' names, the tests on numbers, Python's text operations
-- and the results of code that may raise.
pub mod Exec
pub mod Text
pub use Prim.Native.Nat.{ℕ, zero, suc, ◌+◌, ◌-◌, ◌*◌, ◌≤◌, ◌<◌}
use Prim.Native.Nat.{compare, Ordering}
pub use Prim.Native.String.{String}
pub use mathlib.Core.Path.{◌≡◌, refl, sym, ap, ◌∙◌, subst}
pub use mathlib.Core.Logic.{◌≢◌, ◌⊎◌, inl, inr, ◌↔◌}
pub use mathlib.Core.Bool.{Bool, true, false, not, ◌&&◌, ◌||◌}
pub use mathlib.Core.Option.{Option, none, some}
use mathlib.Core.Option
pub use mathlib.Core.List.{List, [], ◌∷◌, ◌++◌, map, append-nil, append_assoc}
pub use native.Mathlib.Omega.{arith}
pub use text.Mathlib.Text.{◌==◌}
pub use text.Mathlib.TextEquality.{eq_iff}
pub use text.Mathlib.TextPositions.{eq_refl}

abbrev pub ltb : ℕ → ℕ → Bool
ltb a b = elim (compare a b) [ Ordering.lt ↦ true | _ ↦ false ]

abbrev pub leb : ℕ → ℕ → Bool
leb a b = elim (compare a b) [ Ordering.gt ↦ false | _ ↦ true ]

abbrev pub nat_eq : ℕ → ℕ → Bool
nat_eq a b = elim (compare a b) [ Ordering.eq ↦ true | _ ↦ false ]

infix 1 if◌then◌else◌
abbrev pub if◌then◌else◌ {ℓ} : {A : Type ℓ} → Bool → A → A → A
if true then x else y = x
if false then x else y = y

-- To split on a computed test and keep the equation.
pub Bool-cases : (b : Bool) → (b ≡ true) ⊎ (b ≡ false)
Bool-cases true = inl refl
Bool-cases false = inr refl

pub Option-cases {ℓ} : {A : Type ℓ} (o : Option A) → (o ≡ none) ⊎ ((a : A) × (o ≡ some a))
Option-cases none = inl refl
Option-cases (some a) = inr (a, refl)

abbrev pub is_some {ℓ} : {A : Type ℓ} → Option A → Bool
is_some none = false
is_some (some a) = true

-- `d.get(key) == value`, on a key that may be missing
abbrev pub field_is : Option String → String → Bool
field_is none k = false
field_is (some s) k = s == k

pub eq_comm : (s t : String) → (s == t) ≡ (t == s)
eq_comm s t = ground (arith, eq_iff s t, eq_iff t s)

pub field_is_sound : (o : Option String) (k : String) → field_is o k ≡ true → o ≡ some k
field_is_sound none k h = cc
field_is_sound (some s) k h = ap some ((eq_iff s k).0 h)

-- A change of those that pass a test, where the one that is there passes it or not.
pub map-if {ℓ} :
    {A : Type ℓ} (p : A → Bool) (f : A → A) (c : Bool) (o : Option A)
    → ((a : A) → o ≡ some a → p a ≡ c)
    → Option.map (λ a. if p a then f a else a) o ≡ (if c then Option.map f o else o)
map-if p f true none h = refl
map-if p f false none h = refl
map-if p f true (some a) h = rw (h a refl)
map-if p f false (some a) h = rw (h a refl)

-- `dict.update` on one key: the new value where there is one
abbrev pub newer {ℓ} : {A : Type ℓ} → Option A → Option A → Option A
newer old none = old
newer old (some v) = some v

-- `x in xs` on a list of texts
unfoldable pub contains : String → List String → Bool
contains x [] = false
contains x (y ∷ ys) = y == x || contains x ys

-- `xs.remove(x)`, the first occurrence
unfoldable pub remove_first : String → List String → List String
remove_first x [] = []
remove_first x (y ∷ ys) = if y == x then ys else y ∷ remove_first x ys

-- Every element of a list has a property.
pub data All {A : Type 0} (P : A → Type 0) : List A → Type 0 where
  all_nil : All P []
  all_cons : {x : A} {l : List A} → P x → All P l → All P (x ∷ l)

pub All-snoc :
    {A : Type 0} (P : A → Type 0) (x : A) (l : List A) → All P l → P x → All P (l ++ x ∷ [])
All-snoc P x [] all_nil h = all_cons h all_nil
All-snoc P x (y ∷ l) (all_cons p rest) h = all_cons p (All-snoc P x l rest h)

pub some_inj : {A : Type 0} {x y : A} → some x ≡ some y → x ≡ y
some_inj h = cc

pub both_true : (a b : Bool) → (a && b) ≡ true → (a ≡ true) × (b ≡ true)
both_true true b h = (refl, h)
both_true false b h = cc
