-- ===== src/Mqtt/Helper/Entries.antt =====
-- The entries of `_commands` of bumper/mqtt/helper_bot.py: which number a request id finds.
use bumper.Prelude.{
  ℕ, ◌<◌, ◌≡◌, ◌≢◌, ◌⊎◌, ◌∙◌, refl, sym, subst, some_inj, String, ◌==◌, true, false, none, some,
  List, [], ◌∷◌, nat_eq, inl, inr, Bool-cases, All, all_nil, all_cons, arith, eq_iff, eq_refl,
}
use bumper.Mqtt.Helper.{find_command}
use bumper.Mqtt.Sessions.{set_entry}
use bumper.Mqtt.Messages.{remove_entry}

pub nat_eq_refl : (n : ℕ) → nat_eq n n ≡ true
nat_eq_refl n = ground arith

pub nat_eq_below : (m n : ℕ) → m < n → (nat_eq m n ≡ false) × (nat_eq n m ≡ false)
nat_eq_below m n h = (ground arith, ground arith)

pub nat_eq_comm : (m n : ℕ) → nat_eq m n ≡ false → nat_eq n m ≡ false
nat_eq_comm m n h = ground arith

same_key : (j k l : String) → (j == k) ≡ true → (k == l) ≡ false → (j == l) ≡ false
same_key j k l h other = subst (λ x. (x == l) ≡ false) (sym ((eq_iff j k).0 h)) other

-- The entries that other request ids may have: none of them has the number.
abbrev pub IsAlone : String → ℕ → List (String × ℕ) → Type 0
IsAlone id n l = All (λ (e : String × ℕ). ((e.0 == id) ≡ true) ⊎ (nat_eq e.1 n ≡ false)) l

abbrev pub AreBelow : ℕ → List (String × ℕ) → Type 0
AreBelow n l = All (λ (e : String × ℕ). e.1 < n) l

-- A property of all entries, of which one is set or removed
pub All-set_entry :
    (P : String × ℕ → Type 0) (k : String) (n : ℕ) (l : List (String × ℕ))
    → P (k, n)
    → All P l
    → All P (set_entry k n l)
unfolding set_entry
All-set_entry P k n [] h all_nil = all_cons h all_nil
All-set_entry P k n ((j, m) ∷ l) h (all_cons p rest) = elim (Bool-cases (j == k)) [
  | inl e ↦ rw (e) (all_cons h rest)
  | inr e ↦ rw (e) (all_cons p (All-set_entry P k n l h rest))
]

pub All-remove_entry :
    (P : String × ℕ → Type 0) (k : String) (l : List (String × ℕ))
    → All P l
    → All P (remove_entry k l)
unfolding remove_entry
All-remove_entry P k [] all_nil = all_nil
All-remove_entry P k ((j, m) ∷ l) (all_cons p rest) = elim (Bool-cases (j == k)) [
  | inl e ↦ rw (e) (All-remove_entry P k l rest)
  | inr e ↦ rw (e) (all_cons p (All-remove_entry P k l rest))
]

pub find_command-set_entry :
    (id : String) (n : ℕ) (l : List (String × ℕ)) → find_command id (set_entry id n l) ≡ some n
unfolding find_command set_entry
find_command-set_entry id n [] = rw (eq_refl id) refl
find_command-set_entry id n ((j, m) ∷ l) = elim (Bool-cases (j == id)) [
  | inl e ↦ rw (e, eq_refl id) refl
  | inr e ↦ rw (e) (rw (e) (find_command-set_entry id n l))
]

pub find_command-set_other :
    (id k : String) (n : ℕ) (l : List (String × ℕ))
    → (k == id) ≡ false
    → find_command id (set_entry k n l) ≡ find_command id l
unfolding find_command set_entry
find_command-set_other id k n [] other = rw (other) refl
find_command-set_other id k n ((j, m) ∷ l) other = elim (Bool-cases (j == k)) [
  | inl e ↦ rw (e, other, same_key j k id e other) refl
  | inr e ↦ elim (Bool-cases (j == id)) [
    | inl f ↦ rw (e) (rw (f) refl)
    | inr f ↦ rw (e) (rw (f) (find_command-set_other id k n l other))
  ]
]

pub find_command-remove_entry :
    (id : String) (l : List (String × ℕ)) → find_command id (remove_entry id l) ≡ none
unfolding find_command remove_entry
find_command-remove_entry id [] = refl
find_command-remove_entry id ((j, m) ∷ l) = elim (Bool-cases (j == id)) [
  | inl e ↦ rw (e) (find_command-remove_entry id l)
  | inr e ↦ rw (e) (rw (e) (find_command-remove_entry id l))
]

pub find_command-remove_other :
    (id k : String) (l : List (String × ℕ))
    → (k == id) ≡ false
    → find_command id (remove_entry k l) ≡ find_command id l
unfolding find_command remove_entry
find_command-remove_other id k [] other = refl
find_command-remove_other id k ((j, m) ∷ l) other = elim (Bool-cases (j == k)) [
  | inl e ↦ rw (e, same_key j k id e other) (find_command-remove_other id k l other)
  | inr e ↦ elim (Bool-cases (j == id)) [
    | inl f ↦ rw (e) (rw (f) refl)
    | inr f ↦ rw (e) (rw (f) (find_command-remove_other id k l other))
  ]
]

-- The number that another request id finds is another.
pub find_alone :
    (id k : String) (n m : ℕ) (l : List (String × ℕ))
    → IsAlone id n l
    → (k == id) ≡ false
    → find_command k l ≡ some m
    → nat_eq m n ≡ false
unfolding find_command
find_alone id k n m [] all_nil other h = cc
find_alone id k n m ((j, i) ∷ l) (all_cons p rest) other h = elim (Bool-cases (j == k)) [
  | inr e ↦ find_alone id k n m l rest other (sym (missed e) ∙ h)
  | inl e ↦ elim p [
    | inl f ↦ elim (true-false (sym f ∙ same_key j k id e other)) [ ]
    | inr f ↦ subst (λ x. nat_eq x n ≡ false) (some_inj (sym (found e) ∙ h)) f
  ]
]
  where
    true-false : true ≢ false
    true-false e = cc

    found : (j == k) ≡ true → find_command k ((j, i) ∷ l) ≡ some i
    found e = rw (e, find_command) refl

    missed : (j == k) ≡ false → find_command k ((j, i) ∷ l) ≡ find_command k l
    missed e = rw (e, find_command) refl
