-- ===== src/Prelude/Text/Split.antt =====
-- `split` and `join` of Text.antt undo each other.
use bumper.Prelude.{
  ℕ, ◌≡◌, ◌≢◌, refl, sym, ap, ◌∙◌, Bool, true, false, ◌||◌, inl, inr, Bool-cases, List,
}
use bumper.Prelude.Text.{split, split_from, join, is_code}
use Prim.Native.Char.{Char}
use Prim.Native.String.{String, [], ◌∷◌, ◌++◌}
use text.Mathlib.TextLemmas.{nil-append, cons-append, append-nil, append_assoc}

-- The character with the code `sep` stands in a text.
unfoldable pub has_code : ℕ → String → Bool
has_code sep [] = false
has_code sep (c ∷ s) = is_code sep c || has_code sep s

-- No part has the separator.
pub data AreParts (sep : ℕ) : List String → Type 0 where
  none_left : AreParts sep List.[]
  part :
      {x : String} {l : List String}
      → has_code sep x ≡ false
      → AreParts sep l
      → AreParts sep (List.◌∷◌ x l)

or_false : (a b : Bool) → (a || b) ≡ false → (a ≡ false) × (b ≡ false)
or_false true b h = cc
or_false false b h = (refl, h)

has_code-append :
    (sep : ℕ) (s t : String)
    → has_code sep s ≡ false
    → has_code sep t ≡ false
    → has_code sep (s ++ t) ≡ false
unfolding has_code
has_code-append sep [] t s_free t_free = rw (nil-append t) t_free
has_code-append sep (c ∷ s) t s_free t_free =
    let (no_c, no_s) = or_false (is_code sep c) (has_code sep s) s_free in
    rw (cons-append c s t) (rw (no_c) (has_code-append sep s t no_s t_free))

shift : (cur : String) (d : Char) (x : String) → (cur ++ (d ∷ [])) ++ x ≡ cur ++ (d ∷ x)
shift cur d x =
    append_assoc cur (d ∷ []) x
    ∙ ap (λ y. cur ++ y) (cons-append d [] x ∙ ap (λ y. d ∷ y) (nil-append x))

-- The parts of a text, where the first separator stands.
split_from-append :
    (sep : ℕ) (cur x s : String) (c : Char)
    → has_code sep x ≡ false
    → is_code sep c ≡ true
    → split_from sep cur (x ++ (c ∷ s)) ≡ List.◌∷◌ (cur ++ x) (split_from sep [] s)
unfolding split_from has_code
split_from-append sep cur [] s c x_free is_sep =
    rw (nil-append (c ∷ s), append-nil cur) (rw (split_from, is_sep) refl)
split_from-append sep cur (d ∷ x) s c x_free is_sep =
    let (no_d, no_x) = or_false (is_code sep d) (has_code sep x) x_free in
    rw (cons-append d x (c ∷ s)) (
      rw (split_from, no_d)
        (split_from-append sep (cur ++ (d ∷ [])) x s c no_x is_sep
          ∙ ap (λ y. List.◌∷◌ y (split_from sep [] s)) (shift cur d x)))

split_from-free :
    (sep : ℕ) (cur x : String)
    → has_code sep x ≡ false
    → split_from sep cur x ≡ List.◌∷◌ (cur ++ x) List.[]
unfolding split_from has_code
split_from-free sep cur [] x_free = rw (append-nil cur) refl
split_from-free sep cur (d ∷ x) x_free =
    let (no_d, no_x) = or_false (is_code sep d) (has_code sep x) x_free in
    rw (split_from, no_d)
      (split_from-free sep (cur ++ (d ∷ [])) x no_x ∙ ap (λ y. List.◌∷◌ y List.[]) (shift cur d x))

split_from-AreParts :
    (sep : ℕ) (cur s : String) → has_code sep cur ≡ false → AreParts sep (split_from sep cur s)
unfolding split_from has_code
split_from-AreParts sep cur [] cur_free = part cur_free none_left
split_from-AreParts sep cur (c ∷ s) cur_free = elim (Bool-cases (is_code sep c)) [
  | inl h ↦ rw (split_from, h) (part cur_free (split_from-AreParts sep [] s refl))
  | inr h ↦
      rw (split_from, h)
        (split_from-AreParts sep (cur ++ (c ∷ [])) s
          (has_code-append sep cur (c ∷ []) cur_free (rw h refl)))
]

cons-ne : (x : String) (l : List String) → List.◌∷◌ x l ≢ List.[]
cons-ne x l h = cc

split_from-ne : (sep : ℕ) (cur s : String) → split_from sep cur s ≢ List.[]
unfolding split_from
split_from-ne sep cur [] h = cc
split_from-ne sep cur (c ∷ s) h = elim (Bool-cases (is_code sep c)) [
  | inl e ↦ cons-ne (cur) (split_from sep [] s) (sym (split_first e) ∙ h)
  | inr e ↦ split_from-ne sep (cur ++ (c ∷ [])) s (sym (split_step e) ∙ h)
]
  where
    split_first :
        is_code sep c ≡ true → split_from sep cur (c ∷ s) ≡ List.◌∷◌ cur (split_from sep [] s)
    split_first e = rw (split_from, e) refl

    split_step :
        is_code sep c ≡ false → split_from sep cur (c ∷ s) ≡ split_from sep (cur ++ (c ∷ [])) s
    split_step e = rw (split_from, e) refl

pub split-AreParts : (sep : ℕ) (s : String) → AreParts sep (split sep s)
unfolding split has_code
split-AreParts sep s = split_from-AreParts sep [] s refl

pub split-join :
    (x : String) (l : List String)
    → AreParts b'/' (List.◌∷◌ x l)
    → split b'/' (join (List.◌∷◌ x l)) ≡ List.◌∷◌ x l
unfolding split join split_from
split-join x List.[] (part x_free rest) =
    split_from-free b'/' [] x x_free ∙ ap (λ y. List.◌∷◌ y List.[]) (nil-append x)
split-join x (List.◌∷◌ y m) (part x_free rest) =
    rw (cons-append "/" [] (join (List.◌∷◌ y m)), nil-append (join (List.◌∷◌ y m)))
      (split_from-append b'/' [] x (join (List.◌∷◌ y m)) "/" x_free refl
        ∙ (rw (nil-append x) (ap (λ l. List.◌∷◌ x l) (split-join y m rest))))

pub split-ne : (sep : ℕ) (s : String) → split sep s ≢ List.[]
unfolding split
split-ne sep s = split_from-ne sep [] s
