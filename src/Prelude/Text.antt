-- ===== src/Prelude/Text.antt =====
-- Python's operations on texts, by recursion over the characters.
pub mod Split
use Prim.Native.Nat.{ℕ, zero, suc, ◌-◌, compare, Ordering}
use Prim.Native.Char.{Char, code}
use Prim.Native.String.{String, [], ◌∷◌, ◌++◌}
use mathlib.Core.Bool.{Bool, true, false, cond, ◌||◌}
use mathlib.Core.List.{List}
use mathlib.Core.Option.{Option, none, some}
use text.Mathlib.Text.{starts_with}

abbrev pub is_code : ℕ → Char → Bool
is_code n c = elim (compare (code c) n) [ Ordering.eq ↦ true | _ ↦ false ]

abbrev char_count : String → ℕ
char_count [] = 0
char_count (c ∷ s) = suc (char_count s)

-- `sub in s`
unfoldable pub has_sub : String → String → Bool
has_sub sub [] = starts_with [] sub
has_sub sub (c ∷ s) = starts_with (c ∷ s) sub || has_sub sub s

-- `s.replace(old, new)` for a non-empty `old`; the number counts the characters of the last match
-- that are still to be skipped.
replace_from : ℕ → String → String → String → String
replace_from n old new [] = []
replace_from (suc n) old new (c ∷ s) = replace_from n old new s
replace_from zero old new (c ∷ s) = elim (starts_with (c ∷ s) old) [
  | true ↦ new ++ replace_from (char_count old - 1) old new s
  | false ↦ c ∷ replace_from zero old new s
]

unfoldable pub replace : String → String → String → String
unfolding replace_from
replace old new s = replace_from zero old new s

-- `s.split(c)` at one character, given by its code
unfoldable pub split_from : ℕ → String → String → List String
split_from sep cur [] = List.◌∷◌ cur List.[]
split_from sep cur (c ∷ s) = elim (is_code sep c) [
  | true ↦ List.◌∷◌ cur (split_from sep [] s)
  | false ↦ split_from sep (cur ++ (c ∷ [])) s
]

unfoldable pub split : ℕ → String → List String
unfolding split_from
split sep s = split_from sep [] s

-- `s.find(sub)`, as a number of characters; `none` stands for -1
find_from : ℕ → String → String → Option ℕ
find_from n sub [] = cond (starts_with [] sub) (some n) none
find_from n sub (c ∷ s) = elim (starts_with (c ∷ s) sub) [
  | true ↦ some n
  | false ↦ find_from (suc n) sub s
]

unfoldable pub find : String → String → Option ℕ
unfolding find_from
find sub s = find_from 0 sub s

unfoldable pub take : ℕ → String → String
take zero s = []
take (suc n) [] = []
take (suc n) (c ∷ s) = c ∷ take n s

unfoldable pub drop : ℕ → String → String
drop zero s = s
drop (suc n) [] = []
drop (suc n) (c ∷ s) = drop n s

-- `s[i:j]` for i and j that are not negative
unfoldable pub slice : ℕ → ℕ → String → String
unfolding take drop
slice i j s = drop i (take j s)

-- Texts joined.
unfoldable pub concat : List String → String
concat List.[] = []
concat (List.◌∷◌ s l) = s ++ concat l

-- `"/".join(l)`
unfoldable pub join : List String → String
join List.[] = []
join (List.◌∷◌ x l) = elim l [ List.[] ↦ x | List.◌∷◌ y m ↦ x ++ ("/" ++ join l) ]
