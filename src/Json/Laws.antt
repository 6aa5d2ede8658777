-- ===== src/Json/Laws.antt =====
-- What is read from a JSON object after a key was given a value.
use bumper.Prelude.{◌≡◌, refl, String, ◌==◌, false, some, inl, inr, Bool-cases, eq_refl, eq_iff}
use bumper.Json.{Json, Fields, no_fields, field_then, field_of, set_field}

pub field_of-set_field :
    (k : String) (v : Json) (d : Fields) → field_of k (set_field k v d) ≡ some v
unfolding field_of set_field
field_of-set_field k v no_fields = rw (eq_refl k) refl
field_of-set_field k v (field_then j w d) = elim (Bool-cases (j == k)) [
  | inl h ↦ rw (h, eq_refl k) refl
  | inr h ↦ rw (h) (rw (h) (field_of-set_field k v d))
]

pub field_of-set_other :
    (i k : String) (v : Json) (d : Fields)
    → (k == i) ≡ false
    → field_of i (set_field k v d) ≡ field_of i d
unfolding field_of set_field
field_of-set_other i k v no_fields other = rw (other) refl
field_of-set_other i k v (field_then j w d) other = elim (Bool-cases (j == k)) [
  | inl h ↦ rw (h, other, (eq_iff j k).0 h) (rw (other) refl)
  | inr h ↦ rw (h) (elim (Bool-cases (j == i)) [
    | inl e ↦ rw (e) refl
    | inr e ↦ rw (e) (field_of-set_other i k v d other)
  ])
]
