-- ===== src/Json.antt =====
-- JSON values, as the handlers of bumper/web and the helper bot (bumper/mqtt/helper_bot.py) read and
-- write them. Numbers are the integers from 0; an object is the list of its keys and values.
pub mod Laws
use bumper.Prelude.{
  ℕ, String, ◌==◌, Bool, false, Option, none, some, List, [], ◌∷◌, if◌then◌else◌, is_some,
}

mutual
  pub data Json : Type 0 where
    nothing : Json
    boolean : Bool → Json
    number : ℕ → Json
    text : String → Json
    array : Items → Json
    object : Fields → Json

  pub data Items : Type 0 where
    no_items : Items
    item_then : Json → Items → Items

  pub data Fields : Type 0 where
    no_fields : Fields
    field_then : String → Json → Fields → Fields

-- `{key: value, …}` and `[value, …]`
unfoldable pub fields : List (String × Json) → Fields
fields [] = no_fields
fields ((k, v) ∷ l) = field_then k v (fields l)

unfoldable pub items : List Json → Items
items [] = no_items
items (v ∷ l) = item_then v (items l)

-- `d[key]`, which raises where there is no value
unfoldable pub field_of : String → Fields → Option Json
field_of k no_fields = none
field_of k (field_then j v d) = if j == k then some v else field_of k d

-- `d[key] = value`
unfoldable pub set_field : String → Json → Fields → Fields
set_field k v no_fields = field_then k v no_fields
set_field k v (field_then j w d) =
    if j == k then field_then k v d else field_then j w (set_field k v d)

-- `key in d`
abbrev pub has_field : String → Fields → Bool
has_field k d = is_some (field_of k d)

-- `value == "…"`
abbrev pub is_text : String → Json → Bool
is_text s (text t) = t == s
is_text s _ = false

-- The text of a value that is one.
abbrev pub text_of : Json → Option String
text_of (text t) = some t
text_of _ = none

abbrev pub is_field : String → String → Fields → Bool
is_field k s d = elim (field_of k d) [ none ↦ false | some v ↦ is_text s v ]
