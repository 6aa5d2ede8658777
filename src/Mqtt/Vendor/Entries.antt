-- ===== src/Mqtt/Vendor/Entries.antt =====
-- Entries of a dict that are written, found and removed.
use bumper.Prelude.{
  ◌≡◌, ◌≢◌, refl, ap, String, ◌==◌, false, none, some, List, [], ◌∷◌, inl, inr, Bool-cases, eq_refl,
  ℕ, zero, suc,
}
use bumper.Prelude.Text.{split, join}
use bumper.Prelude.Text.Split.{
  has_code, AreParts, none_left, part, split-join, split-AreParts, split-ne,
}
use bumper.Mqtt.{Proxy}
use bumper.Mqtt.Sessions.{set_entry}
use bumper.Mqtt.Messages.{set_item, remove_entry, find_proxy}
use bumper.Xmpp.Auth.{item}
use bumper.Xmpp.Xml.{lookup}

pub find_proxy-set_entry :
    (k : String) (p : Proxy) (l : List (String × Proxy)) → find_proxy k (set_entry k p l) ≡ some p
unfolding set_entry
find_proxy-set_entry k p [] = rw (eq_refl k) refl
find_proxy-set_entry k p ((j, q) ∷ l) = elim (Bool-cases (j == k)) [
  | inl h ↦ rw (h, eq_refl k) refl
  | inr h ↦ rw (h) (rw (h) (find_proxy-set_entry k p l))
]

pub lookup-set_entry :
    (k v : String) (l : List (String × String)) → lookup k (set_entry k v l) ≡ some v
unfolding set_entry lookup
lookup-set_entry k v [] = rw (eq_refl k) refl
lookup-set_entry k v ((j, w) ∷ l) = elim (Bool-cases (j == k)) [
  | inl h ↦ rw (h, eq_refl k) refl
  | inr h ↦ rw (h) (rw (h) (lookup-set_entry k v l))
]

pub lookup-remove_entry :
    (k : String) (l : List (String × String)) → lookup k (remove_entry k l) ≡ none
unfolding remove_entry lookup
lookup-remove_entry k [] = refl
lookup-remove_entry k ((j, w) ∷ l) = elim (Bool-cases (j == k)) [
  | inl h ↦ rw (h) (lookup-remove_entry k l)
  | inr h ↦ rw (h) (rw (h) (lookup-remove_entry k l))
]

pub remove_entry-set_entry :
    (k v : String) (l : List (String × String))
    → remove_entry k (set_entry k v l) ≡ remove_entry k l
unfolding remove_entry set_entry
remove_entry-set_entry k v [] = rw (eq_refl k) refl
remove_entry-set_entry k v ((j, w) ∷ l) = elim (Bool-cases (j == k)) [
  | inl h ↦ rw (h, eq_refl k) refl
  | inr h ↦ rw (h) (rw (h) (ap (λ m. (j, w) ∷ m) (remove_entry-set_entry k v l)))
]

pub remove_entry-remove_entry :
    (k : String) (l : List (String × String)) → remove_entry k (remove_entry k l) ≡ remove_entry k l
unfolding remove_entry
remove_entry-remove_entry k [] = refl
remove_entry-remove_entry k ((j, w) ∷ l) = elim (Bool-cases (j == k)) [
  | inl h ↦ rw (h) (remove_entry-remove_entry k l)
  | inr h ↦ rw (h) (rw (h) (ap (λ m. (j, w) ∷ m) (remove_entry-remove_entry k l)))
]

set_item-AreParts :
    (sep i : ℕ) (x : String) (l : List String)
    → has_code sep x ≡ false
    → AreParts sep l
    → AreParts sep (set_item i x l)
unfolding set_item
set_item-AreParts sep i x [] x_free none_left = none_left
set_item-AreParts sep zero x (y ∷ l) x_free (part y_free rest) = part x_free rest
set_item-AreParts sep (suc i) x (y ∷ l) x_free (part y_free rest) =
    part y_free (set_item-AreParts sep i x l x_free rest)

item-AreParts :
    (sep i : ℕ) (x : String) (l : List String)
    → AreParts sep l
    → item i l ≡ some x
    → has_code sep x ≡ false
item-AreParts sep i x [] none_left h = cc
item-AreParts sep zero x (y ∷ l) (part y_free rest) h = rw (same) y_free
  where
    same : x ≡ y
    same = cc
item-AreParts sep (suc i) x (y ∷ l) (part y_free rest) h = item-AreParts sep i x l rest h

split_join_parts :
    (i : ℕ) (x : String) (parts : List String)
    → has_code b'/' x ≡ false
    → AreParts b'/' parts
    → parts ≢ []
    → split b'/' (join (set_item i x parts)) ≡ set_item i x parts
unfolding set_item
split_join_parts i x [] x_free free some_part = elim (some_part refl) [ ]
split_join_parts zero x (y ∷ l) x_free (part y_free rest) some_part =
    split-join x l (part x_free rest)
split_join_parts (suc i) x (y ∷ l) x_free (part y_free rest) some_part =
    split-join y (set_item i x l) (part y_free (set_item-AreParts b'/' i x l x_free rest))

-- A part of a topic that is replaced by one without "/": the topic that is joined has the parts.
pub split_replaced :
    (i : ℕ) (x topic : String)
    → has_code b'/' x ≡ false
    → split b'/' (join (set_item i x (split b'/' topic))) ≡ set_item i x (split b'/' topic)
split_replaced i x topic x_free =
    split_join_parts i x (split b'/' topic) x_free (split-AreParts b'/' topic) (split-ne b'/' topic)

-- A part of a topic has no "/".
pub part_free :
    (i : ℕ) (x topic : String) → item i (split b'/' topic) ≡ some x → has_code b'/' x ≡ false
part_free i x topic = item-AreParts b'/' i x (split b'/' topic) (split-AreParts b'/' topic)

pub item-set_item :
    (i : ℕ) (x y : String) (l : List String) → item i l ≡ some y → item i (set_item i x l) ≡ some x
unfolding set_item
item-set_item i x y [] h = cc
item-set_item zero x y (z ∷ l) h = refl
item-set_item (suc i) x y (z ∷ l) h = item-set_item i x y l h

pub helper_free : has_code b'/' "proxyhelper" ≡ false
unfolding has_code
helper_free = refl
