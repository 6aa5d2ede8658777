-- ===== src/Tiny.antt =====
-- TinyDB (a third-party package), as bumper/db.py uses it: the tables of one database file, and
-- what TinyDB documents of them. The development takes a `TinyDb` as a parameter; `Tiny/Slots.antt`
-- has a concrete one, which the tests run on.
pub mod Rows
pub mod Laws
pub mod Keyed
pub mod Slots
use bumper.Prelude.{ℕ, ◌≡◌, Bool, Option, List, [], ◌∷◌, ◌++◌, if◌then◌else◌}
use bumper.Tiny.Rows.{
  Document, first, matching, any_match, merge_matching, without_id, HasId, Distinct,
}

-- A query is a test on a document's fields. The first argument of `upsert` is Python's
-- `dict.update` for the documents of the table.
pub record TinyDb : Type 1 where
  pub Table : Type 0 → Type 0
  pub empty : (D : Type 0) → Table D
  pub all : {D : Type 0} → Table D → List (Document D)
  pub get : {D : Type 0} → (D → Bool) → Table D → Option (Document D)
  pub search : {D : Type 0} → (D → Bool) → Table D → List (Document D)
  pub insert : {D : Type 0} → D → Table D → ℕ × Table D
  pub upsert : {D : Type 0} → (D → D → D) → D → (D → Bool) → Table D → Table D
  pub remove : {D : Type 0} → ℕ → Table D → Table D
  pub all-empty : (D : Type 0) → all (empty D) ≡ []
  -- ids are unique within a table
  pub distinct : {D : Type 0} (t : Table D) → Distinct (all t)
  -- `get` returns the first match
  pub get_first : {D : Type 0} (q : D → Bool) (t : Table D) → get q t ≡ first q (all t)
  -- `search` returns all matches, in order
  pub search_matching : {D : Type 0} (q : D → Bool) (t : Table D) → search q t ≡ matching q (all t)
  -- `insert` adds one document at the end and returns its id
  pub all-insert :
      {D : Type 0} (d : D) (t : Table D)
      → all (insert d t).1 ≡ all t ++ record { doc_id = (insert d t).0; fields = d } ∷ []
  -- `upsert` updates every match, and inserts where there is none
  pub all-upsert :
      {D : Type 0} (update : D → D → D) (d : D) (q : D → Bool) (t : Table D)
      → all (upsert update d q t)
        ≡ (if any_match q (all t) then merge_matching update d q (all t) else all (insert d t).1)
  -- `remove` of an id that is there removes that document; of another it raises
  pub all-remove :
      {D : Type 0} (i : ℕ) (t : Table D) → HasId i (all t) → all (remove i t) ≡ without_id i (all t)
