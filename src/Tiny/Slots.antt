-- ===== src/Tiny/Slots.antt =====
-- A concrete TinyDB table: slots that are filled in turn and emptied by `remove`; a document's id
-- is its slot.
use bumper.Prelude.{
  ℕ, suc, ◌<◌, ◌≡◌, refl, ap, Bool, Option, none, some, List, [], ◌∷◌, ◌++◌, arith, nat_eq,
  if◌then◌else◌,
}
use bumper.Tiny.{TinyDb}
use bumper.Tiny.Rows.{
  Document, first, matching, any_match, merge_matching, without_id, IsFresh, Distinct,
}

module _ {D : Type 0} where
  unfoldable pub rows_from : ℕ → List (Option D) → List (Document D)
  rows_from k [] = []
  rows_from k (none ∷ s) = rows_from (suc k) s
  rows_from k (some d ∷ s) = record { doc_id = k; fields = d } ∷ rows_from (suc k) s

  unfoldable pub next_from : ℕ → List (Option D) → ℕ
  next_from k [] = k
  next_from k (o ∷ s) = next_from (suc k) s

  unfoldable pub merge_slots : (D → D → D) → D → (D → Bool) → List (Option D) → List (Option D)
  merge_slots update d q [] = []
  merge_slots update d q (none ∷ s) = none ∷ merge_slots update d q s
  merge_slots update d q (some e ∷ s) =
      some (if q e then update e d else e) ∷ merge_slots update d q s

  unfoldable pub clear_from : ℕ → ℕ → List (Option D) → List (Option D)
  clear_from k i [] = []
  clear_from k i (none ∷ s) = none ∷ clear_from (suc k) i s
  clear_from k i (some d ∷ s) = (if nat_eq k i then none else some d) ∷ clear_from (suc k) i s

  rows-insert :
      (k : ℕ) (d : D) (s : List (Option D))
      → rows_from k (s ++ some d ∷ [])
        ≡ rows_from k s ++ record { doc_id = next_from k s; fields = d } ∷ []
  unfolding rows_from next_from
  rows-insert k d [] = refl
  rows-insert k d (none ∷ s) = rows-insert (suc k) d s
  rows-insert k d (some e ∷ s) =
      ap (λ l. record { doc_id = k; fields = e } ∷ l) (rows-insert (suc k) d s)

  rows-merge :
      (update : D → D → D) (d : D) (q : D → Bool) (k : ℕ) (s : List (Option D))
      → rows_from k (merge_slots update d q s) ≡ merge_matching update d q (rows_from k s)
  unfolding rows_from merge_slots merge_matching
  rows-merge update d q k [] = refl
  rows-merge update d q k (none ∷ s) = rows-merge update d q (suc k) s
  rows-merge update d q k (some e ∷ s) = ground (arith, rows-merge update d q (suc k) s)

  pub rows-clear :
      (k i : ℕ) (s : List (Option D))
      → rows_from k (clear_from k i s) ≡ without_id i (rows_from k s)
  unfolding rows_from clear_from without_id
  rows-clear k i [] = refl
  rows-clear k i (none ∷ s) = rows-clear (suc k) i s
  rows-clear k i (some e ∷ s) = ground (arith, rows-clear (suc k) i s)

  rows-IsFresh : (i k : ℕ) (s : List (Option D)) → i < k → IsFresh i (rows_from k s)
  unfolding rows_from
  rows-IsFresh i k [] h = tt
  rows-IsFresh i k (none ∷ s) h = rows-IsFresh i (suc k) s (omega arith)
  rows-IsFresh i k (some e ∷ s) h = (omega arith, rows-IsFresh i (suc k) s (omega arith))

  pub rows-Distinct : (k : ℕ) (s : List (Option D)) → Distinct (rows_from k s)
  unfolding rows_from
  rows-Distinct k [] = tt
  rows-Distinct k (none ∷ s) = rows-Distinct (suc k) s
  rows-Distinct k (some e ∷ s) = (rows-IsFresh k (suc k) s (omega arith), rows-Distinct (suc k) s)

  unfoldable pub slot_insert : D → List (Option D) → ℕ × List (Option D)
  slot_insert d s = (next_from 0 s, s ++ some d ∷ [])

  unfoldable pub slot_upsert : (D → D → D) → D → (D → Bool) → List (Option D) → List (Option D)
  slot_upsert update d q s =
      if any_match q (rows_from 0 s) then merge_slots update d q s else (slot_insert d s).1

  pub rows-upsert :
      (update : D → D → D) (d : D) (q : D → Bool) (s : List (Option D))
      → rows_from 0 (slot_upsert update d q s) ≡ (
          if any_match q (rows_from 0 s)
          then merge_matching update d q (rows_from 0 s)
          else rows_from 0 (slot_insert d s).1)
  unfolding slot_upsert
  rows-upsert update d q s = ground (arith, rows-merge update d q 0 s)

  pub slots_insert_lem :
      (d : D) (s : List (Option D))
      → rows_from 0 (slot_insert d s).1
        ≡ rows_from 0 s ++ record { doc_id = (slot_insert d s).0; fields = d } ∷ []
  unfolding slot_insert
  slots_insert_lem d s = rows-insert 0 d s

pub rows-empty : (D : Type 0) → rows_from {D = D} 0 [] ≡ []
unfolding rows_from
rows-empty D = refl

instance abbrev pub slots : TinyDb
slots = record {
  Table = λ D. List (Option D);
  empty = λ D. [];
  all = λ t. rows_from 0 t;
  get = λ q t. first q (rows_from 0 t);
  search = λ q t. matching q (rows_from 0 t);
  insert = slot_insert;
  upsert = slot_upsert;
  remove = λ i t. clear_from 0 i t;
  all-empty = rows-empty;
  distinct = rows-Distinct 0;
  get_first = λ q t. refl;
  search_matching = λ q t. refl;
  all-insert = slots_insert_lem;
  all-upsert = rows-upsert;
  all-remove = λ i t h. rows-clear 0 i t;
}
