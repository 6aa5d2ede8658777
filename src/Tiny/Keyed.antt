-- ===== src/Tiny/Keyed.antt =====
-- Tables that hold at most one document for each key. A key is given by the query that looks it up.
use bumper.Prelude.{
  ◌+◌, ◌≤◌, ◌≡◌, refl, ◌∙◌, ap, inl, inr, Bool, true, false, none, some, List, [], ◌∷◌, ◌++◌, arith,
  if◌then◌else◌, Bool-cases,
}
use bumper.Tiny.{TinyDb}
use bumper.Tiny.Rows.{Document, first, any_match, merge_matching, count}
use bumper.Tiny.Rows.Laws.{Found}
use bumper.Tiny.Laws.{view, view-first, all-upsert_none, all-remove_found}

module _ {D : Type 0} where
  count-append : (q : D → Bool) (l m : List (Document D)) → count q (l ++ m) ≡ count q l + count q m
  unfolding count
  count-append q [] m = omega arith
  count-append q (r ∷ l) m = omega (arith, count-append q l m)

  count-merge :
      (update : D → D → D) (d : D) (p q : D → Bool) (l : List (Document D))
      → ((e : D) → q (update e d) ≡ q e)
      → count q (merge_matching update d p l) ≡ count q l
  unfolding count merge_matching
  count-merge update d p q [] h = refl
  count-merge update d p q (r ∷ l) h = ground (arith, h r.fields, count-merge update d p q l h)

  count_of_missing : (q : D → Bool) (l : List (Document D)) → first q l ≡ none → count q l ≡ 0
  unfolding count first
  count_of_missing q [] h = refl
  count_of_missing q (r ∷ l) h = ground (arith, count_of_missing q l)

  missing_of_count : (q : D → Bool) (l : List (Document D)) → count q l ≡ 0 → first q l ≡ none
  unfolding count first
  missing_of_count q [] h = refl
  missing_of_count q (r ∷ l) h = ground (arith, missing_of_count q l)

  first-skip :
      (q : D → Bool) (l m : List (Document D)) (r : Document D)
      → q r.fields ≡ false
      → first q (l ++ r ∷ m) ≡ first q (l ++ m)
  unfolding first
  first-skip q [] m r h = ground arith
  first-skip q (s ∷ l) m r h = ground (arith, first-skip q l m r h)

  count-middle :
      (q : D → Bool) (l m : List (Document D)) (r : Document D)
      → count q (l ++ r ∷ m) ≡ (if q r.fields then 1 else 0) + count q (l ++ m)
  unfolding count
  count-middle q l m r = rw (count-append, count-append) (ground arith)

module _ (tiny : TinyDb) {K D : Type 0} (is_key : K → D → Bool) where
  -- At most one document for each key.
  pub record OneEach (t : tiny.Table D) : Type 0 where
    pub at : (k : K) → count (is_key k) (tiny.all t) ≤ 1

  pub OneEach-empty : OneEach (tiny.empty D)
  OneEach-empty = record { at = λ k. rw tiny.all-empty (unfold count in omega arith) }

  pub OneEach-insert :
      (d : D) (t : tiny.Table D)
      → ((k : K) → is_key k d ≡ true → first (is_key k) (tiny.all t) ≡ none)
      → OneEach t
      → OneEach (tiny.insert d t).1
  OneEach-insert d t new h = record {
    at = λ k.
        rw (tiny.all-insert, count-append)
          (unfold count in
            elim (Bool-cases (is_key k d)) [
              | inl e ↦ ground (arith, count_of_missing (is_key k) (tiny.all t) (new k e))
              | inr e ↦ ground (arith, h.at k)
            ]);
  }

  pub OneEach-upsert_patch :
      (update : D → D → D) (d : D) (p : D → Bool) (t : tiny.Table D)
      → ((k : K) (e : D) → is_key k (update e d) ≡ is_key k e)
      → ((k : K) → is_key k d ≡ false)
      → OneEach t
      → OneEach (tiny.upsert update d p t)
  OneEach-upsert_patch update d p t stable keyless h = record {
    at = λ k. rw tiny.all-upsert (elim (Bool-cases (any_match p (tiny.all t))) [
      | inl e ↦ rw (e, count-merge update d p (is_key k) (tiny.all t) (stable k)) (h.at k)
      | inr e ↦ rw e ((OneEach-insert d t (λ j i. cc (keyless j)) h).at k)
    ]);
  }

  pub OneEach-upsert_new :
      (update : D → D → D) (d : D) (p : D → Bool) (t : tiny.Table D)
      → tiny.get p t ≡ none
      → ((k : K) → is_key k d ≡ true → first (is_key k) (tiny.all t) ≡ none)
      → OneEach t
      → OneEach (tiny.upsert update d p t)
  OneEach-upsert_new update d p t missing new h = record {
    at = λ k. rw (all-upsert_none tiny update d p t missing) ((OneEach-insert d t new h).at k);
  }

  module _ (q : D → Bool) (t : tiny.Table D) (r : Document D) (found : tiny.get q t ≡ some r) where
    left : (f : Found q (tiny.all t) r) × (tiny.all (tiny.remove r.doc_id t) ≡ f.before ++ f.behind)
    left = all-remove_found tiny q t r found

    counted :
        (k : K)
        → count (is_key k) (tiny.all t)
          ≡ (if is_key k r.fields then 1 else 0) + count (is_key k) (left.0.before ++ left.0.behind)
    counted k =
        ap (count (is_key k)) left.0.split ∙ count-middle (is_key k) left.0.before left.0.behind r

    pub OneEach-remove : OneEach t → OneEach (tiny.remove r.doc_id t)
    OneEach-remove h = record { at = λ k. rw left.1 (ground (arith, counted k, h.at k)) }

    -- With one document for each key a removal takes that key away, and no other.
    pub view-remove :
        (k : K)
        → OneEach t
        → view tiny (is_key k) (tiny.remove r.doc_id t)
          ≡ (if is_key k r.fields then none else view tiny (is_key k) t)
    view-remove k h =
        rw
          (
            view-first tiny (is_key k) (tiny.remove r.doc_id t),
            view-first tiny (is_key k) t,
            left.1,
          )
          (elim (Bool-cases (is_key k r.fields)) [
            | inl e ↦ rw (
              e,
              missing_of_count (is_key k) (left.0.before ++ left.0.behind)
                  (ground (arith, counted k, h.at k)),
            )
            | inr e ↦ rw (
              e,
              ap (first (is_key k)) left.0.split,
              first-skip (is_key k) left.0.before left.0.behind r e,
            )
          ])
