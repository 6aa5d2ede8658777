-- ===== src/Tiny/Rows/Laws.antt =====
-- How the queries on a list of documents meet its updates.
use bumper.Prelude.{
  ℕ, ◌≡◌, ◌≢◌, refl, sym, ◌∙◌, inl, inr, Bool, true, false, Option, none, some, List, [], ◌∷◌, ◌++◌,
  arith, ap, ◌||◌, if◌then◌else◌, is_some, Bool-cases, Option-cases,
}
use mathlib.Core.Option
use bumper.Tiny.Rows.{
  Document, first, matching, any_match, merge_matching, without_id, HasId, IsFresh, Distinct,
}

abbrev pub or_else {ℓ} : {A : Type ℓ} → Option A → Option A → Option A
or_else none o = o
or_else (some a) o = some a

-- The fields of a document that was found.
abbrev pub fields_of : {D : Type 0} → Option (Document D) → Option D
fields_of none = none
fields_of (some r) = some r.fields

module _ {D : Type 0} where
  pub is_some-fields_of : (o : Option (Document D)) → is_some (fields_of o) ≡ is_some o
  is_some-fields_of none = refl
  is_some-fields_of (some r) = refl

  pub first-append :
      (q : D → Bool) (l : List (Document D)) (r : Document D)
      → first q (l ++ r ∷ []) ≡ or_else (first q l) (if q r.fields then some r else none)
  unfolding first
  first-append q [] r = refl
  first-append q (s ∷ l) r = ground (arith, first-append q l r)

  pub any_match-first : (q : D → Bool) (l : List (Document D)) → is_some (first q l) ≡ any_match q l
  unfolding first any_match
  any_match-first q [] = refl
  any_match-first q (s ∷ l) = ground (arith, any_match-first q l)

  pub any_match_sound :
      (q : D → Bool) (l : List (Document D)) → first q l ≡ none → any_match q l ≡ false
  unfolding first any_match
  any_match_sound q [] h = refl
  any_match_sound q (s ∷ l) h = ground (arith, any_match_sound q l)

  pub first_sound :
      (q : D → Bool) (l : List (Document D)) (r : Document D)
      → first q l ≡ some r
      → q r.fields ≡ true
  unfolding first
  first_sound q [] r h = cc
  first_sound q (s ∷ l) r h = ground (arith, first_sound q l r)

  -- An update that does not change the answer of `q` updates the document that `q` finds.
  pub first-merge :
      (update : D → D → D) (d : D) (p q : D → Bool) (l : List (Document D))
      → ((e : D) → q (update e d) ≡ q e)
      → fields_of (first q (merge_matching update d p l))
        ≡ Option.map (λ e. if p e then update e d else e) (fields_of (first q l))
  unfolding first merge_matching
  first-merge update d p q [] h = refl
  first-merge update d p q (s ∷ l) h = ground (arith, h s.fields, first-merge update d p q l h)

  pub without_of_IsFresh : (i : ℕ) (l : List (Document D)) → IsFresh i l → without_id i l ≡ l
  unfolding without_id
  without_of_IsFresh i [] h = refl
  without_of_IsFresh i (r ∷ l) h = ground (arith, without_of_IsFresh i l)

  pub without-append :
      (i : ℕ) (l m : List (Document D)) → without_id i (l ++ m) ≡ without_id i l ++ without_id i m
  unfolding without_id
  without-append i [] m = refl
  without-append i (r ∷ l) m = ground (arith, without-append i l m)

  pub HasId-middle : (l m : List (Document D)) (r : Document D) → HasId r.doc_id (l ++ r ∷ m)
  HasId-middle [] m r = inl refl
  HasId-middle (s ∷ l) m r = inr (HasId-middle l m r)

  IsFresh-middle :
      (i : ℕ) (l m : List (Document D)) (r : Document D) → IsFresh i (l ++ r ∷ m) → r.doc_id ≢ i
  IsFresh-middle i [] m r h = h.0
  IsFresh-middle i (s ∷ l) m r h = IsFresh-middle i l m r h.1

  -- Where the ids are distinct, the removal by id takes out that document alone.
  pub without-middle :
      (l m : List (Document D)) (r : Document D)
      → Distinct (l ++ r ∷ m)
      → without_id r.doc_id (l ++ r ∷ m) ≡ l ++ m
  unfolding without_id
  without-middle [] m r h = ground (arith, without_of_IsFresh r.doc_id m h.0)
  without-middle (s ∷ l) m r h =
      ground (arith, without-middle l m r h.1, IsFresh-middle s.doc_id l m r h.0)

  -- The document that a query finds is the first match, between those before it and those behind.
  pub record Found (q : D → Bool) (l : List (Document D)) (r : Document D) : Type 0 where
    pub before : List (Document D)
    pub behind : List (Document D)
    pub split : l ≡ before ++ r ∷ behind
    pub missed : matching q before ≡ []
    pub found : q r.fields ≡ true

  pub first-Found :
      (q : D → Bool) (l : List (Document D)) (r : Document D) → first q l ≡ some r → Found q l r
  unfolding first matching
  first-Found q [] r h = absurd (cc)
  first-Found q (s ∷ l) r h = elim (Bool-cases (q s.fields)) [
    | inl e ↦ record {
      before = [];
      behind = l;
      split = ground arith;
      missed = refl;
      found = ground arith;
    }
    | inr e ↦
        let f = first-Found q l r (ground arith) in
        record {
          before = s ∷ f.before;
          behind = f.behind;
          split = ap (λ t. s ∷ t) f.split;
          missed = ground (arith, f.missed);
          found = f.found;
        }
  ]

  pub matching-append :
      (q : D → Bool) (l m : List (Document D)) → matching q (l ++ m) ≡ matching q l ++ matching q m
  unfolding matching
  matching-append q [] m = refl
  matching-append q (r ∷ l) m = ground (arith, matching-append q l m)

  any_match_of_first :
      (p q : D → Bool) (l : List (Document D)) (r : Document D)
      → any_match p l ≡ false
      → first q l ≡ some r
      → p r.fields ≡ false
  unfolding first any_match
  any_match_of_first p q [] r h e = cc
  any_match_of_first p q (s ∷ l) r h e = ground (arith, any_match_of_first p q l r)

  pub first_no_match :
      (update : D → D → D) (d : D) (p q : D → Bool) (l : List (Document D))
      → any_match p l ≡ false
      → fields_of (first q l)
        ≡ Option.map (λ e. if p e then update e d else e) (fields_of (first q l))
  first_no_match update d p q l h = elim (Option-cases (first q l)) [
    | inl e ↦ rw e
    | inr (r, e) ↦ rw e (ground (arith, any_match_of_first p q l r h e))
  ]

  pub any_match-append :
      (q : D → Bool) (l m : List (Document D))
      → any_match q (l ++ m) ≡ (any_match q l || any_match q m)
  unfolding any_match
  any_match-append q [] m = refl
  any_match-append q (r ∷ l) m = ground (arith, any_match-append q l m)

  pub any_match-merge :
      (update : D → D → D) (d : D) (p q : D → Bool) (l : List (Document D))
      → ((e : D) → p e ≡ true → q (update e d) ≡ true)
      → any_match p l ≡ true
      → any_match q (merge_matching update d p l) ≡ true
  unfolding any_match merge_matching
  any_match-merge update d p q [] h m = cc
  any_match-merge update d p q (r ∷ l) h m =
      ground (arith, h r.fields, any_match-merge update d p q l h)

  pub any_match-merge_stable :
      (update : D → D → D) (d : D) (p q : D → Bool) (l : List (Document D))
      → ((e : D) → q (update e d) ≡ q e)
      → any_match q (merge_matching update d p l) ≡ any_match q l
  unfolding any_match merge_matching
  any_match-merge_stable update d p q [] h = refl
  any_match-merge_stable update d p q (r ∷ l) h =
      ground (arith, h r.fields, any_match-merge_stable update d p q l h)

  pub any_match_of_found :
      (q : D → Bool) (l : List (Document D)) (r : Document D)
      → first q l ≡ some r
      → any_match q l ≡ true
  any_match_of_found q l r h = sym (any_match-first q l) ∙ ap is_some h
