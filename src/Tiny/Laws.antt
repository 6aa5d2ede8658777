-- ===== src/Tiny/Laws.antt =====
-- What a query finds after an update, for every `TinyDb`.
use mathlib.Core.Option
use bumper.Prelude.{
  ◌≡◌, refl, inl, inr, Bool, true, false, Option, none, some, ◌++◌, arith, ◌∙◌, ap, subst, sym,
  if◌then◌else◌, Bool-cases,
}
use bumper.Tiny.{TinyDb}
use bumper.Tiny.Rows.{Document, first, any_match}
use bumper.Tiny.Rows.Laws.{
  or_else, fields_of, Found, first-Found, first-append, any_match_sound, first-merge,
  first_no_match, first_sound, HasId-middle, without-middle,
}

pub or_else-none {ℓ} : {A : Type ℓ} (o : Option A) → or_else o none ≡ o
or_else-none none = refl
or_else-none (some d) = refl

pub or_else_found {ℓ} :
    {A : Type ℓ} (o e : Option A) (b : Bool)
    → (b ≡ true → (a : A) × (o ≡ some a))
    → or_else o (if b then e else none) ≡ o
or_else_found (some a) e b h = refl
or_else_found none e false h = refl
or_else_found none e true h = cc ((h refl).1)

module _ (tiny : TinyDb) {D : Type 0} where
  -- The fields that `get` finds.
  unfoldable pub view : (D → Bool) → tiny.Table D → Option D
  view q t = fields_of (tiny.get q t)

  pub view-first : (q : D → Bool) (t : tiny.Table D) → view q t ≡ fields_of (first q (tiny.all t))
  unfolding view
  view-first q t = ap fields_of (tiny.get_first q t)

  fields_of-or_else :
      (a b : Option (Document D)) → fields_of (or_else a b) ≡ or_else (fields_of a) (fields_of b)
  fields_of-or_else none b = refl
  fields_of-or_else (some r) b = refl

  first-insert :
      (q : D → Bool) (d : D) (t : tiny.Table D)
      → fields_of (first q (tiny.all (tiny.insert d t).1))
        ≡ or_else (fields_of (first q (tiny.all t))) (if q d then some d else none)
  first-insert q d t = rw (tiny.all-insert, first-append, fields_of-or_else) (ground arith)

  pub view-insert :
      (q : D → Bool) (d : D) (t : tiny.Table D)
      → view q (tiny.insert d t).1 ≡ or_else (view q t) (if q d then some d else none)
  view-insert q d t = rw (view-first q (tiny.insert d t).1, view-first q t) (first-insert q d t)

  pub view-upsert :
      (update : D → D → D) (d : D) (p q : D → Bool) (t : tiny.Table D)
      → q d ≡ false
      → ((e : D) → q (update e d) ≡ q e)
      → view q (tiny.upsert update d p t)
        ≡ Option.map (λ e. if p e then update e d else e) (view q t)
  view-upsert update d p q t h stable =
      rw (view-first q (tiny.upsert update d p t), view-first q t, tiny.all-upsert)
        (elim (Bool-cases (any_match p (tiny.all t))) [
          | inl e ↦ rw e (first-merge update d p q (tiny.all t) stable)
          | inr e ↦
              rw (e, first-insert, h) (or_else-none _ ∙ first_no_match update d p q (tiny.all t) e)
        ])

  first_fields_sound :
      (q : D → Bool) (o : Option (Document D)) (d : D)
      → ((r : Document D) → o ≡ some r → q r.fields ≡ true)
      → fields_of o ≡ some d
      → q d ≡ true
  first_fields_sound q none d h e = cc
  first_fields_sound q (some r) d h e =
      let same : r.fields ≡ d = cc in subst (λ a. q a ≡ true) same (h r refl)

  pub view_sound : (q : D → Bool) (t : tiny.Table D) (d : D) → view q t ≡ some d → q d ≡ true
  view_sound q t d h =
      first_fields_sound q (first q (tiny.all t)) d (first_sound q (tiny.all t))
        (sym (view-first q t) ∙ h)

  pub all-upsert_none :
      (update : D → D → D) (d : D) (p : D → Bool) (t : tiny.Table D)
      → tiny.get p t ≡ none
      → tiny.all (tiny.upsert update d p t) ≡ tiny.all (tiny.insert d t).1
  all-upsert_none update d p t h =
      tiny.all-upsert update d p t
      ∙ rw (any_match_sound p (tiny.all t) (sym (tiny.get_first p t) ∙ h))

  -- `get` and then `remove` by id takes out the first match.
  pub all-remove_found :
      (q : D → Bool) (t : tiny.Table D) (r : Document D)
      → tiny.get q t ≡ some r
      → (f : Found q (tiny.all t) r) × (tiny.all (tiny.remove r.doc_id t) ≡ f.before ++ f.behind)
  all-remove_found q t r h =
      let f = first-Found q (tiny.all t) r (sym (tiny.get_first q t) ∙ h) in
      let d = tiny.distinct t in
      (
        f,
        tiny.all-remove r.doc_id t (rw f.split (HasId-middle f.before f.behind r))
            ∙ rw f.split (without-middle f.before f.behind r (rw f.split at d)),
      )

  -- An `upsert` whose query finds nothing adds a document that later queries may find.
  pub view-upsert_none :
      (update : D → D → D) (d : D) (p q : D → Bool) (t : tiny.Table D)
      → tiny.get p t ≡ none
      → view q (tiny.upsert update d p t) ≡ or_else (view q t) (if q d then some d else none)
  view-upsert_none update d p q t h =
      rw (view-first q (tiny.upsert update d p t), view-first q t, all-upsert_none update d p t h)
        (first-insert q d t)
