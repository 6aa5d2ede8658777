-- ===== src/Db/Tokens/Unique.antt =====
-- The table `tokens` holds at most one document for each user and token, whatever the operations, so
-- that `user_revoke_token` revokes the token.
use bumper.Prelude.{
  both_true, ℕ, String, ◌≡◌, refl, sym, ◌∙◌, ap, subst, Bool, true, false, ◌&&◌, ◌==◌, none, some,
  List, [], ◌∷◌, arith, eq_iff, inl, inr, if◌then◌else◌, Bool-cases, Option-cases, field_is,
  field_is_sound,
}
use bumper.Tiny.{TinyDb}
use bumper.Tiny.Rows.{Document, first, any_match}
use bumper.Tiny.Rows.Laws.{
  fields_of, any_match-append, any_match-merge_stable, any_match_of_found, first_sound,
}
use bumper.Tiny.Laws.{view, all-remove_found}
use bumper.Tiny.Keyed.{OneEach, OneEach-insert, OneEach-upsert_patch, view-remove}
use bumper.Db.{Db}
use bumper.Db.Documents.{TokenDoc, update_token}
use bumper.Db.Tokens.{
  is_pair, of_user, with_authcode, user_get_token, user_add_token, set_authcode, user_add_authcode,
  user_revoke_authcode, user_revoke_token, user_revoke_all_tokens, user_revoke_expired_tokens,
  revoke_expired_tokens,
}
use bumper.Db.Tokens.Sweep.{lacks_expiration, user_revoke_all_tokens_lem}
use bumper.Db.Tokens.Stopped.{user_sweep-IsPart, sweep_all-IsPart}
use bumper.Db.Tokens.Views.{token_view, new_token}
use bumper.Db.Tokens.Parts.{IsPart, count-IsPart, any_match-IsPart, middle-IsPart, others-IsPart}

-- The key of a token: its user and its text
abbrev pub pair_is : String × String → TokenDoc → Bool
pair_is (userid, token) d = is_pair userid token d

-- The operations of db.py that write to the table `tokens`. The readings of the clock are those of the
-- rounds of a sweep.
pub data TokenOp : Type 0 where
  add : ℕ → String → String → TokenOp
  add_authcode : String → String → String → TokenOp
  revoke_authcode revoke : String → String → TokenOp
  revoke_all : String → TokenOp
  sweep_user : (ℕ → ℕ) → String → TokenOp
  sweep : (ℕ → ℕ) → TokenOp

module _ {tiny : TinyDb} where
  unfoldable pub run_op : TokenOp → Db tiny → Db tiny
  run_op (add now userid token) = user_add_token now userid token
  run_op (add_authcode userid token authcode) = user_add_authcode userid token authcode
  run_op (revoke_authcode userid token) = user_revoke_authcode userid token
  run_op (revoke userid token) = user_revoke_token userid token
  run_op (revoke_all userid) = user_revoke_all_tokens userid
  run_op (sweep_user clock userid) = λ db. (user_revoke_expired_tokens clock userid db).1
  run_op (sweep clock) = λ db. (revoke_expired_tokens clock db).1

  unfoldable pub run_ops : List TokenOp → Db tiny → Db tiny
  unfolding run_op
  run_ops [] db = db
  run_ops (op ∷ ops) db = run_ops ops (run_op op db)

  -- At most one document for each user and token, and an expiration in every document
  pub record IsTokenTable (db : Db tiny) : Type 0 where
    pub one_each : OneEach tiny pair_is db.tokens
    pub dated : any_match lacks_expiration (tiny.all db.tokens) ≡ false

  part-IsTokenTable :
      (db after : Db tiny)
      → IsPart (tiny.all after.tokens) (tiny.all db.tokens)
      → IsTokenTable db
      → IsTokenTable after
  part-IsTokenTable db after p h = record {
    one_each = record { at = λ k. omega (arith, count-IsPart (pair_is k) p, h.one_each.at k) };
    dated = any_match-IsPart lacks_expiration p h.dated;
  }

  insert-IsTokenTable :
      (now : ℕ) (u t : String) (db : Db tiny)
      → user_get_token u t db ≡ none
      → IsTokenTable db
      → IsTokenTable (record db { tokens = (tiny.insert (new_token now u t) db.tokens).1 })
  unfolding user_get_token any_match
  insert-IsTokenTable now u t db missing h = record {
    one_each =
        OneEach-insert tiny pair_is (new_token now u t) db.tokens
          (λ k e.
            subst (λ (x : String × String). first (pair_is x) (tiny.all db.tokens) ≡ none)
              (same k e) (sym (tiny.get_first (is_pair u t) db.tokens) ∙ missing))
          h.one_each;
    dated = rw (tiny.all-insert, any_match-append, h.dated) refl;
  }
    where
      same : (k : String × String) → pair_is k (new_token now u t) ≡ true → (u, t) ≡ k
      same (i, j) e =
          let (user_is, token_is) = both_true (u == i) (t == j) e in
          ap (λ x. (x, t)) ((eq_iff u i).0 user_is) ∙ ap (λ x. (i, x)) ((eq_iff t j).0 token_is)

  authcode-IsTokenTable :
      (u t c : String) (db : Db tiny) (r : Document TokenDoc)
      → user_get_token u t db ≡ some r
      → IsTokenTable db
      → IsTokenTable (set_authcode u t c db)
  unfolding user_get_token
  authcode-IsTokenTable u t c db r found h = record {
    one_each =
        OneEach-upsert_patch tiny pair_is update_token (with_authcode c) (is_pair u t) db.tokens
          (λ k e. refl) (λ k. refl) h.one_each;
    dated =
        rw
          (
            tiny.all-upsert,
            any_match_of_found (is_pair u t) (tiny.all db.tokens) r
                (sym (tiny.get_first (is_pair u t) db.tokens) ∙ found),
            any_match-merge_stable update_token (with_authcode c) (is_pair u t) lacks_expiration
                (tiny.all db.tokens) (λ e. refl),
          )
          h.dated;
  }

  removed-IsTokenTable :
      (u t : String) (db : Db tiny) (r : Document TokenDoc)
      → user_get_token u t db ≡ some r
      → IsTokenTable db
      → IsTokenTable (record db { tokens = tiny.remove r.doc_id db.tokens })
  unfolding user_get_token
  removed-IsTokenTable u t db r found h =
      let (f, rows) = all-remove_found tiny (is_pair u t) db.tokens r found in
      part-IsTokenTable db (record db { tokens = tiny.remove r.doc_id db.tokens })
        (rw (rows, f.split) (middle-IsPart f.before f.behind r)) h

  run_op-IsTokenTable :
      (op : TokenOp) (db : Db tiny) → IsTokenTable db → IsTokenTable (run_op op db)
  unfolding run_op user_add_token user_add_authcode user_revoke_authcode user_revoke_token
  run_op-IsTokenTable (add now u t) db h = elim (Option-cases (user_get_token u t db)) [
    | inl e ↦ rw (e, user_add_token) (insert-IsTokenTable now u t db e h)
    | inr (r, e) ↦ rw (e, user_add_token) h
  ]
  run_op-IsTokenTable (add_authcode u t c) db h = elim (Option-cases (user_get_token u t db)) [
    | inl e ↦ rw (e, user_add_authcode) h
    | inr (r, e) ↦ rw (e, user_add_authcode) (authcode-IsTokenTable u t c db r e h)
  ]
  run_op-IsTokenTable (revoke_authcode u t) db h = elim (Option-cases (user_get_token u t db)) [
    | inl e ↦ rw (e, user_revoke_authcode) h
    | inr (r, e) ↦ rw (e, user_revoke_authcode) (authcode-IsTokenTable u t "" db r e h)
  ]
  run_op-IsTokenTable (revoke u t) db h = elim (Option-cases (user_get_token u t db)) [
    | inl e ↦ rw (e, user_revoke_token) h
    | inr (r, e) ↦ rw (e, user_revoke_token) (removed-IsTokenTable u t db r e h)
  ]
  run_op-IsTokenTable (revoke_all u) db h =
      part-IsTokenTable db (user_revoke_all_tokens u db)
        (rw (user_revoke_all_tokens_lem u db) (others-IsPart (of_user u) (tiny.all db.tokens))) h
  run_op-IsTokenTable (sweep_user clock u) db h =
      part-IsTokenTable db (user_revoke_expired_tokens clock u db).1 (user_sweep-IsPart clock u db)
        h
  run_op-IsTokenTable (sweep clock) db h =
      part-IsTokenTable db (revoke_expired_tokens clock db).1 (sweep_all-IsPart clock db) h

  -- Any sequence of the operations on tokens, the sweeps included, from a table with at most one document
  -- for each user and token and an expiration in each, leaves such a table.
  pub run_ops-IsTokenTable :
      (ops : List TokenOp) (db : Db tiny) → IsTokenTable db → IsTokenTable (run_ops ops db)
  unfolding run_ops
  run_ops-IsTokenTable [] db h = h
  run_ops-IsTokenTable (op ∷ ops) db h =
      run_ops-IsTokenTable ops (run_op op db) (run_op-IsTokenTable op db h)

  -- What a token that was found is: the user's, with the text.
  found_pair :
      (u t j k : String) (db : Db tiny) (r : Document TokenDoc)
      → user_get_token u t db ≡ some r
      → pair_is (j, k) r.fields ≡ (u == j && t == k)
  unfolding user_get_token
  found_pair u t j k db r found =
      let (user_is, token_is) = both_true (field_is r.fields.userid u) (field_is r.fields.token t) (
        first_sound (is_pair u t) (tiny.all db.tokens) r
          (sym (tiny.get_first (is_pair u t) db.tokens) ∙ found)) in
      rw (field_is_sound r.fields.userid u user_is, field_is_sound r.fields.token t token_is) refl

  -- In such a table `user_revoke_token` takes the token from its user, and no other token from anyone.
  pub view-user_revoke_token :
      (u t j k : String) (db : Db tiny)
      → IsTokenTable db
      → token_view j k (user_revoke_token u t db)
        ≡ (if u == j && t == k then none else token_view j k db)
  unfolding user_revoke_token token_view user_get_token view
  view-user_revoke_token u t j k db h = elim (Option-cases (user_get_token u t db)) [
    | inl e ↦
        rw (e, user_revoke_token)
          (elim (Bool-cases (u == j && t == k)) [
            | inr other ↦ rw other refl
            | inl same ↦ rw same (missing same e)
          ])
    | inr (r, e) ↦
        rw (e, user_revoke_token)
          (view-remove tiny pair_is (is_pair u t) db.tokens r e (j, k) h.one_each
            ∙ ap (λ b. if b then none else token_view j k db) (found_pair u t j k db r e))
  ]
    where
      missing : (u == j && t == k) ≡ true → user_get_token u t db ≡ none → token_view j k db ≡ none
      missing same e =
          let (user_is, token_is) = both_true (u == j) (t == k) same in
          subst (λ (x : String × String). token_view x.0 x.1 db ≡ none)
            (ap (λ x. (x, t)) ((eq_iff u j).0 user_is) ∙ ap (λ x. (j, x)) ((eq_iff t k).0 token_is))
            (ap fields_of e)
