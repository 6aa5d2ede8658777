-- ===== src/Db/Tokens/Views.antt =====
-- The token that `user_get_token` finds after each operation, and what the checks of bumper/db.py
-- accept.
use Prim.Native.String.{◌++◌}
use bumper.Prelude.{
  ℕ, ◌+◌, String, ◌≡◌, refl, sym, ◌∙◌, ap, Bool, true, ◌==◌, ◌&&◌, ◌||◌, Option, none, some, List,
  [], ◌∷◌, arith, eq_iff, eq_refl, inl, inr, if◌then◌else◌, is_some, field_is, Option-cases,
}
use bumper.Prelude.Text.{replace}
use bumper.Tiny.{TinyDb}
use bumper.Tiny.Rows.{Document, any_match}
use bumper.Tiny.Rows.Laws.{
  or_else, fields_of, any_match-first, any_match-merge, any_match_of_found, is_some-fields_of,
}
use bumper.Tiny.Laws.{view, view-insert, or_else_found}
use bumper.Db.{Db}
use bumper.Db.Documents.{TokenDoc, update_token}
use bumper.Db.Tokens.{
  token_validity, is_pair, of_uid, with_authcode, user_get_token, user_add_token, set_authcode,
  user_add_authcode, user_revoke_authcode, check_authcode, check_token,
}

-- The document that `user_add_token` inserts.
abbrev pub new_token : ℕ → String → String → TokenDoc
new_token now u t = record {
  userid = some u;
  token = some t;
  expiration = some (now + token_validity);
  authcode = none;
}

any_match-or :
    (p q r : TokenDoc → Bool) (l : List (Document TokenDoc))
    → ((d : TokenDoc) → p d ≡ (q d || r d))
    → any_match p l ≡ (any_match q l || any_match r l)
unfolding any_match
any_match-or p q r [] h = refl
any_match-or p q r (x ∷ l) h = ground (arith, h x.fields, any_match-or p q r l h)

module _ {tiny : TinyDb} where
  -- The fields of the token that `user_get_token` finds.
  unfoldable pub token_view : String → String → Db tiny → Option TokenDoc
  token_view u t db = fields_of (user_get_token u t db)

  pub is_some-token_view :
      (u t : String) (db : Db tiny)
      → is_some (token_view u t db) ≡ any_match (is_pair u t) (tiny.all db.tokens)
  unfolding token_view user_get_token
  is_some-token_view u t db =
      is_some-fields_of (tiny.get (is_pair u t) db.tokens)
      ∙ ap is_some (tiny.get_first (is_pair u t) db.tokens)
      ∙ any_match-first (is_pair u t) (tiny.all db.tokens)

  found-token :
      (u t j k : String) (db : Db tiny) (r : Document TokenDoc)
      → user_get_token u t db ≡ some r
      → (u == j && t == k) ≡ true
      → (d : TokenDoc) × (token_view j k db ≡ some d)
  unfolding token_view
  found-token u t j k db r e h =
      let same_u : u ≡ j = ground (arith, eq_iff u j) in
      let same_t : t ≡ k = ground (arith, eq_iff t k) in (r.fields, rw (← same_u, ← same_t, e))

  -- `user_add_token` adds a token that expires an hour after `now` if the user does not hold it,
  -- and changes what is found for no other user and token, nor a token that is there.
  pub view-user_add_token :
      (now : ℕ) (u t j k : String) (db : Db tiny)
      → token_view j k (user_add_token now u t db)
        ≡ or_else (token_view j k db) (if u == j && t == k then some (new_token now u t) else none)
  unfolding user_add_token
  view-user_add_token now u t j k db = elim (Option-cases (user_get_token u t db)) [
    | inl e ↦ rw (e, user_add_token) (inserted)
    | inr (r, e) ↦
        rw (e, user_add_token)
          (sym (
            or_else_found (token_view j k db) (some (new_token now u t)) (u == j && t == k)
              (found-token u t j k db r e)))
  ]
    where
      inserted :
          token_view j k (record db { tokens = (tiny.insert (new_token now u t) db.tokens).1 })
          ≡ or_else
              (token_view j k db)
              (if u == j && t == k then some (new_token now u t) else none)
      inserted =
          unfold token_view user_get_token view in
          view-insert tiny (is_pair j k) (new_token now u t) db.tokens

  -- `check_token` accepts a user id and a token exactly if the token is held by that user id with
  -- every `fuid_` taken out of it, or by that user id with one more `fuid_` before it.
  pub check_token_lem :
      (uid t : String) (db : Db tiny)
      → check_token uid t db ≡ (
          is_some (token_view (replace "fuid_" "" uid) t db)
          || is_some (token_view ("fuid_" ++ uid) t db))
  unfolding check_token
  check_token_lem uid t db =
      rw (is_some-token_view, is_some-token_view, tiny.get_first, any_match-first)
        (any_match-or _ (is_pair (replace "fuid_" "" uid) t) (is_pair ("fuid_" ++ uid) t)
          (tiny.all db.tokens) (λ d. ground arith))

  set_authcode-check :
      (u t uid code : String) (db : Db tiny) (r : Document TokenDoc)
      → user_get_token u t db ≡ some r
      → replace "fuid_" "" uid ≡ u
      → check_authcode uid code (set_authcode u t code db) ≡ true
  unfolding check_authcode user_get_token
  set_authcode-check u t uid code db r e same =
      let there =
        any_match_of_found (is_pair u t) (tiny.all db.tokens) r
          (sym (tiny.get_first (is_pair u t) db.tokens) ∙ e) in
      rw (tiny.get_first, any_match-first, tiny.all-upsert, there)
        (any_match-merge update_token (with_authcode code) (is_pair u t)
          (λ d. field_is d.authcode code && of_uid uid d) (tiny.all db.tokens)
          (λ d m. rw same (ground (arith, eq_refl code))) there)

  -- For a token that its user holds: the auth code that `user_add_authcode` stores is accepted by
  -- `check_authcode` under each user id that names that user after `fuid_` is taken out of it.
  pub check_authcode-user_add_authcode :
      (u t uid code : String) (db : Db tiny) (r : Document TokenDoc)
      → user_get_token u t db ≡ some r
      → replace "fuid_" "" uid ≡ u
      → check_authcode uid code (user_add_authcode u t code db) ≡ true
  unfolding user_add_authcode
  check_authcode-user_add_authcode u t uid code db r e same =
      rw (e, user_add_authcode) (set_authcode-check u t uid code db r e same)

  -- For a token that its user holds: after `user_revoke_authcode`, which stores the empty text,
  -- `check_authcode` accepts the empty auth code for that user.
  pub check_authcode-user_revoke_authcode :
      (u t uid : String) (db : Db tiny) (r : Document TokenDoc)
      → user_get_token u t db ≡ some r
      → replace "fuid_" "" uid ≡ u
      → check_authcode uid "" (user_revoke_authcode u t db) ≡ true
  unfolding user_revoke_authcode
  check_authcode-user_revoke_authcode u t uid db r e same =
      rw (e, user_revoke_authcode) (set_authcode-check u t uid "" db r e same)
