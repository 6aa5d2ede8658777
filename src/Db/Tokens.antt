-- ===== src/Db/Tokens.antt =====
-- bumper/db.py: the operations on the table `tokens`.
pub mod Views
pub mod Sweep
pub mod Parts
pub mod Stopped
pub mod Unique
use Prim.Native.String.{◌++◌}
use bumper.Prelude.{
  ℕ, suc, ◌+◌, ◌*◌, String, Bool, not, ◌&&◌, ◌||◌, Option, none, some, List, [], ◌∷◌, if◌then◌else◌,
  leb, field_is, is_some,
}
use bumper.Prelude.Exec.{Exec, Result, ok, err, key_error}
use bumper.Prelude.Text.{replace}
use bumper.Tiny.{TinyDb}
use bumper.Tiny.Rows.{Document}
use bumper.Db.{Db}
use bumper.Db.Documents.{TokenDoc, no_token, update_token}

-- `bumper.token_validity_seconds`, in microseconds
abbrev pub token_validity : ℕ
token_validity = 3600 * 1000000

abbrev pub of_user : String → TokenDoc → Bool
of_user userid d = field_is d.userid userid

abbrev pub is_pair : String → String → TokenDoc → Bool
is_pair userid token d = field_is d.userid userid && field_is d.token token

-- the user id with or without the prefix `fuid_`
abbrev pub of_uid : String → TokenDoc → Bool
of_uid uid d = field_is d.userid (replace "fuid_" "" uid) || field_is d.userid ("fuid_" ++ uid)

-- `authcode` as `user_add_authcode` and `user_revoke_authcode` upsert it
abbrev pub with_authcode : String → TokenDoc
with_authcode authcode = record no_token { authcode = some authcode }

-- `{"token": …, "userid": …}` from a document that may lack a key
abbrev pub login_pair : Option String → Option String → Result (Option (String × String))
login_pair none u = err key_error
login_pair (some t) none = err key_error
login_pair (some t) (some u) = ok (some (t, u))

module _ {tiny : TinyDb} where
  unfoldable pub user_get_tokens : String → Db tiny → List (Document TokenDoc)
  user_get_tokens userid db = tiny.search (of_user userid) db.tokens

  unfoldable pub user_get_token : String → String → Db tiny → Option (Document TokenDoc)
  user_get_token userid token db = tiny.get (is_pair userid token) db.tokens

  -- The first argument is `datetime.now()`.
  unfoldable pub user_add_token : ℕ → String → String → Db tiny → Db tiny
  unfolding user_get_token
  user_add_token now userid token db = elim (user_get_token userid token db) [
    | some old ↦ db
    | none ↦
        let row : TokenDoc = record {
          userid = some userid;
          token = some token;
          expiration = some (now + token_validity);
          authcode = none;
        } in
        record db { tokens = (tiny.insert row db.tokens).1 }
  ]

  -- `tokens.remove(doc_ids=[i])`
  abbrev pub remove_token : ℕ → Db tiny → Db tiny
  remove_token i db = record db { tokens = tiny.remove i db.tokens }

  -- The loop of `user_revoke_all_tokens`.
  unfoldable pub remove_tokens : List (Document TokenDoc) → Db tiny → Db tiny
  remove_tokens [] db = db
  remove_tokens (r ∷ rest) db = remove_tokens rest (remove_token r.doc_id db)

  unfoldable pub user_revoke_all_tokens : String → Db tiny → Db tiny
  unfolding user_get_tokens remove_tokens
  user_revoke_all_tokens userid db = remove_tokens (user_get_tokens userid db) db

  -- The loop of `user_revoke_expired_tokens` and of `revoke_expired_tokens`. Each round reads the
  -- clock anew: `clock k` is the reading of the round `k`. The log line of an expired token reads its
  -- key `token` before the token is removed.
  unfoldable pub sweep_tokens : (ℕ → ℕ) → ℕ → List (Document TokenDoc) → Exec (Db tiny) (Unit {0})
  sweep_tokens clock k [] db = (ok tt, db)
  sweep_tokens clock k (r ∷ rest) db = elim r.fields.expiration [
    | none ↦ (err key_error, db)
    | some expiration ↦
        let late = leb expiration (clock k) in
        let after =
          sweep_tokens clock (suc k) rest (if late then remove_token r.doc_id db else db) in
        if late && not (is_some r.fields.token) then (err key_error, db) else after
  ]

  unfoldable pub user_revoke_expired_tokens : (ℕ → ℕ) → String → Exec (Db tiny) (Unit {0})
  unfolding user_get_tokens sweep_tokens
  user_revoke_expired_tokens clock userid db = sweep_tokens clock 0 (user_get_tokens userid db) db

  unfoldable pub revoke_expired_tokens : (ℕ → ℕ) → Exec (Db tiny) (Unit {0})
  unfolding sweep_tokens
  revoke_expired_tokens clock db = sweep_tokens clock 0 (tiny.all db.tokens) db

  unfoldable pub user_revoke_token : String → String → Db tiny → Db tiny
  unfolding user_get_token
  user_revoke_token userid token db = elim (user_get_token userid token db) [
    | none ↦ db
    | some old ↦ record db { tokens = tiny.remove old.doc_id db.tokens }
  ]

  -- The two methods that upsert an `authcode` differ in its value alone.
  abbrev pub set_authcode : String → String → String → Db tiny → Db tiny
  set_authcode userid token authcode db = record db {
    tokens = tiny.upsert update_token (with_authcode authcode) (is_pair userid token) db.tokens;
  }

  unfoldable pub user_add_authcode : String → String → String → Db tiny → Db tiny
  unfolding user_get_token
  user_add_authcode userid token authcode db = elim (user_get_token userid token db) [
    | none ↦ db
    | some old ↦ set_authcode userid token authcode db
  ]

  unfoldable pub user_revoke_authcode : String → String → Db tiny → Db tiny
  unfolding user_get_token
  user_revoke_authcode userid token db = elim (user_get_token userid token db) [
    | none ↦ db
    | some old ↦ set_authcode userid token "" db
  ]

  unfoldable pub token_by_authcode : String → Db tiny → Option (Document TokenDoc)
  token_by_authcode authcode db = tiny.get (λ d. field_is d.authcode authcode) db.tokens

  unfoldable pub check_authcode : String → String → Db tiny → Bool
  check_authcode uid authcode db =
      is_some (tiny.get (λ d. field_is d.authcode authcode && of_uid uid d) db.tokens)

  unfoldable pub check_token : String → String → Db tiny → Bool
  check_token uid token db =
      is_some (tiny.get (λ d. field_is d.token token && of_uid uid d) db.tokens)

  -- The token and the user id; `none` is the empty dict.
  unfoldable pub login_by_it_token : String → Db tiny → Result (Option (String × String))
  unfolding token_by_authcode
  login_by_it_token authcode db = elim (token_by_authcode authcode db) [
    | none ↦ ok none
    | some r ↦ login_pair r.fields.token r.fields.userid
  ]
