-- ===== src/Web/Plugins/Account/Logout.antt =====
-- What a logout of bumper/web/plugins/v1/private/user.py revokes.
use Prim.Native.String.{◌++◌}
use bumper.Prelude.{
  both_true, ℕ, ◌≡◌, refl, sym, ◌∙◌, ap, String, ◌==◌, Bool, false, ◌&&◌, ◌||◌, Option, none, some,
  if◌then◌else◌, inl, inr, Bool-cases, is_some, eq_iff,
}
use bumper.Prelude.Exec.{ok}
use bumper.Prelude.Text.{replace}
use bumper.Tiny.{TinyDb}
use bumper.Tiny.Rows.{Document}
use bumper.Db.{Db}
use bumper.Db.Documents.{UserDoc, TokenDoc}
use bumper.Db.Users.{user_by_device_id}
use bumper.Db.Tokens.{check_token}
use bumper.Db.Tokens.Unique.{IsTokenTable, view-user_revoke_token}
use bumper.Db.Tokens.Views.{token_view, check_token_lem}
use bumper.Json.{nothing}
use bumper.Web.{Request}
use bumper.Web.Auth.{get_or}
use bumper.Web.Plugins.{get_success_response}
use bumper.Web.Plugins.Account.{logout_user, logout}
use bumper.Xmpp.Xml.{lookup}

nothing_left : (o : Option TokenDoc) (b : Bool) → (is_some o || b) ≡ false → o ≡ none
nothing_left none b h = refl
nothing_left (some d) b h = cc

module _ {tiny : TinyDb} where
  -- A token that `check_token` refuses is not held by the user.
  not_held :
      (userid t : String) (db : Db tiny)
      → replace "fuid_" "" userid ≡ userid
      → check_token userid t db ≡ false
      → token_view userid t db ≡ none
  not_held userid t db plain h =
      let other = is_some (token_view ("fuid_" ++ userid) t db) in
      nothing_left (token_view userid t db) other (
        ap (λ x. is_some (token_view x t db) || other) (sym plain)
        ∙ sym (check_token_lem userid t db)
        ∙ h)

  -- A logout with the device id of a known user and a token succeeds; then the user does not hold the
  -- token any more, and every other token of this user or another is as it was, if each is stored once
  -- with its expiration and "fuid_" does not stand in the user's id.
  pub logout_lem :
      (now : ℕ) (request : Request) (userid t j k : String) (user : Document UserDoc) (db : Db tiny)
      → (get_or "" request.devid == "") ≡ false
      → user_by_device_id (get_or "" request.devid) db ≡ some user
      → user.fields.userid ≡ some userid
      → lookup "accessToken" request.query ≡ some t
      → replace "fuid_" "" userid ≡ userid
      → IsTokenTable db
      → ((logout now request db).0 ≡ ok (get_success_response now nothing))
        × (token_view j k (logout now request db).1
            ≡ (if userid == j && t == k then none else token_view j k db))
  unfolding logout logout_user
  logout_lem now request userid t j k user db some_devid user_is userid_is token_is plain table =
      elim (Bool-cases (check_token userid t db)) [
        | inl valid ↦
            rw (some_devid, logout)
              (rw (user_is, logout_user)
                (rw (userid_is) (
                  rw (token_is) (rw (valid) (refl, view-user_revoke_token userid t j k db table)))))
        | inr invalid ↦
            rw (some_devid, logout)
              (rw (user_is, logout_user)
                (rw (userid_is) (rw (token_is) (rw (invalid) (refl, unchanged invalid)))))
      ]
    where
      unchanged :
          check_token userid t db ≡ false
          → token_view j k db ≡ (if userid == j && t == k then none else token_view j k db)
      unchanged invalid = elim (Bool-cases (userid == j && t == k)) [
        | inr other ↦ rw other refl
        | inl same ↦
            let (user_same, token_same) = both_true (userid == j) (t == k) same in
            rw (same, sym ((eq_iff userid j).0 user_same), sym ((eq_iff t k).0 token_same))
              (not_held userid t db plain invalid)
      ]
