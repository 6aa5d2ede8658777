-- ===== src/Web/Login.antt =====
-- What bumper/web/auth_util.py hands out is accepted by bumper/db.py afterwards.
use bumper.Prelude.{◌≡◌, refl, String, ◌==◌, true, false, none, some, [], ◌∷◌}
use bumper.Prelude.Exec.{ok}
use bumper.Prelude.Text.{concat, replace}
use bumper.Tiny.{TinyDb}
use bumper.Tiny.Rows.{Document}
use bumper.Db.Documents.{UserDoc, TokenDoc}
use bumper.Db.Users.{user_by_device_id}
use bumper.Db.Tokens.{user_get_token, check_authcode}
use bumper.Db.Tokens.Views.{check_authcode-user_add_authcode}
use bumper.Web.{Request, WebEnv, auth_code, Web}
use bumper.Web.Auth.{
  return_api_success, get_or, get_authcode, authcode_known, authcode_of, device_id,
  generate_authcode,
}
use bumper.Xmpp.Xml.{lookup}

module _ {tiny : TinyDb} where
  -- A request for an auth code with the device id of a known user, a token that the user holds and
  -- that has no auth code yet, and a uid: it answers with a new code, which `check_authcode` then
  -- accepts for the user, if "fuid_" does not stand in the user's id.
  pub get_authcode_lem :
      (env : WebEnv) (request : Request) (devid userid access uid : String)
      → (user : Document UserDoc) (token : Document TokenDoc) (s : Web tiny)
      → device_id request ≡ some devid
      → (devid == "") ≡ false
      → user_by_device_id devid s.db ≡ some user
      → user.fields.userid ≡ some userid
      → lookup "accessToken" request.query ≡ some access
      → lookup "uid" request.query ≡ some uid
      → user_get_token userid access s.db ≡ some token
      → token.fields.authcode ≡ none
      → replace "fuid_" "" userid ≡ userid
      → (let code = concat (get_or "us" request.country ∷ "_" ∷ env.hex s.drawn ∷ []) in
          ((get_authcode env request s).0
            ≡ ok (record { code = return_api_success; contents = auth_code code uid }))
          × (check_authcode userid code (get_authcode env request s).1.db ≡ true))
  unfolding get_authcode authcode_known authcode_of generate_authcode
  get_authcode_lem env request devid userid access uid user token s devid_is some_devid user_is
        userid_is access_is uid_is token_is no_code plain =
      rw (devid_is, some_devid, get_authcode)
        (rw (user_is, access_is)
          (rw (userid_is, token_is, authcode_known, authcode_of)
            (rw (no_code, uid_is)
              (
                refl,
                check_authcode-user_add_authcode userid access userid
                    (concat (get_or "us" request.country ∷ "_" ∷ env.hex s.drawn ∷ [])) s.db token
                    token_is plain,
              ))))
