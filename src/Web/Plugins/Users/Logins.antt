-- ===== src/Web/Plugins/Users/Logins.antt =====
-- The logins of bumper/web/plugins/api/users.py with the auth codes of bumper/web/auth_util.py.
use bumper.Prelude.{
  ◌≡◌, refl, String, ◌==◌, false, none, some, [], ◌∷◌, if◌then◌else◌, inl, inr, Bool-cases,
}
use bumper.Prelude.Exec.{ok}
use bumper.Prelude.Text.{concat, replace}
use bumper.Tiny.{TinyDb}
use bumper.Tiny.Rows.{Document}
use bumper.Db.{Db}
use bumper.Db.Documents.{UserDoc, TokenDoc}
use bumper.Db.Users.{user_by_device_id}
use bumper.Db.Tokens.{check_authcode, user_get_token}
use bumper.Json.{object, fields}
use bumper.Web.{Request, WebEnv, auth_code, Web}
use bumper.Web.Auth.{return_api_success, get_or, get_authcode, device_id}
use bumper.Web.Login.{get_authcode_lem}
use bumper.Web.Plugins.{Posted}
use bumper.Web.Plugins.Users.{it_login_body, login_user, users_todo, handle_usersapi}
use bumper.Web.Server.{ServerEnv, json_reply}
use bumper.Xmpp.Xml.{lookup}

-- A request for a login with an auth code
abbrev pub login_request : String → String → String → Posted
login_request userid code resource = record {
  method = "POST";
  body = some (
      ("todo", "loginByItToken")
      ∷ ("userId", userid)
      ∷ ("token", code)
      ∷ ("resource", resource)
      ∷ []);
}

module _ {tiny : TinyDb} where
  login_request_lem :
      (env : ServerEnv) (userid code resource : String) (db : Db tiny)
      → handle_usersapi env (login_request userid code resource) db ≡ (
        (if check_authcode userid code db
            then json_reply (it_login_body resource code userid)
            else json_reply (object (fields []))),
        db,
      )
  unfolding handle_usersapi users_todo login_user lookup
  login_request_lem env userid code resource db =
      elim (Bool-cases (check_authcode userid code db)) [ inl e ↦ rw e refl | inr e ↦ rw e refl ]

  -- After a request for an auth code with the device id of a known user, a token that the user holds and
  -- that has no auth code yet, and a uid: a login at users.do with the code that was answered succeeds,
  -- if "fuid_" does not stand in the user's id.
  pub login_after_get_authcode :
      (server : ServerEnv) (env : WebEnv) (request : Request)
      → (devid userid access uid resource : String)
      → (user : Document UserDoc) (token : Document TokenDoc) (s : Web tiny)
      → device_id request ≡ some devid
      → (devid == "") ≡ false
      → user_by_device_id devid s.db ≡ some user
      → user.fields.userid ≡ some userid
      → lookup "accessToken" request.query ≡ some access
      → lookup "uid" request.query ≡ some uid
      → user_get_token userid access s.db ≡ some token
      → token.fields.authcode ≡ none
      → replace "fuid_" "" userid ≡ userid
      → ((code : String) × ((get_authcode env request s).0
            ≡ ok (record { code = return_api_success; contents = auth_code code uid }))
          × (handle_usersapi server
                (login_request userid code resource)
                (get_authcode env request s).1.db
              ≡ (
                json_reply (it_login_body resource code userid),
                (get_authcode env request s).1.db,
              )))
  login_after_get_authcode server env request devid userid access uid resource user token s devid_is
        some_devid user_is userid_is access_is uid_is token_is no_code plain =
      let both =
        get_authcode_lem env request devid userid access uid user token s devid_is some_devid
          user_is userid_is access_is uid_is token_is no_code plain in
      (
        concat (get_or "us" request.country ∷ "_" ∷ env.hex s.drawn ∷ []),
        both.0,
        rw (login_request_lem server userid _ resource (get_authcode env request s).1.db, both.1)
            refl,
      )
