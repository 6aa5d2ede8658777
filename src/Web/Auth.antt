-- ===== src/Web/Auth.antt =====
-- bumper/web/auth_util.py: the login of an app and its auth codes.
use bumper.Prelude.{
  ◌+◌, String, ◌==◌, Bool, true, false, Option, none, some, List, [], ◌∷◌, if◌then◌else◌,
}
use bumper.Prelude.Exec.{
  Exec, ok, err, key_error, assertion_error, pure, need, gets, modify, ◌>>=◌, ◌>>◌,
}
use bumper.Prelude.Text.{concat, has_sub}
use bumper.Tiny.{TinyDb}
use bumper.Tiny.Rows.{Document}
use bumper.Db.{Db}
use bumper.Db.Documents.{UserDoc, BotDoc, TokenDoc}
use bumper.Db.Users.{user_get, user_by_device_id, user_add, user_add_device, user_add_bot}
use bumper.Db.Tokens.{
  user_add_token, user_get_token, user_add_authcode, user_revoke_expired_tokens, check_token,
}
use bumper.Web.{Request, WebEnv, Details, null, details, auth_code, Body, Web}
use bumper.Xmpp.Xml.{lookup}

-- `RETURN_API_SUCCESS`, `ERR_TOKEN_INVALID` and `ERR_USER_NOT_ACTIVATED`
abbrev pub return_api_success : String
return_api_success = "0000"

abbrev pub err_token_invalid : String
err_token_invalid = "0004"

abbrev pub err_user_not_activated : String
err_user_not_activated = "1003"

-- `use_auth`, a copy of the constant of bumper/__init__.py, which is made at the import
abbrev pub use_auth : Bool
use_auth = false

-- `d.get(key, default)`
abbrev pub get_or : String → Option String → String
get_or default none = default
get_or default (some s) = s

-- `_get_login_details`, for the user id
unfoldable pub get_login_details : String → String → String → String → Details
get_login_details apptype countrycode userid token = record {
  access_token = token;
  uid = concat ("fuid_" ∷ userid ∷ []);
  username = concat ("fusername_" ∷ userid ∷ []);
  country = countrycode;
  email = "null@null.com";
  global_names =
      if has_sub "global_" apptype
      then some (concat ("fuid_" ∷ userid ∷ []), concat ("fusername_" ∷ userid ∷ []))
      else none;
}

abbrev pub login_body : String → String → String → String → Body
login_body apptype countrycode userid token = record {
  code = return_api_success;
  contents = details (get_login_details apptype countrycode userid token);
}

abbrev pub error_body : String → Body
error_body e = record { code = e; contents = null }

-- The device id of the path, or else of the query.
abbrev pub device_id : Request → Option String
device_id request =
    if get_or "" request.devid == "" then lookup "deviceId" request.query else request.devid

module _ {tiny : TinyDb} (env : WebEnv) where
  -- An operation of the database that may raise.
  abbrev pub lift : {A : Type 0} → Exec (Db tiny) A → Exec (Web tiny) A
  lift m s = ((m s.db).0, record s { db = (m s.db).1 })

  abbrev pub on_db : (Db tiny → Db tiny) → Web tiny → Web tiny
  on_db f s = record s { db = f s.db }

  abbrev pub draw : Exec (Web tiny) String
  draw s = (ok (env.hex s.drawn), record s { drawn = s.drawn + 1 })

  unfoldable pub generate_token : String → Exec (Web tiny) String
  generate_token userid = do
    token ← draw
    modify (on_db (user_add_token env.now userid token))
    pure token

  unfoldable pub generate_authcode : String → String → String → Exec (Web tiny) String
  generate_authcode userid countrycode token = do
    hex ← draw
    modify (on_db (user_add_authcode userid token (concat (countrycode ∷ "_" ∷ hex ∷ []))))
    pure (concat (countrycode ∷ "_" ∷ hex ∷ []))

  -- `_check_token`: whether the token is valid, and the body
  unfoldable pub check_token_body : String → String → String → String → Web tiny → Bool × Body
  check_token_body apptype countrycode userid token s =
      if check_token userid token s.db
      then (true, login_body apptype countrycode userid token)
      else (false, error_body err_token_invalid)

  -- The end of a login: old tokens go, a new one is made.
  unfoldable pub new_login : String → String → String → Exec (Web tiny) Body
  unfolding generate_token
  new_login apptype countrycode userid = do
    lift (user_revoke_expired_tokens env.clock userid)
    token ← generate_token userid
    pure (login_body apptype countrycode userid token)

  unfoldable pub login_known : Request → Document UserDoc → Exec (Web tiny) Body
  unfolding check_token_body new_login
  login_known request user =
      let apptype = get_or "" request.apptype in
      let countrycode = get_or "us" request.country in
      do
        userid ← need key_error user.fields.userid
        (if has_sub "checkLogin" request.path
            then (do
              token ← need key_error (lookup "accessToken" request.query)
              body ← gets (check_token_body apptype countrycode userid token)
              pure body.1)
            else new_login apptype countrycode userid)

  -- The loop over the bots that were there when the handler began.
  unfoldable pub add_bots : String → List (Document BotDoc) → Exec (Db tiny) (Unit {0})
  add_bots userid [] = λ db. (ok tt, db)
  add_bots userid (bot ∷ rest) = elim bot.fields.did [
    | none ↦ add_bots userid rest
    | some did ↦ user_add_bot userid did >> add_bots userid rest
  ]

  -- The user of the device, else the user "tmpuser", which is added where it is not there.
  unfoldable pub device_user : String → Exec (Web tiny) (Document UserDoc)
  device_user devid s = elim (user_by_device_id devid s.db) [
    | some user ↦ (ok user, s)
    | none ↦
        let t = on_db (user_add "tmpuser") s in need assertion_error (user_get "tmpuser" t.db) t
  ]

  -- What is answered at the end of `_auth_any`; the exception is that of `request.query`.
  unfoldable pub auth_any_body : Request → String → String → Exec (Web tiny) Body
  unfolding check_token_body
  auth_any_body request userid token =
      let apptype = get_or "" request.apptype in
      let countrycode = get_or "us" request.country in
      let finish = (do
        lift (user_revoke_expired_tokens env.clock userid)
        pure (login_body apptype countrycode userid token)) in
      if has_sub "checkLogin" request.path
      then (do
        given ← need key_error (lookup "accessToken" request.query)
        checked ← gets (check_token_body apptype countrycode userid given)
        if checked.0 then pure checked.1 else finish)
      else finish

  unfoldable pub auth_any : Request → Exec (Web tiny) Body
  unfolding device_user generate_token add_bots auth_any_body
  auth_any request =
      let devid = get_or "" request.devid in
      do
        bots ← gets (λ s. tiny.all s.db.bots)
        user ← device_user devid
        userid ← need key_error user.fields.userid
        token ← generate_token userid
        lift (user_add_device userid devid)
        lift (add_bots userid bots)
        auth_any_body request userid token

  -- An exception stands for the answer of an internal server error, here and in `get_authcode`.
  unfoldable pub login : Request → Exec (Web tiny) Body
  unfolding login_known auth_any
  login request s =
      let devid = get_or "" request.devid in
      if use_auth
      then (if devid == ""
          then (ok (error_body err_user_not_activated), s)
          else elim (user_by_device_id devid s.db) [
            | none ↦ (ok (error_body err_user_not_activated), s)
            | some user ↦ login_known request user s
          ])
      else auth_any request s

  -- The auth code of a token that was found: the one that it has, or a new one.
  unfoldable pub authcode_of : Request → String → String → TokenDoc → Exec (Web tiny) String
  unfolding generate_authcode
  authcode_of request userid access token = elim token.authcode [
    | some code ↦ pure code
    | none ↦ generate_authcode userid (get_or "us" request.country) access
  ]

  unfoldable pub authcode_known : Request → String → String → Exec (Web tiny) Body
  unfolding authcode_of
  authcode_known request userid access s = elim (user_get_token userid access s.db) [
    | none ↦ (ok (error_body err_token_invalid), s)
    | some token ↦
        (do
          code ← authcode_of request userid access token.fields
          uid ← need key_error (lookup "uid" request.query)
          pure (record { code = return_api_success; contents = auth_code code uid }))
          s
  ]

  unfoldable pub get_authcode : Request → Exec (Web tiny) Body
  unfolding authcode_known
  get_authcode request s = elim (device_id request) [
    | none ↦ (err key_error, s)
    | some devid ↦ elim (if devid == "" then none else user_by_device_id devid s.db) [
      | none ↦ (ok (error_body err_token_invalid), s)
      | some user ↦ elim (lookup "accessToken" request.query) [
        | none ↦ (ok (error_body err_token_invalid), s)
        | some access ↦ elim user.fields.userid [
          | none ↦ (err key_error, s)
          | some userid ↦ authcode_known request userid access s
        ]
      ]
    ]
  ]
