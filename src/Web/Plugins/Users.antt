-- ===== src/Web/Plugins/Users.antt =====
-- bumper/web/plugins/api/users.py
pub mod Changes
pub mod Logins
use bumper.Prelude.{
  String, ◌==◌, Bool, true, false, Option, none, some, List, [], ◌∷◌, if◌then◌else◌, map,
}
use bumper.Prelude.Exec.{Exec, Result, ok, err, key_error, pure, need, gets, modify, ◌>>=◌, ◌>>◌}
use bumper.Prelude.Text.{replace}
use bumper.Tiny.{TinyDb}
use bumper.Tiny.Rows.{Document}
use bumper.Db.{Db}
use bumper.Db.Documents.{BotDoc}
use bumper.Db.Bots.{bot_remove, bot_set_nick}
use bumper.Db.Tokens.{check_authcode, login_by_it_token}
use bumper.Json.{Json, text, number, array, object, fields, items}
use bumper.Web.Plugins.{Posted, fail_body, ok_body, bot_entries}
use bumper.Web.Server.{ServerEnv, Reply, json_reply, text_reply}
use bumper.Xmpp.Xml.{lookup}

unfoldable pub find_best : ServerEnv → String → Reply
find_best env service =
    if service == "EcoMsgNew"
    then text_reply (
        replace " " "" (
          env.dumps (
            object (
              fields (
                ("ip", text env.imported_ip)
                ∷ ("port", number 5223)
                ∷ ("result", text "ok")
                ∷ [])))))
    else if service == "EcoUpdate"
    then json_reply (
        object (
          fields
            (("result", text "ok") ∷ ("ip", text "47.88.66.164") ∷ ("port", number 8005) ∷ [])))
    else json_reply (object (fields []))

unfoldable pub it_login_body : String → String → String → Json
it_login_body resource token userid = object (
    fields (
      ("resource", text resource)
      ∷ ("result", text "ok")
      ∷ ("todo", text "result")
      ∷ ("token", text token)
      ∷ ("userId", text userid)
      ∷ []))

-- `{"devices": …, "result": "ok", "todo": "result"}`
unfoldable pub device_list : List (Document BotDoc) → Json
unfolding bot_entries
device_list bots = object (
    fields (
      ("devices", array (items (map (λ r. object (fields (bot_entries r.fields))) bots)))
      ∷ ("result", text "ok")
      ∷ ("todo", text "result")
      ∷ []))

module _ {tiny : TinyDb} where
  abbrev pub lift_result : {A : Type 0} → (Db tiny → Result A) → Exec (Db tiny) A
  lift_result f db = (f db, db)

  -- With a user id, and without one
  unfoldable pub login_user : String → List (String × String) → Exec (Db tiny) Reply
  unfolding it_login_body
  login_user userid post = do
    token ← need key_error (lookup "token" post)
    valid ← gets (check_authcode userid token)
    (if valid
        then (do
          resource ← need key_error (lookup "resource" post)
          pure (json_reply (it_login_body resource token userid)))
        else pure (json_reply (object (fields []))))

  unfoldable pub login_found :
      List (String × String) → Option (String × String) → Exec (Db tiny) Reply
  unfolding it_login_body
  login_found post none = pure (json_reply fail_body)
  login_found post (some (token, userid)) = do
    resource ← need key_error (lookup "resource" post)
    pure (json_reply (it_login_body resource token userid))

  unfoldable pub login_it_token : List (String × String) → Exec (Db tiny) Reply
  unfolding login_found
  login_it_token post = do
    code ← need key_error (lookup "token" post)
    found ← lift_result (login_by_it_token code)
    login_found post found

  unfoldable pub set_device_nick : List (String × String) → Exec (Db tiny) Reply
  set_device_nick post = do
    did ← need key_error (lookup "did" post)
    nick ← need key_error (lookup "nick" post)
    modify (bot_set_nick did nick)
    pure (json_reply ok_body)

  unfoldable pub delete_device : List (String × String) → Exec (Db tiny) Reply
  delete_device post = do
    did ← need key_error (lookup "did" post)
    modify (bot_remove did)
    pure (json_reply ok_body)

  -- One case for each `todo`; any other is answered with the empty object.
  unfoldable pub users_todo : ServerEnv → String → List (String × String) → Exec (Db tiny) Reply
  unfolding find_best login_user login_it_token device_list set_device_nick delete_device
  users_todo env todo post =
      if todo == "FindBest"
      then (do service ← need key_error (lookup "service" post); pure (find_best env service))
      else if todo == "loginByItToken"
      then elim (lookup "userId" post) [
        | some userid ↦ login_user userid post
        | none ↦ login_it_token post
      ]
      else if todo == "GetDeviceList"
      then gets (λ db. json_reply (device_list (tiny.all db.bots)))
      else if todo == "SetDeviceNick"
      then set_device_nick post
      else if todo == "AddOneDevice"
      then set_device_nick post
      else if todo == "DeleteOneDevice"
      then delete_device post
      else pure (json_reply (object (fields [])))

  -- The answer to an exception is the one to a GET.
  abbrev pub or_fail : Result Reply × Db tiny → Reply × Db tiny
  or_fail (ok reply, db) = (reply, db)
  or_fail (err e, db) = (json_reply fail_body, db)

  unfoldable pub handle_usersapi : ServerEnv → Posted → Db tiny → Reply × Db tiny
  unfolding users_todo
  handle_usersapi env request db =
      if request.method == "GET"
      then (json_reply fail_body, db)
      else or_fail (
          (do
            post ← need key_error request.body
            todo ← need key_error (lookup "todo" post)
            users_todo env todo post)
            db)
