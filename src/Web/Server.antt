-- ===== src/Web/Server.antt =====
-- bumper/web/server.py: the handlers of the web server's own routes. `err` stands for the answer of an
-- internal server error, after an exception.
pub mod Removals
use bumper.Prelude.{
  String, ◌==◌, Bool, true, false, Option, none, some, List, [], ◌∷◌, if◌then◌else◌, is_some,
}
use bumper.Prelude.Exec.{Exec, Result, ok, err, key_error}
use bumper.Prelude.Text.{replace}
use bumper.Tiny.{TinyDb}
use bumper.Db.{Db}
use bumper.Db.Bots.{bot_get, bot_remove}
use bumper.Db.Clients.{client_get, client_remove}
use bumper.Json.{Json, text, number, object, fields}
use bumper.Web.Auth.{get_or}
use bumper.Xmpp.Xml.{lookup}

-- `json.dumps`, `bumper.bumper_announce_ip` when a handler reads it, and the value that it had when
-- api/users.py was imported, which keeps that
pub record ServerEnv : Type 0 where
  pub dumps : Json → String
  pub announce_ip : String
  pub imported_ip : String

-- `web.json_response(value)`, and `web.json_response(text=…)`
pub data Reply : Type 0 where
  json_reply : Json → Reply
  text_reply : String → Reply

abbrev pub status : String → Json
status s = object (fields (("status", text s) ∷ []))

-- The answer that tells a bot its message server: the JSON text without its spaces.
unfoldable pub message_server : ServerEnv → Reply
message_server env = text_reply (
    replace " " "" (
      env.dumps (
        object (
          fields
            (("ip", text env.announce_ip) ∷ ("port", number 5223) ∷ ("result", text "ok") ∷ [])))))

abbrev pub update_server : Reply
update_server = json_reply (
    object
      (fields (("result", text "ok") ∷ ("ip", text "47.88.66.164") ∷ ("port", number 8005) ∷ [])))

-- The body is that of a form or of a JSON object of texts; `none` where reading it raises.
unfoldable pub handle_lookup : ServerEnv → Option (List (String × String)) → Result Reply
unfolding message_server
handle_lookup env none = err key_error
handle_lookup env (some body) = elim (lookup "todo" body) [
  | none ↦ err key_error
  | some todo ↦
      if todo == "FindBest"
      then elim (lookup "service" body) [
        | none ↦ err key_error
        | some service ↦
            if service == "EcoMsgNew"
            then ok (message_server env)
            else if service == "EcoUpdate"
            then ok update_server
            else ok (json_reply (object (fields [])))
      ]
      else ok (json_reply (object (fields [])))
]

-- The token that was given is the auth code.
unfoldable pub handle_newauth : Option (List (String × String)) → Result Reply
handle_newauth none = err key_error
handle_newauth (some body) = elim (lookup "itToken" body) [
  | none ↦ err key_error
  | some token ↦ ok (
      json_reply (
        object (
          fields
            (("authCode", text token) ∷ ("result", text "ok") ∷ ("todo", text "result") ∷ []))))
]

module _ {tiny : TinyDb} where
  unfoldable pub handle_remove_bot : Option String → Db tiny → Json × Db tiny
  handle_remove_bot did db =
      let removed = bot_remove (get_or "" did) db in
      (
        if is_some (bot_get (get_or "" did) removed)
            then status "failed to remove bot"
            else status "successfully removed bot",
        removed,
      )

  unfoldable pub handle_remove_client : Option String → Db tiny → Json × Db tiny
  handle_remove_client resource db =
      let removed = client_remove (get_or "" resource) db in
      (
        if is_some (client_get (get_or "" resource) removed)
            then status "failed to remove client"
            else status "successfully removed client",
        removed,
      )

-- What is done to the services, in order; a task begins later.
pub data Action : Type 0 where
  helper_disconnects helper_start_task mqtt_shuts_down mqtt_start_task : Action
  mqtt_restart_task helper_restart_timer xmpp_disconnects xmpp_starts : Action

unfoldable pub restart_helper_bot : List Action
restart_helper_bot = helper_disconnects ∷ helper_start_task ∷ []

-- From `bumper.mqtt_server.state`
unfoldable pub restart_mqtt_server : String → List Action
restart_mqtt_server state =
    if state == "stopped"
    then mqtt_start_task ∷ []
    else if state == "not_started"
    then mqtt_start_task ∷ []
    else mqtt_shuts_down ∷ mqtt_start_task ∷ []

unfoldable pub handle_restart_service : Option String → List Action × Json
unfolding restart_helper_bot
handle_restart_service service =
    if get_or "" service == "Helperbot"
    then (restart_helper_bot, status "complete")
    else if get_or "" service == "MQTTServer"
    then (mqtt_restart_task ∷ helper_restart_timer ∷ [], status "complete")
    else if get_or "" service == "XMPPServer"
    then (xmpp_disconnects ∷ xmpp_starts ∷ [], status "complete")
    else ([], status "invalid service")
