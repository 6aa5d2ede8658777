-- ===== src/Web/Plugins.antt =====
-- bumper/web/plugins: what a handler of a plugin is given, and the values that several of them answer.
pub mod Users
pub mod Devmanager
pub mod Account
pub mod Appsvr
pub mod Common
pub mod Product
pub mod Lg
mod Tests
use bumper.Prelude.{ℕ, String, Bool, true, Option, none, some, List, [], ◌∷◌, ◌++◌}
use bumper.Db.Documents.{BotDoc}
use bumper.Json.{Json, boolean, number, text, object, fields}

-- The method of a request, and the keys and texts of its body, a form or a JSON object; `none` where
-- reading the body raises.
pub record Posted : Type 0 where
  pub method : String
  pub body : Option (List (String × String))

-- `get_success_response`, at a time in milliseconds
unfoldable pub get_success_response : ℕ → Json → Json
get_success_response now value = object (
    fields (
      ("code", text "0000")
      ∷ ("data", value)
      ∷ ("msg", text "操作成功")
      ∷ ("success", boolean true)
      ∷ ("time", number now)
      ∷ []))

-- `{"result": "fail", "todo": "result"}`
abbrev pub fail_body : Json
fail_body = object (fields (("result", text "fail") ∷ ("todo", text "result") ∷ []))

abbrev pub ok_body : Json
ok_body = object (fields (("result", text "ok") ∷ ("todo", text "result") ∷ []))

abbrev pub text_entry : String → Option String → List (String × Json)
text_entry k none = []
text_entry k (some s) = (k, text s) ∷ []

abbrev pub flag_entry : String → Option Bool → List (String × Json)
flag_entry k none = []
flag_entry k (some b) = (k, boolean b) ∷ []

-- A document of the table `bots` as the object that it is.
unfoldable pub bot_entries : BotDoc → List (String × Json)
bot_entries b =
    text_entry "class" b.bot_class
    ++ text_entry "company" b.company
    ++ text_entry "did" b.did
    ++ text_entry "name" b.name
    ++ text_entry "nick" b.nick
    ++ text_entry "resource" b.resource
    ++ flag_entry "mqtt_connection" b.mqtt_connection
    ++ flag_entry "xmpp_connection" b.xmpp_connection
