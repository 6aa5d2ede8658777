-- ===== src/Web/Plugins/Devmanager.antt =====
-- bumper/web/plugins/api/iot.py and bumper/web/plugins/api/dim.py
pub mod Sends
pub mod Known
use bumper.Prelude.{
  String, ◌==◌, Bool, true, false, ◌&&◌, Option, none, some, List, [], ◌∷◌, if◌then◌else◌,
}
use bumper.Tiny.{TinyDb}
use bumper.Tiny.Rows.{Document}
use bumper.Db.{Db}
use bumper.Db.Documents.{BotDoc}
use bumper.Db.Bots.{bot_get}
use bumper.Json.{Json, Fields, boolean, text, number, object, fields, field_of, is_text, text_of}

-- A handler's decision: it answers, it hands the command to the helper bot, under a request id, and
-- answers what that returns, or it ends with an internal server error.
pub data Decision : Type 0 where
  answers : Json → Decision
  sends : Fields → String → Decision
  fails : Decision

abbrev pub ret_ok : Json
ret_ok = object (fields (("ret", text "ok") ∷ []))

abbrev pub no_unread : Json
no_unread = object (fields (("ret", text "ok") ∷ ("unRead", boolean false) ∷ []))

-- The body without a receiver: the last of the three requests is the argument.
unfoldable pub without_receiver : String → Fields → Decision
without_receiver third body = elim (field_of "td" body) [
  | none ↦ fails
  | some td ↦
      if is_text "PollSCResult" td
      then answers ret_ok
      else if is_text "HasUnreadMsg" td
      then answers no_unread
      else if is_text third td
      then answers ret_ok
      else fails
]

abbrev pub iot_error : String → Json
iot_error id = object (
    fields (
      ("id", text id)
      ∷ ("errno", number 500)
      ∷ ("ret", text "fail")
      ∷ ("debug", text "wait for response timed out")
      ∷ []))

-- `ERR_COMMON` is the text "0001".
abbrev pub dim_error : String → Json
dim_error id =
    object (fields (("id", text id) ∷ ("errno", text "0001") ∷ ("ret", text "fail") ∷ []))

-- `bot["company"] == "eco-ng"`, and for dim.py `bot["mqtt_connection"]` too; `none` where a key is
-- missing.
unfoldable pub iot_accepts : BotDoc → Option Bool
iot_accepts bot = elim bot.company [ none ↦ none | some company ↦ some (company == "eco-ng") ]

unfoldable pub dim_accepts : BotDoc → Option Bool
dim_accepts bot = elim bot.company [
  | none ↦ none
  | some company ↦ if company == "eco-ng" then bot.mqtt_connection else some false
]

module _ {tiny : TinyDb} where
  -- `bot_get(did)` of any value: the dids of the bots are texts.
  abbrev pub bot_of : Json → Db tiny → Option (Document BotDoc)
  bot_of (text did) db = bot_get did db
  bot_of _ db = none

  -- A body with a receiver that is not the empty text
  unfoldable pub to_receiver :
      (BotDoc → Option Bool) → Json → Fields → String → Json → Db tiny → Decision
  to_receiver accepts error body id to_id db = elim (bot_of to_id db) [
    | none ↦ answers error
    | some bot ↦ elim (accepts bot.fields) [
      | none ↦ fails
      | some accepted ↦ if accepted then sends body id else answers error
    ]
  ]

  unfoldable pub decide :
      (BotDoc → Option Bool) → Json → String → Option Fields → String → Db tiny → Decision
  unfolding to_receiver without_receiver
  decide accepts error third none id db = fails
  decide accepts error third (some body) id db = elim (field_of "toId" body) [
    | none ↦ without_receiver third body
    | some to_id ↦
        if is_text "" to_id
        then without_receiver third body
        else to_receiver accepts error body id to_id db
  ]

  -- The two handlers; the body is `none` where it is no JSON object, the text is the random id.
  unfoldable pub handle_devmanager_bot_command : Option Fields → String → Db tiny → Decision
  unfolding decide iot_accepts
  handle_devmanager_bot_command body id = decide iot_accepts (iot_error id) "PreWifiConfig" body id

  unfoldable pub handle_dim_devmanager : Option Fields → String → Db tiny → Decision
  unfolding decide dim_accepts
  handle_dim_devmanager body id = decide dim_accepts (dim_error id) "ReceiveShareDevice" body id
