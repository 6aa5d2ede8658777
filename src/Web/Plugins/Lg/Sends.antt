-- ===== src/Web/Plugins/Lg/Sends.antt =====
-- The command that bumper/web/plugins/api/lg.py sends for the cleaning logs.
use bumper.Prelude.{◌≡◌, refl, String, ◌==◌, false, none, some, [], ◌∷◌, ◌∙◌, ap}
use bumper.Prelude.Text.{concat}
use bumper.Tiny.{TinyDb}
use bumper.Db.{Db}
use bumper.Db.Documents.{BotDoc}
use bumper.Db.Bots.Views.{bot_view, document_of_view}
use bumper.Json.{Fields, text, field_of}
use bumper.Json.Laws.{field_of-set_field, field_of-set_other}
use bumper.Mqtt.Helper.{HelperEnv, command_topic}
use bumper.Web.Plugins.Devmanager.{sends, iot_accepts}
use bumper.Web.Plugins.Lg.{ask_bot, begin_lg_log}
use bumper.Web.Plugins.Lg.Completed.{
  or_value, given, field_of-default_to, field_of-default_other, count, filled, logs_command,
  complete_lem,
}

-- What is read from the command: the keys of the body, else what the bot and the handler supply.
module _ (did bot_class res : String) (body : Fields) where
  set_other :
      (i : String)
      → ("payload" == i) ≡ false
      → ("td" == i) ≡ false
      → field_of i (logs_command did bot_class res body)
        ≡ field_of i (filled did bot_class res body)
  set_other i a b =
      field_of-set_other i "payload" count _ a ∙ field_of-set_other i "td" (text "q") _ b

  pub logs_payload : field_of "payload" (logs_command did bot_class res body) ≡ some count
  logs_payload = field_of-set_field "payload" count _

  logs_name :
      field_of "cmdName" (logs_command did bot_class res body)
      ≡ some (given "cmdName" (text "GetCleanLogs") body)
  logs_name =
      set_other "cmdName" refl refl
      ∙ field_of-default_other "cmdName" "payloadType" (text "x") _ refl
      ∙ field_of-default_other "cmdName" "toRes" (text res) _ refl
      ∙ field_of-default_other "cmdName" "toType" (text bot_class) _ refl
      ∙ field_of-default_other "cmdName" "toId" (text did) _ refl
      ∙ field_of-default_to "cmdName" (text "GetCleanLogs") _

  logs_to_id :
      field_of "toId" (logs_command did bot_class res body) ≡ some (given "toId" (text did) body)
  logs_to_id =
      set_other "toId" refl refl
      ∙ field_of-default_other "toId" "payloadType" (text "x") _ refl
      ∙ field_of-default_other "toId" "toRes" (text res) _ refl
      ∙ field_of-default_other "toId" "toType" (text bot_class) _ refl
      ∙ field_of-default_to "toId" (text did) _
      ∙ ap (λ o. some (or_value (text did) o))
          (field_of-default_other "toId" "cmdName" (text "GetCleanLogs") _ refl)

  logs_to_type :
      field_of "toType" (logs_command did bot_class res body)
      ≡ some (given "toType" (text bot_class) body)
  logs_to_type =
      set_other "toType" refl refl
      ∙ field_of-default_other "toType" "payloadType" (text "x") _ refl
      ∙ field_of-default_other "toType" "toRes" (text res) _ refl
      ∙ field_of-default_to "toType" (text bot_class) _
      ∙ ap (λ o. some (or_value (text bot_class) o))
          (field_of-default_other "toType" "toId" (text did) _ refl)
      ∙ ap (λ o. some (or_value (text bot_class) o))
          (field_of-default_other "toType" "cmdName" (text "GetCleanLogs") _ refl)

  logs_to_res :
      field_of "toRes" (logs_command did bot_class res body) ≡ some (given "toRes" (text res) body)
  logs_to_res =
      set_other "toRes" refl refl
      ∙ field_of-default_other "toRes" "payloadType" (text "x") _ refl
      ∙ field_of-default_to "toRes" (text res) _
      ∙ ap (λ o. some (or_value (text res) o))
          (field_of-default_other "toRes" "toType" (text bot_class) _ refl)
      ∙ ap (λ o. some (or_value (text res) o))
          (field_of-default_other "toRes" "toId" (text did) _ refl)
      ∙ ap (λ o. some (or_value (text res) o))
          (field_of-default_other "toRes" "cmdName" (text "GetCleanLogs") _ refl)

  pub logs_payload_type :
      field_of "payloadType" (logs_command did bot_class res body)
      ≡ some (given "payloadType" (text "x") body)
  logs_payload_type =
      set_other "payloadType" refl refl
      ∙ field_of-default_to "payloadType" (text "x") _
      ∙ ap (λ o. some (or_value (text "x") o))
          (field_of-default_other "payloadType" "toRes" (text res) _ refl)
      ∙ ap (λ o. some (or_value (text "x") o))
          (field_of-default_other "payloadType" "toType" (text bot_class) _ refl)
      ∙ ap (λ o. some (or_value (text "x") o))
          (field_of-default_other "payloadType" "toId" (text did) _ refl)
      ∙ ap (λ o. some (or_value (text "x") o))
          (field_of-default_other "payloadType" "cmdName" (text "GetCleanLogs") _ refl)

-- The topic of the command, and what it sends.
abbrev pub logs_topic : HelperEnv → String → String → String → Fields → String → String
logs_topic env did bot_class res body id = concat (
    "iot/p2p/"
    ∷ env.str (given "cmdName" (text "GetCleanLogs") body)
    ∷ "/helperbot/bumper/helperbot/"
    ∷ env.str (given "toId" (text did) body)
    ∷ "/"
    ∷ env.str (given "toType" (text bot_class) body)
    ∷ "/"
    ∷ env.str (given "toRes" (text res) body)
    ∷ "/q/"
    ∷ id
    ∷ "/"
    ∷ env.str (given "payloadType" (text "x") body)
    ∷ [])

pub command_topic-logs_command :
    (env : HelperEnv) (did bot_class res id : String) (body : Fields)
    → command_topic env (logs_command did bot_class res body) id
      ≡ some (logs_topic env did bot_class res body id)
unfolding command_topic
command_topic-logs_command env did bot_class res id body =
    rw (logs_name did bot_class res body, command_topic)
      (rw (logs_to_id did bot_class res body) (
        rw (logs_to_type did bot_class res body) (
          rw (logs_to_res did bot_class res body)
            (rw (logs_payload_type did bot_class res body) refl))))

ask_bot_lem :
    (did bot_class res id : String) (b : BotDoc) (body : Fields)
    → (did == "") ≡ false
    → b.company ≡ some "eco-ng"
    → b.bot_class ≡ some bot_class
    → b.resource ≡ some res
    → field_of "td" body ≡ some (text "GetCleanLogs")
    → field_of "payload" body ≡ none
    → ask_bot b (text did) body id ≡ sends (logs_command did bot_class res body) id
unfolding ask_bot iot_accepts
ask_bot_lem did bot_class res id b body some_did company_is class_is res_is td_is no_payload =
    rw (complete_lem did bot_class res b body class_is res_is td_is no_payload, ask_bot)
      (rw (some_did) (rw (company_is, iot_accepts) refl))

module _ {tiny : TinyDb} where
  -- A request without a payload for the cleaning logs of a known bot of "eco-ng"
  pub begin_lg_log_lem :
      (did bot_class res id : String) (b : BotDoc) (body : Fields) (db : Db tiny)
      → field_of "did" body ≡ some (text did)
      → (did == "") ≡ false
      → bot_view did db ≡ some b
      → b.company ≡ some "eco-ng"
      → b.bot_class ≡ some bot_class
      → b.resource ≡ some res
      → field_of "td" body ≡ some (text "GetCleanLogs")
      → field_of "payload" body ≡ none
      → begin_lg_log (some body) id db ≡ sends (logs_command did bot_class res body) id
  unfolding begin_lg_log
  begin_lg_log_lem did bot_class res id b body db did_is some_did known company_is class_is res_is
        td_is no_payload =
      let (r, r_is, same) = document_of_view did b db known in
      rw (did_is, begin_lg_log)
        (rw (r_is) (
          rw (same) (
            ask_bot_lem did bot_class res id b body some_did company_is class_is res_is td_is
              no_payload)))
