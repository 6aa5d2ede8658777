-- ===== src/Web/Plugins/Lg.antt =====
-- bumper/web/plugins/api/lg.py: the cleaning logs that a bot is asked for over MQTT. The handler is cut
-- in two where it waits for the helper bot (`Mqtt.Helper`): what it sends, and what it answers to what
-- `send_command` returns.
pub mod Completed
pub mod Sends
pub mod Logs
mod Tests
use bumper.Prelude.{
  String, ◌==◌, Bool, true, false, Option, none, some, List, [], ◌∷◌, ◌++◌, if◌then◌else◌,
}
use bumper.Tiny.{TinyDb}
use bumper.Tiny.Rows.{Document}
use bumper.Db.{Db}
use bumper.Db.Documents.{BotDoc}
use bumper.Json.{
  Json, Fields, Items, text, array, object, fields, no_items, item_then, field_of, set_field,
  is_text, text_of,
}
use bumper.Web.Plugins.Devmanager.{Decision, answers, sends, dim_error, bot_of, iot_accepts}
use bumper.Xmpp.Xml.{Element, Elements, nil, cons, attrib, children, lookup}

-- `if key not in json_body: json_body[key] = value`
unfoldable pub default_to : String → Json → Fields → Fields
default_to k v body = elim (field_of k body) [ none ↦ set_field k v body | some w ↦ body ]

-- `cmdName`, which stays missing where there is no `td`
unfoldable pub with_name : Fields → Fields
with_name body = elim (field_of "td" body) [ none ↦ body | some td ↦ default_to "cmdName" td body ]

-- The same with a value of the bot, `none` where it is read and missing
unfoldable pub default_from : String → Option String → Fields → Option Fields
default_from k v body = elim (field_of k body) [
  | some w ↦ some body
  | none ↦ elim v [ none ↦ none | some s ↦ some (set_field k (text s) body) ]
]

-- The command `GetCleanLogs` gets its payload here; another stays without one.
unfoldable pub with_payload : Fields → Option Fields
with_payload body = elim (field_of "payload" body) [
  | some payload ↦ some body
  | none ↦ elim (field_of "td" body) [
    | none ↦ none
    | some td ↦
        if is_text "GetCleanLogs" td
        then some
            (set_field "payload" (text "<ctl count=\"30\"/>") (set_field "td" (text "q") body))
        else some body
  ]
]

-- The body with the keys of a command, `none` where an exception is raised
unfoldable pub complete : BotDoc → Json → Fields → Option Fields
complete bot did body =
    elim (default_from "toType" bot.bot_class (default_to "toId" did (with_name body))) [
      | none ↦ none
      | some typed ↦ elim (default_from "toRes" bot.resource typed) [
        | none ↦ none
        | some placed ↦ with_payload (default_to "payloadType" (text "x") placed)
      ]
    ]

-- The attributes of a line of the log
unfoldable pub clean_log : Element → Option Json
clean_log line = elim (lookup "s" (attrib line)) [
  | none ↦ none
  | some ts ↦ elim (lookup "a" (attrib line)) [
    | none ↦ none
    | some area ↦ elim (lookup "l" (attrib line)) [
      | none ↦ none
      | some last ↦ elim (lookup "t" (attrib line)) [
        | none ↦ none
        | some clean_type ↦ some (
            object (
              fields (
                ("ts", text ts)
                ∷ ("area", text area)
                ∷ ("last", text last)
                ∷ ("cleanType", text clean_type)
                ∷ [])))
      ]
    ]
  ]
]

unfoldable pub clean_logs : Elements → Option Items
clean_logs nil = some no_items
clean_logs (cons line lines) =
    let rest = clean_logs lines in
    elim (clean_log line) [
      | none ↦ none
      | some log ↦ elim rest [ none ↦ none | some logs ↦ some (item_then log logs) ]
    ]

abbrev pub logs_answer : Items → Json
logs_answer logs = object (fields (("ret", text "ok") ∷ ("logs", array logs) ∷ []))

-- What the bot's answer says, `none` where an exception is raised
unfoldable pub read_logs : Element → Option Json
read_logs logsroot = elim (lookup "ret" (attrib logsroot)) [
  | none ↦ none
  | some ret ↦
      if ret == "ok"
      then (elim (clean_logs (children logsroot)) [
        | none ↦ none
        | some logs ↦ some (logs_answer logs)
      ])
      else some (logs_answer no_items)
]

abbrev pub resp_of : Json → Option String
resp_of (object d) = elim (field_of "resp" d) [ none ↦ none | some v ↦ text_of v ]
resp_of _ = none

-- The rest of the handler, after `send_command`: `parse` is `ET.fromstring`, `none` where it raises.
unfoldable pub end_lg_log : (String → Option Element) → String → Json → Json
unfolding read_logs
end_lg_log parse id retcmd = elim (resp_of retcmd) [
  | none ↦ dim_error id
  | some resp ↦ elim (parse resp) [
    | none ↦ dim_error id
    | some logsroot ↦ elim (read_logs logsroot) [ none ↦ dim_error id | some body ↦ body ]
  ]
]

-- A known bot, after the test of its did: what a missing key raises is caught, too.
unfoldable pub ask_bot : BotDoc → Json → Fields → String → Decision
unfolding iot_accepts
ask_bot bot did body id = elim (complete bot did body) [
  | none ↦ answers (dim_error id)
  | some cmd ↦ if is_text "" did then answers (dim_error id) else (elim (iot_accepts bot) [
    | none ↦ answers (dim_error id)
    | some accepted ↦ if accepted then sends cmd id else answers (dim_error id)
  ])
]

module _ {tiny : TinyDb} where
  -- The handler until it waits; the body is `none` where it is no JSON object, the text is the random id.
  unfoldable pub begin_lg_log : Option Fields → String → Db tiny → Decision
  unfolding ask_bot
  begin_lg_log none id db = answers (dim_error id)
  begin_lg_log (some body) id db = elim (field_of "did" body) [
    | none ↦ answers (dim_error id)
    | some did ↦ elim (bot_of did db) [
      | none ↦ answers (dim_error id)
      | some bot ↦ ask_bot bot.fields did body id
    ]
  ]
