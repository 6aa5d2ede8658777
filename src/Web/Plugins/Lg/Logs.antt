-- ===== src/Web/Plugins/Lg/Logs.antt =====
-- The cleaning logs that bumper/web/plugins/api/lg.py answers, from the request to the bot's answer.
use bumper.Prelude.{
  ◌≡◌, refl, String, ◌==◌, false, Option, none, some, List, [], ◌∷◌, ◌++◌, All, ◌∙◌, ap,
}
use bumper.Tiny.{TinyDb}
use bumper.Db.{Db}
use bumper.Db.Documents.{BotDoc}
use bumper.Db.Bots.Views.{bot_view}
use bumper.Json.{Json, Fields, text, object, fields, items, field_of, is_text}
use bumper.Mqtt.Helper.{
  HelperEnv, HelperEvent, begin_command, finish_command, run_events, new_helper_bot, wait_for_resp,
  read_response,
}
use bumper.Mqtt.Helper.Answers.{send_command_lem}
use bumper.Mqtt.Helper.Waiting.{touches, last_response}
use bumper.Web.Plugins.Devmanager.{sends}
use bumper.Web.Plugins.Lg.{clean_log, clean_logs, logs_answer, read_logs, end_lg_log, begin_lg_log}
use bumper.Web.Plugins.Lg.Completed.{given, count, logs_command}
use bumper.Web.Plugins.Lg.Sends.{
  logs_topic, command_topic-logs_command, logs_payload, logs_payload_type, begin_lg_log_lem,
}
use bumper.Xmpp.Xml.{Element, Elements, nil, cons, attrib, children, lookup}

-- A cleaning: its start, its area, how long it lasted and its kind.
pub record Cleaning : Type 0 where
  pub ts : String
  pub area : String
  pub last : String
  pub clean_type : String

-- An element has the attributes of a cleaning.
pub record IsLogOf (c : Cleaning) (line : Element) : Type 0 where
  pub s : lookup "s" (attrib line) ≡ some c.ts
  pub a : lookup "a" (attrib line) ≡ some c.area
  pub l : lookup "l" (attrib line) ≡ some c.last
  pub t : lookup "t" (attrib line) ≡ some c.clean_type

-- The elements are those of the cleanings, in order.
pub data AreLogsOf : List Cleaning → Elements → Type 0 where
  no_logs : AreLogsOf [] nil
  log_then :
      {c : Cleaning} {cs : List Cleaning} {line : Element} {lines : Elements}
      → IsLogOf c line
      → AreLogsOf cs lines
      → AreLogsOf (c ∷ cs) (cons line lines)

abbrev pub cleaning_json : Cleaning → Json
cleaning_json c = object (
    fields (
      ("ts", text c.ts)
      ∷ ("area", text c.area)
      ∷ ("last", text c.last)
      ∷ ("cleanType", text c.clean_type)
      ∷ []))

unfoldable pub cleaning_jsons : List Cleaning → List Json
cleaning_jsons [] = []
cleaning_jsons (c ∷ cs) = cleaning_json c ∷ cleaning_jsons cs

clean_log_lem :
    (c : Cleaning) (line : Element) → IsLogOf c line → clean_log line ≡ some (cleaning_json c)
unfolding clean_log
clean_log_lem c line h = rw (h.s, h.a, h.l, h.t, clean_log) refl

clean_logs_lem :
    (cs : List Cleaning) (lines : Elements)
    → AreLogsOf cs lines
    → clean_logs lines ≡ some (items (cleaning_jsons cs))
unfolding clean_logs cleaning_jsons items
clean_logs_lem [] nil no_logs = refl
clean_logs_lem [] (cons line lines) logs = elim logs [ ]
clean_logs_lem (c ∷ cs) nil logs = elim logs [ ]
clean_logs_lem (c ∷ cs) (cons line lines) (log_then h rest) =
    rw (clean_log_lem c line h, clean_logs_lem cs lines rest, clean_logs) refl

read_logs_lem :
    (cs : List Cleaning) (logsroot : Element)
    → lookup "ret" (attrib logsroot) ≡ some "ok"
    → AreLogsOf cs (children logsroot)
    → read_logs logsroot ≡ some (logs_answer (items (cleaning_jsons cs)))
unfolding read_logs
read_logs_lem cs logsroot ret_is logs =
    rw (ret_is, read_logs) (rw (clean_logs_lem cs (children logsroot) logs) refl)

end_lg_log_lem :
    (env : HelperEnv) (parse : String → Option Element) (id xml : String) (payload_type : Json)
    (cs : List Cleaning) (logsroot : Element)
    → is_text "j" payload_type ≡ false
    → parse xml ≡ some logsroot
    → lookup "ret" (attrib logsroot) ≡ some "ok"
    → AreLogsOf cs (children logsroot)
    → end_lg_log parse id
        (wait_for_resp env (record { payload_type = payload_type; response = some xml }) id)
      ≡ logs_answer (items (cleaning_jsons cs))
unfolding end_lg_log wait_for_resp read_response fields field_of
end_lg_log_lem env parse id xml payload_type cs logsroot type_is root_is ret_is logs =
    rw (type_is, wait_for_resp, read_response)
      (rw (root_is) (rw (read_logs_lem cs logsroot ret_is logs) refl))

-- A request for the cleaning logs that has no payload and a payload type other than "j", for a known
-- bot of "eco-ng", whatever has happened to the helper bot before: the command is sent, with the
-- values of the request or of the bot in the topic and the count of logs as payload; and if none but
-- messages has its request id while it waits, and the last message whose topic has the id is an XML
-- answer "ok", the handler answers the cleanings in it, in order.
pub lg_log_lem :
    {tiny : TinyDb} (env : HelperEnv) (parse : String → Option Element)
    (did bot_class res id xml : String) (b : BotDoc) (body : Fields) (db : Db tiny)
    (before during : List HelperEvent) (cs : List Cleaning) (logsroot : Element)
    → field_of "did" body ≡ some (text did)
    → (did == "") ≡ false
    → bot_view did db ≡ some b
    → b.company ≡ some "eco-ng"
    → b.bot_class ≡ some bot_class
    → b.resource ≡ some res
    → field_of "td" body ≡ some (text "GetCleanLogs")
    → field_of "payload" body ≡ none
    → is_text "j" (given "payloadType" (text "x") body) ≡ false
    → All (λ e. touches id e ≡ false) during
    → last_response id during none ≡ some xml
    → parse xml ≡ some logsroot
    → lookup "ret" (attrib logsroot) ≡ some "ok"
    → AreLogsOf cs (children logsroot)
    → (let cmd = logs_command did bot_class res body in
        let bot = run_events env before new_helper_bot in
        let begun = begin_command env cmd id bot in
        let end = finish_command env bot.next id (run_events env during begun.1) in
        (begin_lg_log (some body) id db ≡ sends cmd id)
        × (begun.1.published
            ≡ bot.published ++ (logs_topic env did bot_class res body id, env.str count) ∷ [])
        × (end_lg_log parse id end.0 ≡ logs_answer (items (cleaning_jsons cs))))
lg_log_lem env parse did bot_class res id xml b body db before during cs logsroot did_is some_did
      known company_is class_is res_is td_is no_payload type_is others last_is root_is ret_is logs =
    let (begins, published, answered, popped) =
      send_command_lem env before during (logs_command did bot_class res body) id
        (logs_topic env did bot_class res body id) (given "payloadType" (text "x") body) count
        (command_topic-logs_command env did bot_class res id body)
        (logs_payload_type did bot_class res body) (logs_payload did bot_class res body) others in
    (
      begin_lg_log_lem did bot_class res id b body db did_is some_did known company_is class_is
          res_is td_is no_payload,
      published ∙ rw (type_is) refl,
      ap (end_lg_log parse id) answered
          ∙ rw (last_is) (
              end_lg_log_lem env parse id xml (given "payloadType" (text "x") body) cs logsroot
                type_is root_is ret_is logs),
    )
