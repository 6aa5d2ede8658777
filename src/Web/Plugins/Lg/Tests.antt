-- ===== src/Web/Plugins/Lg/Tests.antt =====
-- The theorem about the cleaning logs at a concrete input, over the tables of `Tiny/Slots.antt`.
use bumper.Prelude.{◌≡◌, refl, none, some, List, [], ◌∷◌, ◌++◌, all_nil, all_cons}
use bumper.Tiny.Slots.{slots, rows_from, slot_insert, slot_upsert}
use bumper.Tiny.Rows.{any_match, first}
use bumper.Db.{Db, empty_db}
use bumper.Db.Bots.{bot_add, bot_get, is_acceptable}
use bumper.Db.Bots.Views.{bot_view}
use bumper.Db.Documents.{BotDoc, bot_asdict}
use bumper.Json.{Fields, text, fields, items, field_of}
use bumper.Mqtt.Helper.{
  HelperEnv, HelperEvent, begins, comes, expires, begin_command, finish_command, run_events,
  new_helper_bot,
}
use bumper.Mqtt.Helper.Waiting.{last_response}
use bumper.Prelude.Text.{split}
use bumper.Web.Plugins.Devmanager.{sends}
use bumper.Web.Plugins.Lg.{begin_lg_log, end_lg_log, logs_answer}
use bumper.Web.Plugins.Lg.Completed.{count, logs_command}
use bumper.Web.Plugins.Lg.Sends.{logs_topic}
use bumper.Web.Plugins.Lg.Logs.{Cleaning, no_logs, log_then, cleaning_jsons, lg_log_lem}
use bumper.Xmpp.Xml.{Element, element, nil, cons, lookup}

abbrev helper_env : HelperEnv
helper_env = record {
  dumps = λ v. "{}";
  str = λ v. elim v [ text s ↦ s | _ ↦ "" ];
  loads = λ s. some (text s);
}

abbrev bot : BotDoc
bot = bot_asdict "sn-1" "did-1" "cls" "res" "eco-ng"

abbrev stored : Db slots
stored = bot_add "sn-1" "did-1" "cls" "res" "eco-ng" (empty_db slots)

abbrev request : Fields
request = fields (("did", text "did-1") ∷ ("td", text "GetCleanLogs") ∷ [])

abbrev line : Element
line =
    element "CleanSt" (("a", "12") ∷ ("s", "1700000000") ∷ ("l", "600") ∷ ("t", "a") ∷ []) none nil

abbrev answer : Element
answer = element "ctl" (("ret", "ok") ∷ []) none (cons line nil)

abbrev cleaning : Cleaning
cleaning = record { ts = "1700000000"; area = "12"; last = "600"; clean_type = "a" }

abbrev earlier : List HelperEvent
earlier = begins request "AbCd" ∷ expires "AbCd" ∷ []

abbrev meanwhile : List HelperEvent
meanwhile =
    comes "iot/p2p/GetCleanLogs/did-1/cls/res/helperbot/bumper/helperbot/p/AbCd/x" "<ctl/>" ∷ []

lg_log_lem_example :
    (let cmd = logs_command "did-1" "cls" "res" request in
      let bot = run_events helper_env earlier new_helper_bot in
      let begun = begin_command helper_env cmd "AbCd" bot in
      let end =
        finish_command helper_env bot.next "AbCd" (run_events helper_env meanwhile begun.1) in
      (begin_lg_log (some request) "AbCd" stored ≡ sends cmd "AbCd")
      × (begun.1.published
          ≡ bot.published
            ++ (logs_topic helper_env "did-1" "cls" "res" request "AbCd", helper_env.str count)
              ∷ [])
      × (end_lg_log (λ xml. some answer) "AbCd" end.0
          ≡ logs_answer (items (cleaning_jsons (cleaning ∷ [])))))
unfolding fields field_of lookup bot_view bot_get first rows_from bot_add is_acceptable slot_upsert
    any_match slot_insert last_response split
lg_log_lem_example =
    lg_log_lem helper_env (λ xml. some answer) "did-1" "cls" "res" "AbCd" "<ctl/>" bot request
      stored earlier meanwhile (cleaning ∷ []) answer refl refl refl refl refl refl refl refl refl
      (all_cons refl all_nil) refl refl refl
      (log_then (record { s = refl; a = refl; l = refl; t = refl }) no_logs)
