-- ===== src/Mqtt/Helper/Tests.antt =====
-- The theorem about the helper bot at a concrete input.
use bumper.Prelude.{
  ◌≡◌, refl, String, none, some, List, [], ◌∷◌, ◌++◌, if◌then◌else◌, all_nil, all_cons,
}
use bumper.Prelude.Exec.{ok}
use bumper.Prelude.Text.{concat}
use bumper.Json.{Fields, text, object, fields, field_of, is_text}
use bumper.Mqtt.Helper.{
  HelperEnv, HelperEvent, begins, comes, expires, command_topic, begin_command, wait_for_resp,
  finish_command, find_command, run_events, new_helper_bot,
}
use bumper.Mqtt.Helper.Answers.{send_command_lem}
use bumper.Mqtt.Helper.Waiting.{last_response}

abbrev helper_env : HelperEnv
helper_env = record {
  dumps = λ v. "{}";
  str = λ v. elim v [ text s ↦ s | _ ↦ "" ];
  loads = λ s. some (text s);
}

abbrev battery : Fields
battery = fields (
    ("cmdName", text "GetBattery")
    ∷ ("toId", text "did-1")
    ∷ ("toType", text "cls")
    ∷ ("toRes", text "res")
    ∷ ("payloadType", text "j")
    ∷ ("payload", object (fields []))
    ∷ [])

abbrev battery_topic : String
battery_topic = "iot/p2p/GetBattery/helperbot/bumper/helperbot/did-1/cls/res/q/AbCd/j"

abbrev earlier : List HelperEvent
earlier = begins battery "AbCd" ∷ expires "AbCd" ∷ []

abbrev meanwhile : List HelperEvent
meanwhile =
    begins battery "EfGh"
    ∷ comes "iot/p2p/GetBattery/did-1/cls/res/helperbot/bumper/helperbot/p/AbCd/j" "80"
    ∷ []

send_command_lem_example :
    (let bot = run_events helper_env earlier new_helper_bot in
      let begun = begin_command helper_env battery "AbCd" bot in
      let end =
        finish_command helper_env bot.next "AbCd" (run_events helper_env meanwhile begun.1) in
      (begun.0 ≡ ok bot.next)
      × (begun.1.published
          ≡ bot.published
            ++ (
              battery_topic,
              if is_text "j" (text "j")
                  then helper_env.dumps (object (fields []))
                  else helper_env.str (object (fields [])),
            )
              ∷ [])
      × (end.0
          ≡ wait_for_resp helper_env
              (record { payload_type = text "j"; response = last_response "AbCd" meanwhile none })
              "AbCd")
      × (find_command "AbCd" end.1.commands ≡ none))
unfolding command_topic fields field_of concat
send_command_lem_example =
    send_command_lem helper_env earlier meanwhile battery "AbCd" battery_topic (text "j")
      (object (fields [])) refl refl refl (all_cons refl (all_cons refl all_nil))
