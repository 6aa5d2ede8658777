-- ===== src/Mqtt/Helper/Answers.antt =====
-- What a command of bumper/mqtt/helper_bot.py is answered, whatever happens while it waits.
use bumper.Prelude.{
  ◌≡◌, refl, String, false, none, some, List, [], ◌∷◌, ◌++◌, if◌then◌else◌, All, all_nil,
}
use bumper.Prelude.Exec.{ok}
use bumper.Json.{Json, Fields, field_of, is_text}
use bumper.Mqtt.Helper.{
  HelperEnv, HelperBot, find_command, command_topic, publish_command, begin_command, wait_for_resp,
  pop_command, finish_command, HelperEvent, run_events, new_helper_bot,
}
use bumper.Mqtt.Helper.Entries.{find_command-remove_entry}
use bumper.Mqtt.Helper.Numbers.{events-AreBelow}
use bumper.Mqtt.Helper.Waiting.{
  touches, last_response, IsWaiting, events-IsWaiting, begun-IsWaiting,
}

-- Whatever has happened to the helper bot since it was made: a command that has the keys that are read
-- begins and is published to its topic, and if it then resumes after events of which none but messages
-- has its request id, it is answered with the last message whose topic has the id, else with the
-- answer that the time is over; its entry is gone.
pub send_command_lem :
    (env : HelperEnv) (before during : List HelperEvent) (cmd : Fields) (id topic : String)
    (payload_type payload : Json)
    → command_topic env cmd id ≡ some topic
    → field_of "payloadType" cmd ≡ some payload_type
    → field_of "payload" cmd ≡ some payload
    → All (λ e. touches id e ≡ false) during
    → (let bot = run_events env before new_helper_bot in
        let begun = begin_command env cmd id bot in
        let end = finish_command env bot.next id (run_events env during begun.1) in
        (begun.0 ≡ ok bot.next)
        × (begun.1.published
            ≡ bot.published
              ++ (topic, if is_text "j" payload_type then env.dumps payload else env.str payload)
                ∷ [])
        × (end.0
            ≡ wait_for_resp env
                (record { payload_type = payload_type; response = last_response id during none })
                id)
        × (find_command id end.1.commands ≡ none))
unfolding begin_command finish_command pop_command publish_command
send_command_lem env before during cmd id topic payload_type payload topic_is type_is payload_is
      others =
    rw (topic_is, begin_command)
      (rw (type_is) (
        rw (payload_is) (
          refl,
          refl,
          rw (waits.object_is) refl,
          find_command-remove_entry id (run_events env during begun).commands,
        )))
  where
    bot : HelperBot
    bot = run_events env before new_helper_bot

    begun : HelperBot
    begun =
        publish_command id payload_type topic
          (if is_text "j" payload_type then env.dumps payload else env.str payload) bot

    waits :
        IsWaiting id bot.next payload_type
          (last_response id during none)
          (run_events env during begun)
    waits = events-IsWaiting env id bot.next payload_type none during begun others (
        begun-IsWaiting id topic
          (if is_text "j" payload_type then env.dumps payload else env.str payload) payload_type bot
          (events-AreBelow env before new_helper_bot all_nil))
