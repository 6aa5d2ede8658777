-- ===== src/Mqtt/Helper/Numbers.antt =====
-- `send_command` of bumper/mqtt/helper_bot.py until it waits, and the numbers that are given out.
use bumper.Prelude.{
  ℕ, suc, ◌≡◌, ◌⊎◌, refl, String, List, [], ◌∷◌, if◌then◌else◌, inl, inr, Option-cases, all_nil,
  all_cons, arith,
}
use bumper.Prelude.Exec.{ok, err, key_error}
use bumper.Prelude.Text.{split}
use bumper.Json.{Json, Fields, field_of, is_text}
use bumper.Mqtt.Helper.{
  HelperEnv, HelperBot, find_command, add_response, on_message, command_topic, publish_command,
  begin_command, pop_command, finish_command, HelperEvent, begins, comes, resumes, expires,
  run_begin, run_event, run_events,
}
use bumper.Xmpp.Auth.{item}
use bumper.Mqtt.Helper.Entries.{AreBelow, All-set_entry, All-remove_entry}

-- What `begin_command` does: it raises before it changes anything, or it publishes the command.
pub begin_cases :
    (env : HelperEnv) (cmd : Fields) (id : String) (bot : HelperBot)
    → (begin_command env cmd id bot ≡ (err key_error, bot))
      ⊎ ((topic : String) × (payload_type : Json) × (payload : String) × (begin_command env cmd id
              bot
            ≡ (ok bot.next, publish_command id payload_type topic payload bot)))
unfolding begin_command
begin_cases env cmd id bot = elim (Option-cases (command_topic env cmd id)) [
  | inl h ↦ inl (rw (h, begin_command) refl)
  | inr (topic, h) ↦ elim (Option-cases (field_of "payloadType" cmd)) [
    | inl h1 ↦ inl (rw (h, begin_command) (rw (h1) refl))
    | inr (payload_type, h1) ↦ elim (Option-cases (field_of "payload" cmd)) [
      | inl h2 ↦ inl (rw (h, begin_command) (rw (h1) (rw (h2) refl)))
      | inr (payload, h2) ↦ inr (
        topic,
        payload_type,
        (if is_text "j" payload_type then env.dumps payload else env.str payload),
        rw (h, begin_command) (rw (h1) (rw (h2) refl)),
      )
    ]
  ]
]

-- Every number that was given out is below the next one.
pop-AreBelow :
    (k : String) (bot : HelperBot)
    → AreBelow bot.next bot.commands
    → AreBelow (pop_command k bot).next (pop_command k bot).commands
unfolding pop_command
pop-AreBelow k bot below = All-remove_entry _ k bot.commands below

publish-AreBelow :
    (k topic payload : String) (payload_type : Json) (bot : HelperBot)
    → AreBelow bot.next bot.commands
    → AreBelow (suc bot.next) (publish_command k payload_type topic payload bot).commands
unfolding publish_command
publish-AreBelow k topic payload payload_type bot below =
    All-set_entry _ k bot.next bot.commands (omega arith) (weaker bot.commands below)
  where
    weaker : (l : List (String × ℕ)) → AreBelow bot.next l → AreBelow (suc bot.next) l
    weaker [] all_nil = all_nil
    weaker (e ∷ l) (all_cons p rest) = all_cons (omega (arith, p)) (weaker l rest)

message-AreBelow :
    (topic payload : String) (bot : HelperBot)
    → AreBelow bot.next bot.commands
    → AreBelow (on_message topic payload bot).next (on_message topic payload bot).commands
unfolding on_message add_response
message-AreBelow topic payload bot below = elim (Option-cases (item 10 (split b'/' topic))) [
  | inl h ↦ rw (h, on_message) below
  | inr (k, h) ↦ elim (Option-cases (find_command k bot.commands)) [
    | inl h1 ↦ rw (h, on_message) (rw (h1) below)
    | inr (m, h1) ↦ rw (h, on_message) (rw (h1) below)
  ]
]

event-AreBelow :
    (env : HelperEnv) (e : HelperEvent) (bot : HelperBot)
    → AreBelow bot.next bot.commands
    → AreBelow (run_event env e bot).next (run_event env e bot).commands
unfolding run_event run_begin finish_command publish_command
event-AreBelow env (comes topic payload) bot below = message-AreBelow topic payload bot below
event-AreBelow env (resumes m k) bot below = pop-AreBelow k bot below
event-AreBelow env (expires k) bot below = pop-AreBelow k bot below
event-AreBelow env (begins cmd k) bot below = elim (begin_cases env cmd k bot) [
  | inl h ↦ rw h (pop-AreBelow k bot below)
  | inr (topic, payload_type, payload, h) ↦
      rw h (publish-AreBelow k topic payload payload_type bot below)
]

pub events-AreBelow :
    (env : HelperEnv) (es : List HelperEvent) (bot : HelperBot)
    → AreBelow bot.next bot.commands
    → AreBelow (run_events env es bot).next (run_events env es bot).commands
unfolding run_events
events-AreBelow env [] bot below = below
events-AreBelow env (e ∷ es) bot below =
    events-AreBelow env es (run_event env e bot) (event-AreBelow env e bot below)
