-- ===== src/Mqtt/Helper.antt =====
-- bumper/mqtt/helper_bot.py: `HelperBot`, which sends a command to a bot over MQTT and waits for the
-- answer with the command's request id. The waiting of `send_command` is cut in two, so that messages
-- and other commands come in between: what it does before it waits, and what it does when it resumes.
pub mod Entries
pub mod Numbers
pub mod Waiting
pub mod Answers
mod Tests
use bumper.Prelude.{
  ℕ, suc, String, ◌==◌, Bool, true, false, Option, none, some, List, [], ◌∷◌, ◌++◌, if◌then◌else◌,
  nat_eq,
}
use bumper.Prelude.Exec.{
  Exec, Result, ok, err, key_error, index_error, pure, need, gets, modify, ◌>>=◌, ◌>>◌,
}
use bumper.Prelude.Text.{split, concat}
use bumper.Json.{Json, Fields, nothing, text, number, object, fields, field_of, is_text}
use bumper.Mqtt.Sessions.{set_entry}
use bumper.Mqtt.Messages.{remove_entry}
use bumper.Xmpp.Auth.{item}

-- `json.dumps`, `str`, and `json.loads`, where `none` raises
pub record HelperEnv : Type 0 where
  pub dumps : Json → String
  pub str : Json → String
  pub loads : String → Option Json

-- `CommandDto`; there is a response as soon as the event is set.
pub record CommandDto : Type 0 where
  pub payload_type : Json
  pub response : Option String

-- `_commands`, from request ids to the objects; the objects, by their number, and the number of the
-- next one; and the messages that were published, as topic and payload.
pub record HelperBot : Type 0 where
  pub commands : List (String × ℕ)
  pub dtos : ℕ → CommandDto
  pub next : ℕ
  pub published : List (String × String)

-- `_commands[request_id]`
unfoldable pub find_command : String → List (String × ℕ) → Option ℕ
find_command k [] = none
find_command k ((j, n) ∷ l) = if j == k then some n else find_command k l

abbrev pub set_dto : ℕ → CommandDto → (ℕ → CommandDto) → ℕ → CommandDto
set_dto n dto dtos i = if nat_eq i n then dto else dtos i

-- `add_response`
unfoldable pub add_response : ℕ → String → HelperBot → HelperBot
add_response n response bot = record bot {
  dtos = set_dto n (record (bot.dtos n) { response = some response }) bot.dtos;
}

-- `_on_message`, whose exceptions are caught: a topic with fewer parts changes nothing.
unfoldable pub on_message : String → String → HelperBot → HelperBot
unfolding find_command add_response
on_message topic payload bot = elim (item 10 (split b'/' topic)) [
  | none ↦ bot
  | some request_id ↦ elim (find_command request_id bot.commands) [
    | none ↦ bot
    | some n ↦ add_response n payload bot
  ]
]

-- `send_command` until it waits: the topic, the payload, the new object under the request id, and the
-- message. It raises where a key of the command is missing.
unfoldable pub command_topic : HelperEnv → Fields → String → Option String
command_topic env cmd request_id = elim (field_of "cmdName" cmd) [
  | none ↦ none
  | some name ↦ elim (field_of "toId" cmd) [
    | none ↦ none
    | some to_id ↦ elim (field_of "toType" cmd) [
      | none ↦ none
      | some to_type ↦ elim (field_of "toRes" cmd) [
        | none ↦ none
        | some to_res ↦ elim (field_of "payloadType" cmd) [
          | none ↦ none
          | some payload_type ↦ some (
              concat (
                "iot/p2p/"
                ∷ env.str name
                ∷ "/helperbot/bumper/helperbot/"
                ∷ env.str to_id
                ∷ "/"
                ∷ env.str to_type
                ∷ "/"
                ∷ env.str to_res
                ∷ "/q/"
                ∷ request_id
                ∷ "/"
                ∷ env.str payload_type
                ∷ []))
        ]
      ]
    ]
  ]
]

-- The new object under the request id, and the message.
unfoldable pub publish_command : String → Json → String → String → HelperBot → HelperBot
unfolding set_entry
publish_command request_id payload_type topic payload bot = record {
  commands = set_entry request_id bot.next bot.commands;
  dtos = set_dto bot.next (record { payload_type = payload_type; response = none }) bot.dtos;
  next = suc bot.next;
  published = bot.published ++ (topic, payload) ∷ [];
}

unfoldable pub begin_command : HelperEnv → Fields → String → Exec HelperBot ℕ
unfolding command_topic publish_command
begin_command env cmd request_id = do
  topic ← need key_error (command_topic env cmd request_id)
  payload_type ← need key_error (field_of "payloadType" cmd)
  payload ← need key_error (field_of "payload" cmd)
  n ← gets (λ bot. bot.next)
  modify (
      publish_command request_id payload_type topic
        (if is_text "j" payload_type then env.dumps payload else env.str payload))
  pure n

abbrev pub fail_answer : String → String → Json
fail_answer request_id debug = object (
    fields (
      ("id", text request_id)
      ∷ ("errno", number 500)
      ∷ ("ret", text "fail")
      ∷ ("debug", text debug)
      ∷ []))

abbrev pub ok_answer : String → Json → Json
ok_answer request_id payload =
    object (fields (("id", text request_id) ∷ ("ret", text "ok") ∷ ("resp", payload) ∷ []))

-- `wait_for_response` of an object that has been given a response: what `json.loads` raises, the caller
-- catches.
unfoldable pub read_response : HelperEnv → CommandDto → Option Json
read_response env dto = elim dto.response [
  | none ↦ none
  | some response ↦
      if is_text "j" dto.payload_type then env.loads response else some (text response)
]

-- `_wait_for_resp` when it resumes: without a response, because the time is over.
unfoldable pub wait_for_resp : HelperEnv → CommandDto → String → Json
unfolding read_response
wait_for_resp env dto request_id = elim (read_response env dto) [
  | none ↦ fail_answer request_id "wait for response timed out"
  | some payload ↦ ok_answer request_id payload
]

-- `finally: self._commands.pop(request_id, None)`
unfoldable pub pop_command : String → HelperBot → HelperBot
unfolding remove_entry
pop_command request_id bot = record bot { commands = remove_entry request_id bot.commands }

-- `send_command` from where it resumes.
unfoldable pub finish_command : HelperEnv → ℕ → String → HelperBot → Json × HelperBot
unfolding wait_for_resp pop_command
finish_command env n request_id bot =
    (wait_for_resp env (bot.dtos n) request_id, pop_command request_id bot)

-- What happens to the helper bot: a command begins, a message comes, the command of an object with a
-- request id resumes, an entry expires.
pub data HelperEvent : Type 0 where
  begins : Fields → String → HelperEvent
  comes : String → String → HelperEvent
  resumes : ℕ → String → HelperEvent
  expires : String → HelperEvent

-- A command that raises is answered at once, and its entry popped as well.
unfoldable pub run_begin : String → Result ℕ × HelperBot → HelperBot
unfolding pop_command
run_begin request_id (ok n, bot) = bot
run_begin request_id (err e, bot) = pop_command request_id bot

unfoldable pub run_event : HelperEnv → HelperEvent → HelperBot → HelperBot
unfolding begin_command run_begin on_message finish_command
run_event env (begins cmd request_id) bot =
    run_begin request_id (begin_command env cmd request_id bot)
run_event env (comes topic payload) bot = on_message topic payload bot
run_event env (resumes n request_id) bot = (finish_command env n request_id bot).1
run_event env (expires request_id) bot = pop_command request_id bot

unfoldable pub run_events : HelperEnv → List HelperEvent → HelperBot → HelperBot
unfolding run_event
run_events env [] bot = bot
run_events env (e ∷ es) bot = run_events env es (run_event env e bot)

abbrev pub new_helper_bot : HelperBot
new_helper_bot = record {
  commands = [];
  dtos = λ n. record { payload_type = nothing; response = none };
  next = 0;
  published = [];
}
