-- ===== src/Mqtt/Helper/Waiting.antt =====
-- What stays, while a command of bumper/mqtt/helper_bot.py waits.
use bumper.Prelude.{
  ℕ, ◌<◌, ◌≡◌, ◌∙◌, refl, sym, subst, String, ◌==◌, Bool, true, false, Option, none, some, List, [],
  ◌∷◌, if◌then◌else◌, inl, inr, Bool-cases, Option-cases, All, all_nil, all_cons, arith, eq_iff,
  eq_refl,
}
use bumper.Prelude.Text.{split}
use bumper.Json.{Json}
use bumper.Mqtt.Helper.{
  HelperEnv, HelperBot, find_command, add_response, on_message, publish_command, pop_command,
  finish_command, HelperEvent, begins, comes, resumes, expires, run_begin, run_event, run_events,
}
use bumper.Xmpp.Auth.{item}
use bumper.Mqtt.Helper.Entries.{
  nat_eq_refl, nat_eq_below, nat_eq_comm, IsAlone, AreBelow, All-set_entry, All-remove_entry,
  find_command-set_entry, find_command-set_other, find_command-remove_other, find_alone,
}
use bumper.Mqtt.Helper.Numbers.{begin_cases}

-- What happens under a request id, other than that messages come.
abbrev pub touches : String → HelperEvent → Bool
touches id (begins cmd k) = k == id
touches id (comes topic payload) = false
touches id (resumes n k) = k == id
touches id (expires k) = k == id

-- The response after an event: the payload of a message whose topic has the request id.
unfoldable pub response_after : String → HelperEvent → Option String → Option String
response_after id (comes topic payload) r = elim (item 10 (split b'/' topic)) [
  | none ↦ r
  | some k ↦ if k == id then some payload else r
]
response_after id (begins cmd k) r = r
response_after id (resumes n k) r = r
response_after id (expires k) r = r

-- The payload of the last such message.
unfoldable pub last_response : String → List HelperEvent → Option String → Option String
unfolding response_after
last_response id [] r = r
last_response id (e ∷ es) r = last_response id es (response_after id e r)

-- While a command waits under a request id, with the number and the response so far.
pub record IsWaiting (id : String) (n : ℕ) (payload_type : Json) (r : Option String)
    (bot : HelperBot) : Type 0 where
  pub entry : find_command id bot.commands ≡ some n
  pub object_is : bot.dtos n ≡ record { payload_type = payload_type; response = r }
  pub below : n < bot.next
  pub alone : IsAlone id n bot.commands

pop-IsWaiting :
    (id k : String) (n : ℕ) (payload_type : Json) (r : Option String) (bot : HelperBot)
    → (k == id) ≡ false
    → IsWaiting id n payload_type r bot
    → IsWaiting id n payload_type r (pop_command k bot)
unfolding pop_command
pop-IsWaiting id k n payload_type r bot other waits = record {
  entry = find_command-remove_other id k bot.commands other ∙ waits.entry;
  object_is = waits.object_is;
  below = waits.below;
  alone = All-remove_entry _ k bot.commands waits.alone;
}

publish-IsWaiting :
    (id k : String) (n : ℕ) (payload_type : Json) (r : Option String) (bot : HelperBot)
    (other_type : Json) (topic payload : String)
    → (k == id) ≡ false
    → IsWaiting id n payload_type r bot
    → IsWaiting id n payload_type r (publish_command k other_type topic payload bot)
unfolding publish_command
publish-IsWaiting id k n payload_type r bot other_type topic payload other waits = record {
  entry = find_command-set_other id k bot.next bot.commands other ∙ waits.entry;
  object_is = rw ((nat_eq_below n bot.next waits.below).0) waits.object_is;
  below = omega (arith, waits.below);
  alone =
      All-set_entry _ k bot.next bot.commands (inr (nat_eq_below n bot.next waits.below).1)
        waits.alone;
}

message-IsWaiting :
    (id : String) (n : ℕ) (payload_type : Json) (r : Option String) (topic payload : String)
    (bot : HelperBot)
    → IsWaiting id n payload_type r bot
    → IsWaiting id n payload_type
        (response_after id (comes topic payload) r)
        (on_message topic payload bot)
unfolding on_message add_response response_after
message-IsWaiting id n payload_type r topic payload bot waits =
    elim (Option-cases (item 10 (split b'/' topic))) [
      | inl h ↦ rw (h, on_message, response_after) waits
      | inr (k, h) ↦ elim (Bool-cases (k == id)) [
        | inl same ↦
            rw (h, on_message, response_after)
              (rw (same, found k same)
                (record {
                  entry = waits.entry;
                  object_is = rw (nat_eq_refl n, waits.object_is) refl;
                  below = waits.below;
                  alone = waits.alone;
                }))
        | inr other ↦ elim (Option-cases (find_command k bot.commands)) [
          | inl h1 ↦ rw (h, on_message, response_after) (rw (h1, other) waits)
          | inr (m, h1) ↦
              rw (h, on_message, response_after)
                (rw (h1, other)
                  (record {
                    entry = waits.entry;
                    object_is =
                        rw (nat_eq_comm m n (find_alone id k n m bot.commands waits.alone other h1))
                          waits.object_is;
                    below = waits.below;
                    alone = waits.alone;
                  }))
        ]
      ]
    ]
  where
    found : (k : String) → (k == id) ≡ true → find_command k bot.commands ≡ some n
    found k same =
        subst (λ x. find_command x bot.commands ≡ some n) (sym ((eq_iff k id).0 same)) waits.entry

event-IsWaiting :
    (env : HelperEnv) (id : String) (n : ℕ) (payload_type : Json) (r : Option String)
    (e : HelperEvent) (bot : HelperBot)
    → touches id e ≡ false
    → IsWaiting id n payload_type r bot
    → IsWaiting id n payload_type (response_after id e r) (run_event env e bot)
unfolding run_event run_begin finish_command response_after
event-IsWaiting env id n payload_type r (comes topic payload) bot other waits =
    message-IsWaiting id n payload_type r topic payload bot waits
event-IsWaiting env id n payload_type r (resumes m k) bot other waits =
    pop-IsWaiting id k n payload_type r bot other waits
event-IsWaiting env id n payload_type r (expires k) bot other waits =
    pop-IsWaiting id k n payload_type r bot other waits
event-IsWaiting env id n payload_type r (begins cmd k) bot other waits =
    elim (begin_cases env cmd k bot) [
      | inl h ↦ rw h (pop-IsWaiting id k n payload_type r bot other waits)
      | inr (topic, other_type, payload, h) ↦
          rw h (publish-IsWaiting id k n payload_type r bot other_type topic payload other waits)
    ]

pub events-IsWaiting :
    (env : HelperEnv) (id : String) (n : ℕ) (payload_type : Json) (r : Option String)
    (es : List HelperEvent) (bot : HelperBot)
    → All (λ e. touches id e ≡ false) es
    → IsWaiting id n payload_type r bot
    → IsWaiting id n payload_type (last_response id es r) (run_events env es bot)
unfolding run_events last_response
events-IsWaiting env id n payload_type r [] bot all_nil waits = waits
events-IsWaiting env id n payload_type r (e ∷ es) bot (all_cons other rest) waits =
    events-IsWaiting env id n payload_type (response_after id e r) es (run_event env e bot) rest
      (event-IsWaiting env id n payload_type r e bot other waits)

pub begun-IsWaiting :
    (id topic payload : String) (payload_type : Json) (bot : HelperBot)
    → AreBelow bot.next bot.commands
    → IsWaiting id bot.next payload_type none (publish_command id payload_type topic payload bot)
unfolding publish_command
begun-IsWaiting id topic payload payload_type bot below = record {
  entry = find_command-set_entry id bot.next bot.commands;
  object_is = rw (nat_eq_refl bot.next) refl;
  below = omega arith;
  alone = All-set_entry _ id bot.next bot.commands (inl (eq_refl id)) (others bot.commands below);
}
  where
    others : (l : List (String × ℕ)) → AreBelow bot.next l → IsAlone id bot.next l
    others [] all_nil = all_nil
    others (e ∷ l) (all_cons p rest) =
        all_cons (inr (nat_eq_below e.1 bot.next p).0) (others l rest)
