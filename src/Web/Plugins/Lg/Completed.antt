-- ===== src/Web/Plugins/Lg/Completed.antt =====
-- How bumper/web/plugins/api/lg.py completes a request for the cleaning logs to a command.
use bumper.Prelude.{◌≡◌, refl, String, ◌==◌, false, Option, none, some, inl, inr, Option-cases, ◌∙◌}
use bumper.Db.Documents.{BotDoc}
use bumper.Json.{Json, Fields, text, field_of, set_field}
use bumper.Json.Laws.{field_of-set_field, field_of-set_other}
use bumper.Web.Plugins.Lg.{default_to, default_from, with_name, with_payload, complete}

-- The value of a key, with a default
abbrev pub or_value : Json → Option Json → Json
or_value v none = v
or_value v (some w) = w

abbrev pub given : String → Json → Fields → Json
given k v body = or_value v (field_of k body)

pub field_of-default_to :
    (k : String) (v : Json) (d : Fields) → field_of k (default_to k v d) ≡ some (given k v d)
unfolding default_to
field_of-default_to k v d = elim (Option-cases (field_of k d)) [
  | inl h ↦ rw (h, default_to) (field_of-set_field k v d)
  | inr (w, h) ↦ rw (h, default_to) h
]

pub field_of-default_other :
    (i k : String) (v : Json) (d : Fields)
    → (k == i) ≡ false
    → field_of i (default_to k v d) ≡ field_of i d
unfolding default_to
field_of-default_other i k v d other = elim (Option-cases (field_of k d)) [
  | inl h ↦ rw (h, default_to) (field_of-set_other i k v d other)
  | inr (w, h) ↦ rw (h, default_to) refl
]

default_from-some :
    (k s : String) (d : Fields) → default_from k (some s) d ≡ some (default_to k (text s) d)
unfolding default_to default_from
default_from-some k s d = elim (Option-cases (field_of k d)) [
  | inl h ↦ rw (h, default_to, default_from) refl
  | inr (w, h) ↦ rw (h, default_to, default_from) refl
]

abbrev pub count : Json
count = text "<ctl count=\"30\"/>"

-- The body with every key but the last two
abbrev pub filled : String → String → String → Fields → Fields
filled did bot_class res body = default_to "payloadType" (text "x") (
    default_to "toRes" (text res) (
      default_to "toType" (text bot_class)
        (default_to "toId" (text did) (default_to "cmdName" (text "GetCleanLogs") body))))

abbrev pub logs_command : String → String → String → Fields → Fields
logs_command did bot_class res body =
    set_field "payload" count (set_field "td" (text "q") (filled did bot_class res body))

filled_other :
    (i did bot_class res : String) (body : Fields)
    → ("cmdName" == i) ≡ false
    → ("toId" == i) ≡ false
    → ("toType" == i) ≡ false
    → ("toRes" == i) ≡ false
    → ("payloadType" == i) ≡ false
    → field_of i (filled did bot_class res body) ≡ field_of i body
filled_other i did bot_class res body a b c d e =
    rw
      (
        field_of-default_other i "payloadType" (text "x") _ e,
        field_of-default_other i "toRes" (text res) _ d,
        field_of-default_other i "toType" (text bot_class) _ c,
        field_of-default_other i "toId" (text did) _ b,
        field_of-default_other i "cmdName" (text "GetCleanLogs") body a,
      )
      refl

with_name_lem :
    (td : Json) (body : Fields)
    → field_of "td" body ≡ some td
    → with_name body ≡ default_to "cmdName" td body
unfolding with_name
with_name_lem td body h = rw (h, with_name) refl

with_payload_lem :
    (body : Fields)
    → field_of "td" body ≡ some (text "GetCleanLogs")
    → field_of "payload" body ≡ none
    → with_payload body ≡ some (set_field "payload" count (set_field "td" (text "q") body))
unfolding with_payload
with_payload_lem body td_is no_payload = rw (no_payload, with_payload) (rw (td_is) refl)

pub complete_lem :
    (did bot_class res : String) (b : BotDoc) (body : Fields)
    → b.bot_class ≡ some bot_class
    → b.resource ≡ some res
    → field_of "td" body ≡ some (text "GetCleanLogs")
    → field_of "payload" body ≡ none
    → complete b (text did) body ≡ some (logs_command did bot_class res body)
unfolding complete
complete_lem did bot_class res b body class_is res_is td_is no_payload =
    rw
      (
        with_name_lem (text "GetCleanLogs") body td_is,
        class_is,
        default_from-some "toType" bot_class _,
        complete,
      )
      (rw (res_is, default_from-some "toRes" res _)
        (with_payload_lem (filled did bot_class res body)
          (filled_other "td" did bot_class res body refl refl refl refl refl ∙ td_is)
          (filled_other "payload" did bot_class res body refl refl refl refl refl ∙ no_payload)))
