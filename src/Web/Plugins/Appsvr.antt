-- ===== src/Web/Plugins/Appsvr.antt =====
-- bumper/web/plugins/api/appsvr.py
pub mod Status
use bumper.Prelude.{
  ℕ, String, ◌==◌, Bool, true, false, not, ◌||◌, ◌&&◌, Option, none, some, List, [], ◌∷◌,
  if◌then◌else◌,
}
use bumper.Prelude.Exec.{Exec, Result, ok, err, key_error, pure, ◌>>=◌}
use bumper.Prelude.Text.{split}
use package.text.Mathlib.Text.{starts_with}
use bumper.Tiny.{TinyDb}
use bumper.Tiny.Rows.{Document}
use bumper.Db.{Db}
use bumper.Db.Documents.{BotDoc, OauthDoc}
use bumper.Db.Oauths.{LocalClock, Fresh, user_add_oauth}
use bumper.Db.Tokens.{token_by_authcode}
use bumper.Json.{
  Json, Fields, text, number, array, object, fields, items, field_of, set_field, text_of,
}
use bumper.Web.Plugins.{Posted, bot_entries}
use bumper.Xmpp.Auth.{item, or_empty}
use bumper.Xmpp.Xml.{lookup}

-- An entry of the product map, which is a file beside the code.
pub record Product : Type 0 where
  pub classid : String
  pub product : Fields

-- The keys of a device, with the key of the product that each is taken from
abbrev pub product_keys : List (String × String)
product_keys =
    ("UILogicId", "UILogicId")
    ∷ ("ota", "ota")
    ∷ ("icon", "iconUrl")
    ∷ ("model", "model")
    ∷ ("pip", "_id")
    ∷ ("deviceName", "name")
    ∷ ("materialNo", "materialNo")
    ∷ []

-- `none` where the product lacks a key
unfoldable pub copy_keys : List (String × String) → Fields → Fields → Option Fields
copy_keys [] product device = some device
copy_keys ((to, from) ∷ l) product device = elim (field_of from product) [
  | none ↦ none
  | some v ↦ copy_keys l product (set_field to v device)
]

-- The category, from the product's name
unfoldable pub category : Fields → Option Json
category product = elim (field_of "name" product) [
  | none ↦ none
  | some name ↦ elim (text_of name) [
    | none ↦ none
    | some s ↦ some (text (if starts_with s "DEEBOT" then "DEEBOT" else "UNKNOWN"))
  ]
]

-- `bot["mqtt_connection"] or bot["xmpp_connection"]`
unfoldable pub flagged : BotDoc → Option Bool
flagged bot = elim bot.mqtt_connection [
  | none ↦ none
  | some mqtt ↦ if mqtt then some true else bot.xmpp_connection
]

-- A connected session of the broker, given as its client id and its state, that has the did.
unfoldable pub is_session_of : String → String × String → Bool
is_session_of did (client_id, state) =
    or_empty (item 0 (split b'@' client_id)) == did && state == "connected"

unfoldable pub any_session : String → List (String × String) → Bool
unfolding is_session_of
any_session did [] = false
any_session did (session ∷ rest) = is_session_of did session || any_session did rest

-- The status 1 of a session that is found; `bot["did"]` raises where it is missing and there are
-- sessions.
unfoldable pub status_of : BotDoc → List (String × String) → ℕ → Option ℕ
unfolding any_session
status_of bot [] status = some status
status_of bot (session ∷ rest) status = elim bot.did [
  | none ↦ none
  | some did ↦ some (if any_session did (session ∷ rest) then 1 else status)
]

-- What is put into the device for the product that has its class
unfoldable pub with_product : List (String × String) → BotDoc → Fields → Fields → Option Fields
unfolding copy_keys category flagged status_of
with_product sessions bot product device = elim (copy_keys product_keys product device) [
  | none ↦ none
  | some copied ↦ elim (category product) [
    | none ↦ none
    | some kind ↦ elim (flagged bot) [
      | none ↦ none
      | some on ↦ elim (status_of bot sessions (if on then 1 else 0)) [
        | none ↦ none
        | some status ↦
            some (set_field "status" (number status) (set_field "product_category" kind copied))
      ]
    ]
  ]
]

-- `none` where the code raises; a bot of no product stays as it is.
unfoldable pub include_product_iot_map_info :
    List Product → List (String × String) → BotDoc → Option Fields
unfolding with_product bot_entries
include_product_iot_map_info [] sessions bot = some (fields (bot_entries bot))
include_product_iot_map_info (p ∷ rest) sessions bot =
    let more = include_product_iot_map_info rest sessions bot in
    elim bot.bot_class [
      | none ↦ none
      | some bot_class ↦
          if p.classid == bot_class
          then with_product sessions bot p.product (fields (bot_entries bot))
          else more
    ]

-- The devices of the bots that have a class
unfoldable pub devices_of :
    List Product → List (String × String) → List (Document BotDoc) → Option (List Json)
unfolding include_product_iot_map_info
devices_of products sessions [] = some []
devices_of products sessions (bot ∷ rest) =
    let more = devices_of products sessions rest in
    elim bot.fields.bot_class [
      | none ↦ none
      | some bot_class ↦
          if bot_class == ""
          then more
          else elim (include_product_iot_map_info products sessions bot.fields) [
            | none ↦ none
            | some device ↦ elim more [ none ↦ none | some l ↦ some (object device ∷ l) ]
          ]
    ]

abbrev pub devices_body : List Json → Json
devices_body devices = object (
    fields (
      ("code", number 0)
      ∷ ("devices", array (items devices))
      ∷ ("ret", text "ok")
      ∷ ("todo", text "result")
      ∷ []))

abbrev pub codepush_body : Json
codepush_body = object (
    fields (
      ("code", number 0)
      ∷ (
        "data",
        object (
            fields (
              ("extend", object (fields [])) ∷ ("type", text "microsoft") ∷ ("url", text "") ∷ [])),
      )
      ∷ ("ret", text "ok")
      ∷ ("todo", text "result")
      ∷ []))

module _ {tiny : TinyDb} where
  unfoldable pub handle_appsvr_app :
      List Product → List (String × String) → Posted → Db tiny → Result Json
  unfolding devices_of
  handle_appsvr_app products sessions request db =
      if request.method == "GET"
      then ok (object (fields (("result", text "fail") ∷ ("todo", text "result") ∷ [])))
      else elim request.body [
        | none ↦ err key_error
        | some post ↦ elim (lookup "todo" post) [
          | none ↦ err key_error
          | some todo ↦
              if todo == "GetGlobalDeviceList"
              then elim (devices_of products sessions (tiny.all db.bots)) [
                | none ↦ err key_error
                | some devices ↦ ok (devices_body devices)
              ]
              else if todo == "GetCodepush"
              then ok codepush_body
              else err key_error
        ]
      ]

  -- The entry that is handed out for the code of a token; the argument prints it (`toResponse`).
  unfoldable pub handle_appsvr_oauth_callback :
      LocalClock → Fresh → (OauthDoc → Json) → List (String × String) → Exec (Db tiny) Json
  handle_appsvr_oauth_callback clock fresh to_response query db = elim (lookup "code" query) [
    | none ↦ (err key_error, db)
    | some code ↦ elim (token_by_authcode code db) [
      | none ↦ (err key_error, db)
      | some token ↦ elim token.fields.userid [
        | none ↦ (err key_error, db)
        | some userid ↦
            (do
              entry ← user_add_oauth clock fresh userid
              pure (
                  object (
                    fields (
                      ("code", number 0)
                      ∷ ("data", to_response entry)
                      ∷ ("ret", text "ok")
                      ∷ ("todo", text "result")
                      ∷ []))))
              db
      ]
    ]
  ]

unfoldable pub handle_appsvr_service_list : Json
handle_appsvr_service_list = object (
    fields (
      ("code", number 0)
      ∷ (
        "data",
        object (
            fields (
              ("account", text "users-base.ecouser.net")
              ∷ ("jmq", text "jmq-ngiot-eu.ecouser.net")
              ∷ ("lb", text "lbo.ecouser.net")
              ∷ ("magw", text "api-app.ecouser.net")
              ∷ ("msgcloud", text "msg-eu.ecouser.net:5223")
              ∷ ("ngiotLb", text "jmq-ngiot-eu.ecouser.net")
              ∷ ("rop", text "api-rop.ecouser.net")
              ∷ [])),
      )
      ∷ ("ret", text "ok")
      ∷ ("todo", text "result")
      ∷ []))

unfoldable pub handle_appsvr_improve_accept : Json
handle_appsvr_improve_accept = object (fields (("code", number 0) ∷ []))

unfoldable pub handle_appsvr_notice_home : Json
handle_appsvr_notice_home = object (
    fields (
      ("code", number 0)
      ∷ ("data", array (items []))
      ∷ ("ret", text "ok")
      ∷ ("todo", text "result")
      ∷ []))
