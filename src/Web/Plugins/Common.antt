-- ===== src/Web/Plugins/Common.antt =====
-- bumper/web/plugins/v1/private/common.py, message.py and user_setting.py
use bumper.Prelude.{ℕ, String, none, some, List, [], ◌∷◌, map}
use bumper.Prelude.Exec.{Result, ok, err, key_error}
use bumper.Prelude.Text.{split, concat}
use bumper.Json.{Json, nothing, text, number, array, object, fields, items}
use bumper.Web.Plugins.{get_success_response}
use bumper.Xmpp.Xml.{lookup}

unfoldable pub handle_check_version : ℕ → Json
handle_check_version now = get_success_response now (
    object (
      fields (
        ("c", nothing)
        ∷ ("img", nothing)
        ∷ ("r", number 0)
        ∷ ("t", nothing)
        ∷ ("u", nothing)
        ∷ ("ut", number 0)
        ∷ ("v", nothing)
        ∷ [])))

unfoldable pub handle_check_app_version : ℕ → Json
handle_check_app_version now = get_success_response now (
    object (
      fields (
        ("c", nothing)
        ∷ ("downPageUrl", nothing)
        ∷ ("img", nothing)
        ∷ ("nextAlertTime", nothing)
        ∷ ("r", number 0)
        ∷ ("t", nothing)
        ∷ ("u", nothing)
        ∷ ("ut", number 0)
        ∷ ("v", nothing)
        ∷ [])))

unfoldable pub handle_upload_device_info : ℕ → Json
handle_upload_device_info now = get_success_response now nothing

unfoldable pub handle_get_system_reminder : ℕ → Json
handle_get_system_reminder now = get_success_response now (
    object (
      fields (
        ("iosGradeTime", object (fields (("iodGradeFlag", text "N") ∷ [])))
        ∷ (
          "openNotification",
          object (
              fields (
                ("openNotificationContent", nothing)
                ∷ ("openNotificationFlag", text "N")
                ∷ ("openNotificationTitle", nothing)
                ∷ [])),
        )
        ∷ [])))

-- `request.query["keys"].split(",")`, which raises without the key
unfoldable pub handle_get_config : ℕ → List (String × String) → Result Json
handle_get_config now query = elim (lookup "keys" query) [
  | none ↦ err key_error
  | some keys ↦ ok (
      get_success_response now (
        array (
          items (
            map (λ key. object (fields (("key", text key) ∷ ("value", text "Y") ∷ [])))
              (split b',' keys)))))
]

abbrev agreement_url : String → String → Json
agreement_url id kind = object (
    fields (
      ("acceptTime", nothing)
      ∷ ("force", nothing)
      ∷ ("id", text id)
      ∷ ("type", text kind)
      ∷ (
        "url",
        text (
            concat
              ("https://gl-eu-wap.ecovacs.com/content/agreement?id=" ∷ id ∷ "&language=EN" ∷ [])),
      )
      ∷ ("version", text "1.03")
      ∷ []))

unfoldable pub handle_get_agreement_url_batch : ℕ → Json
handle_get_agreement_url_batch now = get_success_response now (
    array (
      items (
        agreement_url "20180804040641_7d746faf18b8cb22a50d145598fe4c90" "USER"
        ∷ agreement_url "20180804040245_4e7c56dfb7ebd3b81b1f2747d0859fac" "PRIVACY"
        ∷ [])))

unfoldable pub handle_get_timestamp : ℕ → Json
handle_get_timestamp now =
    get_success_response now (object (fields (("timestamp", number now) ∷ [])))

unfoldable pub handle_has_unread_message : ℕ → Json
handle_has_unread_message now = get_success_response now (text "N")

unfoldable pub handle_get_msg_list : ℕ → Json
handle_get_msg_list now =
    get_success_response now
      (object (fields (("hasNextPage", number 0) ∷ ("items", array (items [])) ∷ [])))

abbrev setting : String → String → Json
setting name key =
    object (fields (("name", text name) ∷ ("settingKey", text key) ∷ ("val", text "Y") ∷ []))

unfoldable pub handle_get_suggestion_setting : ℕ → Json
handle_get_suggestion_setting now = get_success_response now (
    object (
      fields (
        ("acceptSuggestion", text "Y")
        ∷ (
          "itemList",
          array (
              items (
                setting "Aktionen/Angebote/Ereignisse" "MARKETING"
                ∷ setting "Benutzerbefragung" "QUESTIONNAIRE"
                ∷ setting "Produkt-Upgrade/Hilfe für Benutzer" "INTRODUCTION"
                ∷ [])),
        )
        ∷ [])))
