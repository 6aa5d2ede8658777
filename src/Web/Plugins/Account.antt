-- ===== src/Web/Plugins/Account.antt =====
-- bumper/web/plugins/v1/private/user.py
pub mod Logout
use bumper.Prelude.{ℕ, String, ◌==◌, Option, none, some, [], ◌∷◌, if◌then◌else◌}
use bumper.Prelude.Exec.{Exec, Result, ok, err, key_error, pure, need, gets, modify, ◌>>=◌, ◌>>◌}
use bumper.Prelude.Text.{concat, has_sub}
use bumper.Tiny.{TinyDb}
use bumper.Tiny.Rows.{Document}
use bumper.Db.{Db}
use bumper.Db.Documents.{UserDoc}
use bumper.Db.Users.{user_by_device_id}
use bumper.Db.Tokens.{check_token, user_revoke_token}
use bumper.Json.{Json, nothing, text, number, array, object, fields, items}
use bumper.Web.{Request}
use bumper.Web.Auth.{get_or}
use bumper.Web.Plugins.{get_success_response}
use bumper.Xmpp.Xml.{lookup}

abbrev agreement : String → String → Json
agreement id kind = object (
    fields (
      ("force", text "N")
      ∷ ("id", text id)
      ∷ ("type", text kind)
      ∷ (
        "url",
        text (
            concat ("https://bumper.ecovacs.com/content/agreement?id=" ∷ id ∷ "&language=EN" ∷ [])),
      )
      ∷ ("version", text "1.01")
      ∷ []))

unfoldable pub handle_check_agreement : ℕ → Option String → Json
handle_check_agreement now apptype = get_success_response now (
    array (
      items (
        if has_sub "global_" (get_or "" apptype)
        then agreement "20180804040641_7d746faf18b8cb22a50d145598fe4c90" "USER"
          ∷ agreement "20180804040245_4e7c56dfb7ebd3b81b1f2747d0859fac" "PRIVACY"
          ∷ []
        else [])))

unfoldable pub handle_change_area : ℕ → Json
handle_change_area now =
    get_success_response now (object (fields (("isNeedReLogin", text "N") ∷ [])))

unfoldable pub handle_accept_agreement_batch : ℕ → Json
handle_accept_agreement_batch now = get_success_response now nothing

abbrev menu : ℕ → String → String → String → String → Json
menu action uri icon id name = object (
    fields (
      ("clickAction", number action)
      ∷ ("clickUri", text uri)
      ∷ ("menuIconUrl", text icon)
      ∷ ("menuId", text id)
      ∷ ("menuName", text name)
      ∷ ("paramsJson", text "")
      ∷ []))

abbrev menu_at : Json → String → Json
menu_at m position =
    object
      (fields (("menuItems", array (items (m ∷ []))) ∷ ("menuPositionKey", text position) ∷ []))

unfoldable pub handle_get_user_menu_info : ℕ → Json
handle_get_user_menu_info now = get_success_response now (
    array (
      items (
        menu_at
          (menu 1 "https://ecovacs.zendesk.com/hc/en-us"
            "https://gl-us-pub.ecovacs.com/upload/global/2019/12/16/2019121603180741b73907046e742b80e8fe4a90fe2498.png"
            "20191216031849_4d744630f7ad2f5208a4b8051be61d10" "Help & Feedback")
          "A_FIRST"
        ∷ menu_at
            (menu 3 "robotShare"
              "https://gl-us-pub.ecovacs.com/upload/global/2019/12/16/2019121603284185e632ec6c5da10bd82119d7047a1f9e.png"
              "20191216032853_5fac4cc9cbd0e166dfa951485d1d8cc4" "Share Robot")
            "B_SECOND"
        ∷ menu_at
            (menu 3 "config"
              "https://gl-us-pub.ecovacs.com/upload/global/2019/12/16/201912160325324068da4e4a09b8c3973db162e84784d5.png"
              "20191216032545_ebea0fbb4cb02d9c2fec5bdf3371bc2d" "Settings")
            "C_THIRD"
        ∷ menu_at
            (menu 1 "https://bumper.ecovacs.com/"
              "https://gl-us-pub.ecovacs.com/upload/global/2019/12/16/201912160325324068da4e4a09b8c3973db162e84784d5.png"
              "20191216032545_ebea0fbb4cb02d9c2fec5bdf3371bc2c" "Bumper Status")
            "D_FOURTH"
        ∷ [])))

abbrev account_info : String → Json
account_info userid = object (
    fields (
      ("email", text "null@null.com")
      ∷ ("hasMobile", text "N")
      ∷ ("hasPassword", text "Y")
      ∷ ("uid", text (concat ("fuid_" ∷ userid ∷ [])))
      ∷ ("userName", text (concat ("fusername_" ∷ userid ∷ [])))
      ∷ ("obfuscatedMobile", nothing)
      ∷ ("mobile", nothing)
      ∷ ("loginName", text (concat ("fusername_" ∷ userid ∷ [])))
      ∷ []))

module _ {tiny : TinyDb} where
  -- The token is revoked where it is valid for the user of the device.
  unfoldable pub logout_user : Request → Document UserDoc → Exec (Db tiny) (Unit {0})
  logout_user request user = do
    userid ← need key_error user.fields.userid
    token ← need key_error (lookup "accessToken" request.query)
    valid ← gets (check_token userid token)
    (if valid then modify (user_revoke_token userid token) else pure tt)

  -- An exception stands for the answer of an internal server error, here and below.
  unfoldable pub logout : ℕ → Request → Exec (Db tiny) Json
  unfolding logout_user
  logout now request db =
      if get_or "" request.devid == ""
      then (ok (get_success_response now nothing), db)
      else elim (user_by_device_id (get_or "" request.devid) db) [
        | none ↦ (ok (get_success_response now nothing), db)
        | some user ↦ (logout_user request user >> pure (get_success_response now nothing)) db
      ]

  -- A device of no user is answered with an internal server error too.
  unfoldable pub get_user_account_info : ℕ → Request → Db tiny → Result Json
  get_user_account_info now request db = elim (user_by_device_id (get_or "" request.devid) db) [
    | none ↦ err key_error
    | some user ↦ elim user.fields.userid [
      | none ↦ err key_error
      | some userid ↦ ok (get_success_response now (account_info userid))
    ]
  ]
