-- ===== src/Web/Tests.antt =====
-- The theorems about the login at concrete inputs, over the tables of `Tiny/Slots.antt`.
use bumper.Prelude.{
  ◌≡◌, ◌==◌, ◌&&◌, if◌then◌else◌, refl, arith, String, true, none, some, [], ◌∷◌, contains,
}
use bumper.Prelude.Exec.{ok}
use bumper.Prelude.Text.{has_sub, replace}
use bumper.Tiny.Slots.{slots, rows_from, next_from, merge_slots, slot_insert, slot_upsert}
use bumper.Tiny.Keyed.{OneEach-empty}
use bumper.Tiny.Rows.{Document, any_match, first, matching, merge_matching}
use bumper.Db.{Db, empty_db}
use bumper.Db.Documents.{UserDoc, TokenDoc, user_asdict}
use bumper.Db.Bots
use bumper.Db.Users
use bumper.Db.Users.Views.{user_view}
use bumper.Db.Tokens
use bumper.Db.Tokens.Unique as TokenTable
use bumper.Db.Tokens.Views.{new_token, token_view}
use bumper.Json.{nothing}
use bumper.Web.{Request, WebEnv, auth_code, Web}
use bumper.Web.Auth
use bumper.Web.Entry.{prepared, login_lem}
use bumper.Web.Members.{HasLists}
use bumper.Web.Plugins.{get_success_response}
use bumper.Web.Plugins.Account
use bumper.Web.Plugins.Account.Logout.{logout_lem}
use bumper.Web.Plugins.Users.{handle_usersapi, it_login_body}
use bumper.Web.Plugins.Users.Logins.{login_request, login_after_get_authcode}
use bumper.Web.Server.{ServerEnv, json_reply}
use bumper.Xmpp.Xml.{lookup}

abbrev web_env : WebEnv
web_env = record { hex = λ n. "abc"; now = 10; clock = λ k. 10 }

abbrev request : Request
request = record {
  devid = some "phone";
  country = some "de";
  apptype = none;
  path = "/login";
  query = ("accessToken", "tok") ∷ ("uid", "fuid_user") ∷ [];
}

abbrev with_user : Db slots
with_user = (Users.user_add_device "user" "phone" (Users.user_add "user" (empty_db slots))).1

abbrev web : Web slots
web = record { db = Tokens.user_add_token 5 "user" "tok" with_user; drawn = 0 }

abbrev user : Document UserDoc
user = record { doc_id = 0; fields = record (user_asdict "user") { devices = some ("phone" ∷ []) } }

abbrev token : Document TokenDoc
token = record { doc_id = 0; fields = new_token 5 "user" "tok" }

-- A device of no user: the login is that of "tmpuser".
abbrev arrival : Request
arrival = record request { devid = some "tablet" }

abbrev web_bots : Web slots
web_bots = record web { db = Bots.bot_add "sn-1" "did-1" "cls" "res" "eco-ng" web.db }

new_user_lists : HasLists "tmpuser" [] (prepared "tablet" web_bots.db)
unfolding first Users.user_by_device_id Users.user_get user_view rows_from next_from Bots.bot_add
    Tokens.user_add_token Tokens.user_get_token Users.user_add_device Users.user_add
    Users.user_full_upsert slot_upsert any_match slot_insert Bots.is_acceptable Bots.bot_get
    merge_slots merge_matching matching contains Users.add_new has_sub replace
new_user_lists = record {
  user = user_asdict "tmpuser";
  is_there = refl;
  devices_are = refl;
  bots = [];
  bots_are = refl;
}

login_lem_example :
    (let after = Auth.login web_env arrival web_bots in
      (after.0 ≡ ok (Auth.login_body "" "de" "tmpuser" "abc"))
      × (Tokens.check_token "tmpuser" "abc" after.1.db ≡ true)
      × HasLists "tmpuser" (Users.add_new "tablet" []) after.1.db)
unfolding first Users.user_by_device_id Users.user_get user_view rows_from next_from Bots.bot_add
    Tokens.user_add_token Tokens.user_get_token Users.user_add_device Users.user_add
    Users.user_full_upsert slot_upsert any_match slot_insert Bots.is_acceptable Bots.bot_get
    merge_slots merge_matching matching contains Users.add_new has_sub replace
login_lem_example =
    login_lem web_env arrival "tmpuser" [] web_bots refl new_user_lists refl refl refl
      (λ i. omega arith) refl

abbrev server_env : ServerEnv
server_env = record { dumps = λ v. "{ }"; announce_ip = "10.0.0.1"; imported_ip = "10.0.0.1" }

login_after_get_authcode_example :
    (code : String) × ((Auth.get_authcode web_env request web).0
      ≡ ok (record { code = Auth.return_api_success; contents = auth_code code "fuid_user" }))
    × (handle_usersapi server_env
          (login_request "user" code "res")
          (Auth.get_authcode web_env request web).1.db
        ≡ (
          json_reply (it_login_body "res" code "user"),
          (Auth.get_authcode web_env request web).1.db,
        ))
unfolding rows_from next_from slot_insert slot_upsert first matching any_match merge_matching
    merge_slots Users.user_add Users.user_get Users.user_full_upsert Users.user_add_device
    Users.add_new contains Users.user_by_device_id Tokens.user_add_token Tokens.user_get_token
    lookup replace
login_after_get_authcode_example =
    login_after_get_authcode server_env web_env request "phone" "user" "tok" "fuid_user" "res" user
      token web refl refl refl refl refl refl refl refl refl

abbrev held : Db slots
held = TokenTable.run_ops (TokenTable.add 5 "user" "tok" ∷ []) with_user

no_tokens : TokenTable.IsTokenTable with_user
unfolding any_match Users.user_add Users.user_get Users.user_full_upsert Users.user_add_device
    rows_from first slot_upsert slot_insert
no_tokens = record { one_each = OneEach-empty slots TokenTable.pair_is; dated = refl }

logout_lem_example :
    ((Account.logout 7 request held).0 ≡ ok (get_success_response 7 nothing))
    × (token_view "user" "tok" (Account.logout 7 request held).1
        ≡ (if "user" == "user" && "tok" == "tok" then none else token_view "user" "tok" held))
unfolding rows_from next_from slot_insert slot_upsert first matching any_match merge_matching
    merge_slots Users.user_add Users.user_get Users.user_full_upsert Users.user_add_device
    Users.add_new contains Users.user_by_device_id Tokens.user_add_token Tokens.user_get_token
    lookup replace TokenTable.run_ops
logout_lem_example =
    logout_lem 7 request "user" "tok" "user" "tok" user held refl refl refl refl refl
      (TokenTable.run_ops-IsTokenTable (TokenTable.add 5 "user" "tok" ∷ []) with_user no_tokens)
