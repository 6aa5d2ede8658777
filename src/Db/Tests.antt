-- ===== src/Db/Tests.antt =====
-- The theorems about the database at concrete inputs, over the tables of `Tiny/Slots.antt`.
use Prim.Native.String
use mathlib.Core.Option
use bumper.Prelude.{
  ◌+◌, ◌≡◌, refl, true, false, ◌==◌, ◌||◌, none, some, List, [], ◌∷◌, map, is_some, if◌then◌else◌,
  all_nil, all_cons,
}
use bumper.Prelude.Exec.{ok, err, key_error}
use bumper.Prelude.Text.{replace}
use bumper.Tiny.Slots.{slots, rows_from, next_from, merge_slots, slot_insert, slot_upsert}
use bumper.Tiny.Rows.{any_match, first, matching, merge_matching}
use bumper.Tiny.Rows.Laws.{or_else}
use bumper.Tiny.Keyed.{OneEach-empty}
use bumper.Db.{Db, empty_db}
use bumper.Db.Documents.{UserDoc, user_asdict}
use bumper.Db.Bots
use bumper.Db.Bots.Views.{bot_view}
use bumper.Db.Bots.Refines.{fleet_of, fleet_ops, run_ops_refines}
use bumper.Db.Bots.Reset.{
  lacks_did, offline, result-bot_reset, view-bot_reset, reset-nick_of_unknown,
}
use bumper.Db.Bots.Unique.{BotOp, OneEachBot, run_ops, run_ops-OneEachBot}
use bumper.Db.Clients
use bumper.Db.Users
use bumper.Db.Users.Views.{
  user_view, edit_result, HasNoDid, view-user_add, user_devices_edit, user_bots_edit,
}
use bumper.Db.Users.Invariant
use bumper.Db.Tokens
use bumper.Db.Tokens.Views.{
  token_view, new_token, check_token_lem, check_authcode-user_revoke_authcode,
}
use bumper.Db.Tokens.Sweep.{
  lacks_key, survivors, others, user_revoke_expired_tokens_lem, user_revoke_all_tokens_lem,
}
use bumper.Db.Oauths.{Fresh}
use bumper.Db.Oauths.Reuse.{Call, created, HasNoUserid, add_all, add_all_lem}
use bumper.Db.Users.Invariant.{
  UserOp, IsUserTable, run_ops-IsUserTable, user_by_device_id-user_add_device,
}

abbrev fleet : Db slots
fleet = Bots.bot_add "sn-1" "did-1" "cls" "res" "eco-ng" (empty_db slots)

-- Names what a run on concrete data goes through.
runs : Unit {0}
unfolding rows_from next_from slot_insert slot_upsert first matching any_match merge_matching
    merge_slots Bots.bot_add Bots.bot_get Bots.is_acceptable Users.user_add Users.user_get
    Users.user_full_upsert Tokens.user_add_token Tokens.user_get_token
runs = tt

keyed_fleet : any_match lacks_did (slots.all fleet.bots) ≡ false
unfolding runs
keyed_fleet = refl

view-bot_reset_example :
    bot_view "did-1" (Bots.bot_reset_connection_status fleet).1
    ≡ Option.map offline (bot_view "did-1" fleet)
view-bot_reset_example = view-bot_reset fleet "did-1" keyed_fleet

result-bot_reset_example :
    (Bots.bot_reset_connection_status fleet).0
    ≡ (if any_match lacks_did (slots.all fleet.bots) then err key_error else ok tt)
result-bot_reset_example = result-bot_reset fleet

unknown_did : Bots.bot_get "did-9" fleet ≡ none
unfolding runs
unknown_did = refl

reset-nick_of_unknown_example :
    (Bots.bot_reset_connection_status (Bots.bot_set_nick "did-9" "robo" fleet)).0 ≡ err key_error
reset-nick_of_unknown_example = reset-nick_of_unknown "did-9" "robo" fleet unknown_did

abbrev bot_script : List BotOp
bot_script =
    BotOp.add "sn-1" "did-1" "cls" "res" "eco-ng"
    ∷ BotOp.set_nick "did-9" "robo"
    ∷ BotOp.reset
    ∷ BotOp.remove "did-1"
    ∷ []

run_ops-OneEachBot_example : OneEachBot (run_ops bot_script (empty_db slots))
run_ops-OneEachBot_example =
    run_ops-OneEachBot bot_script (empty_db slots) (OneEach-empty slots Bots.did_is)

abbrev apps : Db slots
apps = Clients.client_add "ann" "bumper" "res-1" (empty_db slots)

abbrev people : Db slots
people = Users.user_add "ann" (empty_db slots)

no_did_yet : HasNoDid people
unfolding runs
no_did_yet = record { at = refl }

view-user_add_example :
    user_view "bob" (Users.user_add "bob" people)
    ≡ or_else (user_view "bob" people) (if "bob" == "bob" then some (user_asdict "bob") else none)
view-user_add_example = view-user_add "bob" "bob" people no_did_yet

user_devices_edit_example :
    ((Users.user_add_device "ann" "dev" people).0
      ≡ edit_result (user_view "ann" people) (λ d. d.devices))
    × (user_view "ann" (Users.user_add_device "ann" "dev" people).1 ≡ (
        if "ann" == "ann"
        then Option.map {A = UserDoc}
            (λ d. record d { devices = Option.map (Users.add_new "dev") d.devices })
            (user_view "ann" people)
        else user_view "ann" people))
    × ((Users.user_remove_device "ann" "dev" people).0
        ≡ edit_result (user_view "ann" people) (λ d. d.devices))
    × (user_view "ann" (Users.user_remove_device "ann" "dev" people).1 ≡ (
        if "ann" == "ann"
        then Option.map {A = UserDoc}
            (λ d. record d { devices = Option.map (Users.drop_old "dev") d.devices })
            (user_view "ann" people)
        else user_view "ann" people))
user_devices_edit_example = user_devices_edit "ann" "dev" "ann" people

user_bots_edit_example :
    ((Users.user_add_bot "ann" "did" people).0 ≡ edit_result (user_view "ann" people) (λ d. d.bots))
    × (user_view "ann" (Users.user_add_bot "ann" "did" people).1 ≡ (
        if "ann" == "ann"
        then Option.map {A = UserDoc}
            (λ d. record d { bots = Option.map (Users.add_new "did") d.bots })
            (user_view "ann" people)
        else user_view "ann" people))
    × ((Users.user_remove_bot "ann" "did" people).0
        ≡ edit_result (user_view "ann" people) (λ d. d.bots))
    × (user_view "ann" (Users.user_remove_bot "ann" "did" people).1 ≡ (
        if "ann" == "ann"
        then Option.map {A = UserDoc}
            (λ d. record d { bots = Option.map (Users.drop_old "did") d.bots })
            (user_view "ann" people)
        else user_view "ann" people))
user_bots_edit_example = user_bots_edit "ann" "did" "ann" people

abbrev user_script : List UserOp
user_script =
    UserOp.add "ann"
    ∷ UserOp.add_device "ann" "dev"
    ∷ UserOp.add_bot "bob" "did"
    ∷ UserOp.add "ann"
    ∷ []

run_ops-IsUserTable_example : IsUserTable (Invariant.run_ops user_script (empty_db slots))
run_ops-IsUserTable_example = run_ops-IsUserTable user_script

known_user : Users.user_get "ann" people ≡ some (record { doc_id = 0; fields = user_asdict "ann" })
unfolding runs
known_user = refl

abbrev holders : Db slots
holders = Tokens.user_add_token 5 "ann" "tok" (empty_db slots)

check_token_lem_example : Tokens.check_token "fuid_ann" "tok" holders ≡ (
    is_some (token_view (replace "fuid_" "" "fuid_ann") "tok" holders)
    || is_some (token_view (String.◌++◌ "fuid_" "fuid_ann") "tok" holders))
check_token_lem_example = check_token_lem "fuid_ann" "tok" holders

held :
    Tokens.user_get_token "ann" "tok" holders
    ≡ some (record { doc_id = 0; fields = new_token 5 "ann" "tok" })
unfolding runs
held = refl

bare_uid : replace "fuid_" "" "fuid_ann" ≡ "ann"
unfolding replace
bare_uid = refl

check_authcode-user_revoke_authcode_example :
    Tokens.check_authcode "fuid_ann" "" (Tokens.user_revoke_authcode "ann" "tok" holders) ≡ true
check_authcode-user_revoke_authcode_example =
    check_authcode-user_revoke_authcode "ann" "tok" "fuid_ann" holders
      (record { doc_id = 0; fields = new_token 5 "ann" "tok" }) held bare_uid

dated : any_match lacks_key (slots.all holders.tokens) ≡ false
unfolding runs
dated = refl

user_revoke_expired_tokens_lem_example :
    ((Tokens.user_revoke_expired_tokens (λ k. 3600000005 + k) "ann" holders).0 ≡ ok tt)
    × (slots.all (Tokens.user_revoke_expired_tokens (λ k. 3600000005 + k) "ann" holders).1.tokens
        ≡ survivors (λ k. 3600000005 + k) 0 (Tokens.of_user "ann") (slots.all holders.tokens))
user_revoke_expired_tokens_lem_example =
    user_revoke_expired_tokens_lem (λ k. 3600000005 + k) "ann" holders dated

user_revoke_all_tokens_lem_example :
    slots.all (Tokens.user_revoke_all_tokens "ann" holders).tokens
    ≡ others (Tokens.of_user "ann") (slots.all holders.tokens)
user_revoke_all_tokens_lem_example = user_revoke_all_tokens_lem "ann" holders

abbrev fresh : Fresh
fresh = record { access = "a"; refresh = "r"; utcnow = 9 }

no_userid_yet : HasNoUserid (empty_db slots)
unfolding runs
no_userid_yet = refl

abbrev logins : List Call
logins =
    record { clock = record { utc = λ k. k; local = λ u. u }; fresh = fresh; user = "ann" }
    ∷ record { clock = record { utc = λ k. k; local = λ u. u }; fresh = fresh; user = "ann" }
    ∷ []

add_all_lem_example :
    map (λ r. r.fields) (slots.all (add_all logins (empty_db slots)).oauth) ≡ map created logins
add_all_lem_example = add_all_lem slots logins

abbrev edit_script : List BotOp
edit_script = BotOp.set_nick "did-1" "Robby" ∷ BotOp.remove "did-2" ∷ []

abbrev stocked : Db slots
stocked = run_ops (BotOp.add "sn-1" "did-1" "cls" "res" "eco-ng" ∷ []) (empty_db slots)

run_ops_refines_example :
    fleet_of (run_ops edit_script stocked) ≡ fleet_ops edit_script (fleet_of stocked)
run_ops_refines_example =
    run_ops_refines edit_script stocked (all_cons refl (all_cons refl all_nil)) (
      run_ops-OneEachBot (BotOp.add "sn-1" "did-1" "cls" "res" "eco-ng" ∷ []) (empty_db slots)
        (OneEach-empty slots Bots.did_is))

abbrev token_script : List Tokens.Unique.TokenOp
token_script =
    Tokens.Unique.add 5 "user" "tok"
    ∷ Tokens.Unique.add_authcode "user" "tok" "code"
    ∷ Tokens.Unique.add 6 "user" "tok"
    ∷ Tokens.Unique.sweep (λ k. 7)
    ∷ []

empty_tokens : Tokens.Unique.IsTokenTable (empty_db slots)
unfolding any_match rows_from
empty_tokens = record { one_each = OneEach-empty slots Tokens.Unique.pair_is; dated = refl }

run_ops-IsTokenTable_example :
    Tokens.Unique.IsTokenTable (Tokens.Unique.run_ops token_script (empty_db slots))
run_ops-IsTokenTable_example =
    Tokens.Unique.run_ops-IsTokenTable token_script (empty_db slots) empty_tokens
