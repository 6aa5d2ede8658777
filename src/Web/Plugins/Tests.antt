-- ===== src/Web/Plugins/Tests.antt =====
-- The theorems about the web server and its plugins at concrete inputs, over the tables of
-- `Tiny/Slots.antt`.
use mathlib.Core.List.{Perm}
use bumper.Prelude.{
  all_nil, all_cons, map, ◌≡◌, refl, String, ◌==◌, true, false, ◌||◌, none, some, List, [], ◌∷◌,
  ◌++◌, if◌then◌else◌,
}
use bumper.Prelude.Text.{split}
use bumper.Tiny.Keyed.{OneEach-empty}
use bumper.Tiny.Slots.{slots, rows_from, next_from, merge_slots, slot_insert, slot_upsert}
use bumper.Tiny.Rows.{any_match, first, matching, merge_matching}
use bumper.Db.{Db, empty_db}
use bumper.Db.Bots
use bumper.Db.Bots.Unique.{BotOp, run_ops, run_ops-OneEachBot}
use bumper.Db.Bots.Views.{bot_view}
use bumper.Db.Documents.{BotDoc, bot_asdict}
use bumper.Json.{Json, Fields, text, number, fields, field_of}
use bumper.Mqtt.{MqttEnv, Plugin}
use bumper.Mqtt.Messages.{on_broker_client_connected, on_broker_client_disconnected}
use bumper.Web.Plugins.{Posted}
use bumper.Web.Plugins.Appsvr
use bumper.Web.Plugins.Appsvr.{Product}
use bumper.Web.Plugins.Appsvr.Status.{HasKeys, is_in_map, include_product_lem}
use bumper.Web.Plugins.Devmanager
use bumper.Web.Plugins.Devmanager.{sends, answers, dim_error}
use bumper.Web.Plugins.Devmanager.Known.{handle_dim_sends}
use bumper.Web.Plugins.Devmanager.Sends.{handle_dim_follows}
use bumper.Web.Plugins.Product
use bumper.Web.Plugins.Product.Batch.{empty_config, intended, known_ids, batch_data_lem}
use bumper.Web.Plugins.Users.Changes.{run_requests, all_edits, run_requests_lem}
use bumper.Web.Server
use bumper.Web.Server.{ServerEnv, text_reply, status}
use bumper.Web.Server.Removals.{handle_remove_bot_lem}

abbrev fleet : Db slots
fleet = run_ops (BotOp.add "sn-1" "did-1" "cls" "res" "eco-ng" ∷ []) (empty_db slots)

handle_remove_bot_lem_example :
    ((Server.handle_remove_bot (some "did-1") fleet).0 ≡ status "successfully removed bot")
    × (bot_view "did-1" (Server.handle_remove_bot (some "did-1") fleet).1
        ≡ (if "did-1" == "did-1" then none else bot_view "did-1" fleet))
handle_remove_bot_lem_example = handle_remove_bot_lem "did-1" "did-1" fleet (
    run_ops-OneEachBot (BotOp.add "sn-1" "did-1" "cls" "res" "eco-ng" ∷ []) (empty_db slots)
      (OneEach-empty slots Bots.did_is))

abbrev plugin_env : ServerEnv
plugin_env = record {
  dumps = λ v. "{\"ip\": \"10.0.0.1\", \"port\": 5223}";
  announce_ip = "10.0.0.1";
  imported_ip = "10.0.0.1";
}

abbrev requests : List Posted
requests =
    record {
      method = "POST";
      body = some (("todo", "SetDeviceNick") ∷ ("did", "did-1") ∷ ("nick", "Robby") ∷ []);
    }
    ∷ record { method = "POST"; body = some (("todo", "DeleteOneDevice") ∷ ("did", "did-1") ∷ []) }
    ∷ []

run_requests_lem_example :
    run_requests plugin_env requests fleet ≡ run_ops (all_edits requests) fleet
run_requests_lem_example = run_requests_lem plugin_env requests fleet

abbrev broker_env : MqttEnv
broker_env = record {
  use_auth = true;
  proxy_mqtt = false;
  allow_anonymous = none;
  verify = λ p h. none;
  resolves = true;
  connects = true;
}

abbrev bot : BotDoc
bot = bot_asdict "sn-1" "did-1" "cls" "res" "eco-ng"

abbrev command : Fields
command = fields (("toId", text "did-1") ∷ ("cmdName", text "Clean") ∷ [])

abbrev stored : Db slots
stored = Bots.bot_add "sn-1" "did-1" "cls" "res" "eco-ng" (empty_db slots)

abbrev at_rest : Plugin slots
at_rest = record { users = []; proxies = []; db = stored }

handle_dim_follows_example :
    (let on = (on_broker_client_connected "did-1@cls/res" at_rest).1.db in
      let off = (on_broker_client_disconnected broker_env "did-1@cls/res" at_rest).1.db in
      (Devmanager.handle_dim_devmanager (some command) "AbCdEf" on ≡ sends command "AbCdEf")
      × (Devmanager.handle_dim_devmanager (some command) "AbCdEf" off
          ≡ answers (dim_error "AbCdEf"))
      × (Devmanager.handle_devmanager_bot_command (some command) "AbCdEf" on
          ≡ sends command "AbCdEf")
      × (Devmanager.handle_devmanager_bot_command (some command) "AbCdEf" off
          ≡ sends command "AbCdEf"))
unfolding rows_from next_from slot_insert slot_upsert first matching any_match merge_matching
    merge_slots Bots.bot_add Bots.bot_get Bots.is_acceptable bot_view split fields field_of
handle_dim_follows_example =
    handle_dim_follows broker_env "did-1@cls/res" "did-1" "AbCdEf" bot command at_rest refl refl
      refl refl refl

abbrev online : Db slots
online = Bots.bot_set_mqtt "did-1" true stored

handle_dim_sends_example :
    (did : String) × (b : BotDoc) × (some command ≡ some command)
    × (◌≡◌ {A = String} "AbCdEf" "AbCdEf")
    × (field_of "toId" command ≡ some (text did))
    × (bot_view did online ≡ some b)
    × (b.company ≡ some "eco-ng")
    × (b.mqtt_connection ≡ some true)
unfolding rows_from next_from slot_insert slot_upsert first matching any_match merge_matching
    merge_slots Bots.bot_add Bots.bot_get Bots.bot_set_mqtt Bots.is_acceptable fields field_of
    Devmanager.handle_dim_devmanager
handle_dim_sends_example = handle_dim_sends (some command) "AbCdEf" "AbCdEf" command online refl

abbrev product : Product
product = record {
  classid = "cls";
  product = fields (
      ("UILogicId", text "DX")
      ∷ ("ota", text "y")
      ∷ ("iconUrl", text "icon")
      ∷ ("model", text "m")
      ∷ ("_id", text "5c")
      ∷ ("name", text "DEEBOT 900")
      ∷ ("materialNo", text "110")
      ∷ []);
}

abbrev other : Product
other = record product { classid = "other" }

abbrev sessions : List (String × String)
sessions = ("did-1@cls/res", "connected") ∷ []

has_keys : HasKeys (product.product)
unfolding fields field_of
has_keys = record {
  copied = all_cons refl (
      all_cons refl
        (all_cons refl (all_cons refl (all_cons refl (all_cons refl (all_cons refl all_nil))))));
  name = "DEEBOT 900";
  name_is = refl;
}

include_product_lem_example :
    (device : Fields) × (Appsvr.include_product_iot_map_info (other ∷ product ∷ []) sessions bot
      ≡ some device)
    × (field_of "status" device ≡ (
        if is_in_map "cls" (other ∷ product ∷ [])
        then some
            (number (if (false || false) || Appsvr.any_session "did-1" sessions then 1 else 0))
        else none))
unfolding fields field_of
include_product_lem_example =
    include_product_lem (other ∷ product ∷ []) sessions bot "cls" "did-1" false false refl refl refl
      refl (all_cons has_keys (all_cons has_keys all_nil))

abbrev config_file : List (String × Json)
config_file = ("5c", text "config") ∷ []

batch_data_lem_example : Perm (Product.batch_data config_file ("5c" ∷ "6d" ∷ [])) (
    intended config_file ("5c" ∷ "6d" ∷ [])
    ++ map empty_config (known_ids config_file ("5c" ∷ "6d" ∷ [])))
batch_data_lem_example = batch_data_lem config_file ("5c" ∷ "6d" ∷ [])
