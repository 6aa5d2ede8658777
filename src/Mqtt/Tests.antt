-- ===== src/Mqtt/Tests.antt =====
-- The theorems about the MQTT plugin at concrete inputs, over the tables of `Tiny/Slots.antt`.
use bumper.Prelude.{◌≡◌, refl, true, false, ◌==◌, ◌&&◌, ◌||◌, not, none, some, [], if◌then◌else◌}
use bumper.Prelude.Text.{has_sub, split}
use bumper.Tiny.Slots.{slots}
use bumper.Tiny.Rows.Laws.{or_else}
use bumper.Db.{empty_db}
use bumper.Db.Documents.{bot_asdict}
use bumper.Db.Bots
use bumper.Db.Bots.Views.{bot_view}
use bumper.Db.Clients.{client_add}
use bumper.Mqtt.{MqttEnv, Session, Plugin}
use bumper.Mqtt.Sessions
use bumper.Mqtt.Access.{authenticate_any_bot, authenticate_any_client}
use bumper.Xmpp.Xml.{lookup}

abbrev mqtt_env : MqttEnv
mqtt_env = record {
  use_auth = true;
  proxy_mqtt = false;
  allow_anonymous = some false;
  verify = λ p h. some (p == h);
  resolves = true;
  connects = true;
}

abbrev plugin : Plugin slots
plugin = record { users = []; proxies = []; db = empty_db slots }

abbrev bot_session : Session
bot_session = record { username = "sn-1"; password = none; client_id = "did-1@cls/res" }

abbrev app_session : Session
app_session = record {
  username = "user";
  password = some "code";
  client_id = "user@ecouser.net/res";
}

authenticate_any_bot_example :
    ((Sessions.authenticate mqtt_env bot_session plugin).0 ≡ true)
    × (bot_view "did-1" (Sessions.authenticate mqtt_env bot_session plugin).1.db
        ≡ or_else (bot_view "did-1" plugin.db) (
            if "did-1" == "did-1" && Bots.is_acceptable "sn-1" "cls"
            then some (bot_asdict "sn-1" "did-1" "cls" "res" "eco-ng")
            else none))
unfolding has_sub split
authenticate_any_bot_example =
    authenticate_any_bot mqtt_env bot_session "did-1" "cls/res" "cls" "res" "did-1" plugin refl refl
      refl refl refl refl refl refl

-- Authentication as bumper/__init__.py sets it
abbrev open_env : MqttEnv
open_env = record mqtt_env { use_auth = false }

authenticate_any_client_example : Sessions.authenticate open_env app_session plugin ≡ (
    if Sessions.has_authcode "user" app_session.password plugin || not open_env.use_auth
    then (true, record plugin { db = client_add "user" "ecouser.net" "res" plugin.db })
    else (false, plugin))
unfolding has_sub split lookup
authenticate_any_client_example =
    authenticate_any_client open_env app_session "user" "ecouser.net/res" "ecouser.net" "res" plugin
      refl refl refl refl refl refl refl refl refl

abbrev connected : Plugin slots
connected = record plugin { db = Bots.bot_add "sn-1" "did-1" "cls" "res" "eco-ng" plugin.db }
