-- ===== src/Mqtt/Vendor/Tests.antt =====
-- The theorems about the proxy and the helper bot at concrete inputs.
use bumper.Prelude.{◌≡◌, refl, String, true, false, none, some, List, [], ◌∷◌, ◌++◌}
use bumper.Prelude.Exec.{ok}
use bumper.Prelude.Text.{split, join, has_sub}
use bumper.Xmpp.Xml.{lookup}
use bumper.Tiny.Slots.{slots, rows_from, next_from, slot_insert}
use bumper.Tiny.Rows.{first}
use bumper.Db.{empty_db}
use bumper.Db.Bots
use bumper.Mqtt.{MqttEnv, Proxy, Plugin}
use bumper.Mqtt.Sessions.{new_proxy, authenticate}
use bumper.Mqtt.Messages.{set_item, remove_entry, find_proxy, on_broker_message_received}
use bumper.Mqtt.Vendor.{on_vendor_message}
use bumper.Mqtt.Vendor.Confined.{IsConfined}
use bumper.Mqtt.Vendor.Confined.Runs.{
  Event, session_opens, vendor_sends, message_received, run_event, run_events,
  run_events-IsConfined,
}
use bumper.Mqtt.Vendor.Relay.{relay_lem}

abbrev proxy_env : MqttEnv
proxy_env = record {
  use_auth = true;
  proxy_mqtt = true;
  allow_anonymous = some false;
  verify = λ p h. none;
  resolves = true;
  connects = true;
}

abbrev bot_id : String
bot_id = "did-1@cls/res"

abbrev proxied : Plugin slots
proxied = record { users = []; proxies = (bot_id, new_proxy) ∷ []; db = empty_db slots }

abbrev request_topic : String
request_topic = "iot/p2p/GetBattery/app/ecouser/res-1/did-1/cls/res/q/req-1/j"

abbrev answer_topic : String
answer_topic = "iot/p2p/GetBattery/did-1/cls/res/proxyhelper/ecouser/res-1/p/req-1/j"

relay_lem_example :
    (let out = on_vendor_message bot_id request_topic "{}" proxied in
      let first = on_broker_message_received proxy_env answer_topic "80" bot_id out.1 in
      let second = on_broker_message_received proxy_env answer_topic "81" bot_id first.1 in
      ((t : String) × (u : String) × (out.0 ≡ some (t, "{}"))
        × (split b'/' t ≡ set_item 3 "proxyhelper" (split b'/' request_topic))
        × (first.0 ≡ ok tt)
        × (find_proxy bot_id first.1.proxies
            ≡ some (record new_proxy {
              published = new_proxy.published ++ (u, "80") ∷ [];
              request_mapper = remove_entry "req-1" new_proxy.request_mapper;
            }))
        × (split b'/' u ≡ set_item 6 "app" (split b'/' answer_topic))
        × (second.0 ≡ ok tt)
        × (find_proxy bot_id second.1.proxies ≡ find_proxy bot_id first.1.proxies)))
unfolding split
relay_lem_example =
    relay_lem proxy_env bot_id request_topic "{}" "app" "req-1" answer_topic "80" "did-1" "81"
      new_proxy proxied refl refl (refl, refl, refl, refl) refl (refl, refl, refl, refl)

abbrev unproxied : Plugin slots
unproxied = record { users = []; proxies = []; db = empty_db slots }

abbrev history : List Event
history =
    session_opens (record { username = "sn-1"; password = none; client_id = bot_id })
    ∷ vendor_sends bot_id request_topic "{}"
    ∷ message_received bot_id answer_topic "80"
    ∷ []

abbrev proxy_after : Proxy
proxy_after = record {
  published = ("iot/p2p/GetBattery/did-1/cls/res/app/ecouser/res-1/p/req-1/j", "80") ∷ [];
  request_mapper = [];
  topics = [];
}

run_events-IsConfined_example : IsConfined proxy_after
unfolding run_events run_event authenticate on_vendor_message on_broker_message_received split join
    rows_from next_from slot_insert first Bots.bot_add Bots.bot_get Bots.is_acceptable has_sub
    lookup
run_events-IsConfined_example =
    run_events-IsConfined proxy_env history bot_id proxy_after unproxied refl refl
