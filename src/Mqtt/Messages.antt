-- ===== src/Mqtt/Messages.antt =====
-- bumper/mqtt/server.py: what the plugin does with the broker's messages, subscriptions and
-- disconnections, and with the proxies in proxy mode.
use bumper.Prelude.{
  ℕ, zero, suc, String, ◌==◌, true, false, Option, none, some, List, [], ◌∷◌, ◌++◌, if◌then◌else◌,
}
use bumper.Prelude.Exec.{Exec, ok, err, index_error, need, modify, ◌>>=◌}
use bumper.Prelude.Text.{split, join}
use bumper.Tiny.{TinyDb}
use bumper.Mqtt.{MqttEnv, Proxy, Plugin}
use bumper.Mqtt.Sessions.{set_entry, set_client_connected}
use bumper.Xmpp.Auth.{item, or_empty}
use bumper.Xmpp.Xml.{lookup}

-- `l[i] = x`, where `i` is in range
unfoldable pub set_item : ℕ → String → List String → List String
set_item i x [] = []
set_item zero x (y ∷ l) = x ∷ l
set_item (suc i) x (y ∷ l) = y ∷ set_item i x l

-- `d.pop(key, …)`: the rest of the dict
unfoldable pub remove_entry {ℓ} : {A : Type ℓ} → String → List (String × A) → List (String × A)
remove_entry k [] = []
remove_entry k ((j, v) ∷ l) = if j == k then remove_entry k l else (j, v) ∷ remove_entry k l

abbrev pub find_proxy : String → List (String × Proxy) → Option Proxy
find_proxy k [] = none
find_proxy k ((j, p) ∷ l) = if j == k then some p else find_proxy k l

-- What a message is published as by the proxy: `none` where the request is not known any more; and
-- the proxy, from whose mapper the request is taken.
unfoldable pub converted : List String → String → String → Proxy → Option String × Proxy
unfolding remove_entry set_item join
converted parts topic request proxy = (
  elim (lookup request proxy.request_mapper) [
    | none ↦ none
    | some client ↦ if client == "" then none else some (join (set_item 6 client parts))
  ],
  record proxy { request_mapper = remove_entry request proxy.request_mapper },
)

module _ {tiny : TinyDb} where
  abbrev pub set_proxy : String → Proxy → Plugin tiny → Plugin tiny
  set_proxy client_id proxy s = record s { proxies = set_entry client_id proxy s.proxies }

  -- `publish`, whose exceptions are caught; the quality of service is left out.
  unfoldable pub publish : String → Option String × Proxy → String → Plugin tiny → Plugin tiny
  publish client_id (none, proxy) message s = set_proxy client_id proxy s
  publish client_id (some topic, proxy) message s =
      set_proxy client_id (record proxy { published = proxy.published ++ (topic, message) ∷ [] }) s

  -- A message of a client with a proxy goes to the vendor's server, unless the proxy sent it; the
  -- answer to a request of the proxy goes back under the name of the client that asked.
  unfoldable pub forward_message :
      String → String → String → List String → Proxy → Exec (Plugin tiny) (Unit {0})
  unfolding converted publish
  forward_message client_id topic message parts proxy s =
      if or_empty (item 3 parts) == "proxyhelper"
      then (ok tt, s)
      else if or_empty (item 6 parts) == "proxyhelper"
      then (do
        request ← need index_error (item 10 parts)
        modify (publish client_id (converted parts topic request proxy) message))
          s
      else (ok tt, publish client_id (some topic, proxy) message s)

  -- `topic_split[6]` raises for a topic with fewer parts, whether there is a proxy or not.
  unfoldable pub on_broker_message_received :
      MqttEnv → String → String → String → Exec (Plugin tiny) (Unit {0})
  unfolding forward_message
  on_broker_message_received env topic message client_id s = elim (item 6 (split b'/' topic)) [
    | none ↦ (err index_error, s)
    | some receiver ↦ elim (if env.proxy_mqtt then find_proxy client_id s.proxies else none) [
      | none ↦ (ok tt, s)
      | some proxy ↦ forward_message client_id topic message (split b'/' topic) proxy s
    ]
  ]

  unfoldable pub on_broker_client_subscribed : MqttEnv → String → String → Plugin tiny → Plugin tiny
  on_broker_client_subscribed env client_id topic s =
      elim (if env.proxy_mqtt then find_proxy client_id s.proxies else none) [
        | none ↦ s
        | some proxy ↦ set_proxy client_id (record proxy { topics = proxy.topics ++ topic ∷ [] }) s
      ]

  unfoldable pub on_broker_client_connected : String → Exec (Plugin tiny) (Unit {0})
  unfolding set_client_connected
  on_broker_client_connected client_id = set_client_connected client_id true

  unfoldable pub on_broker_client_disconnected : MqttEnv → String → Exec (Plugin tiny) (Unit {0})
  unfolding set_client_connected remove_entry
  on_broker_client_disconnected env client_id s =
      set_client_connected client_id false
        (if env.proxy_mqtt then record s { proxies = remove_entry client_id s.proxies } else s)
