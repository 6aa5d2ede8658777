-- ===== src/Mqtt/Vendor/Confined/Runs.antt =====
-- Sessions, messages and expiries in any order (bumper/mqtt/proxy.py, bumper/mqtt/server.py).
use bumper.Prelude.{
  ◌≡◌, String, ◌==◌, Bool, true, false, not, ◌||◌, none, some, inl, inr, Bool-cases, List, [], ◌∷◌,
  Option, Option-cases, all_nil,
}
use bumper.Prelude.Exec.{index_error, key_error, value_error}
use bumper.Prelude.Exec.Keeps.{Keeps, bind-Keeps, need-Keeps, if_Keeps, pure-Keeps}
use bumper.Prelude.Text.{split, has_sub}
use bumper.Tiny.{TinyDb}
use bumper.Tiny.Rows.{Document}
use bumper.Db.Documents.{BotDoc, ClientDoc}
use bumper.Db.Bots.{bot_get}
use bumper.Db.Clients.{client_get}
use bumper.Mqtt.{MqttEnv, Session, Proxy, Plugin}
use bumper.Mqtt.Sessions.{
  new_proxy, start_proxy, authenticate_bot, authenticate_client, authenticate_id, authenticate_file,
  try_authenticate, authenticate, set_bot, set_client, set_client_connected, has_authcode,
  helper_bot_client_id,
}
use bumper.Mqtt.Messages.{
  find_proxy, on_broker_message_received, on_broker_client_subscribed, on_broker_client_connected,
  on_broker_client_disconnected,
}
use bumper.Mqtt.Vendor.{on_vendor_message, expire_request}
use bumper.Mqtt.Vendor.Confined.{IsConfined, All-set_entry, All-remove_entry, find_proxy-all}
use bumper.Xmpp.Auth.{item, or_empty}
use bumper.Xmpp.Xml.{lookup}
use bumper.Mqtt.Vendor.Confined.Steps.{
  IsConfinedPlugin, vendor_confined, expire_confined, received_confined, subscribed_confined,
}

-- What happens to the plugin: the broker's callbacks, a message of the vendor's server, and an entry of
-- a mapper that expires.
pub data Event : Type 0 where
  session_opens : Session → Event
  client_connects : String → Event
  client_subscribes : String → String → Event
  message_received : String → String → String → Event
  vendor_sends : String → String → String → Event
  request_expires : String → String → Event
  client_leaves : String → Event

module _ {tiny : TinyDb} where
  unfoldable pub run_event : MqttEnv → Event → Plugin tiny → Plugin tiny
  run_event env (session_opens session) s = (authenticate env session s).1
  run_event env (client_connects client_id) s = (on_broker_client_connected client_id s).1
  run_event env (client_subscribes client_id topic) s =
      on_broker_client_subscribed env client_id topic s
  run_event env (message_received client_id topic message) s =
      (on_broker_message_received env topic message client_id s).1
  run_event env (vendor_sends client_id topic message) s =
      (on_vendor_message client_id topic message s).1
  run_event env (request_expires client_id request) s = expire_request client_id request s
  run_event env (client_leaves client_id) s = (on_broker_client_disconnected env client_id s).1

  unfoldable pub run_events : MqttEnv → List Event → Plugin tiny → Plugin tiny
  unfolding run_event
  run_events env [] s = s
  run_events env (e ∷ es) s = run_events env es (run_event env e s)

module _ (tiny : TinyDb) where
  start_proxy_confined :
      (env : MqttEnv) (client_id : String)
      → Keeps IsConfinedPlugin (start_proxy {tiny = tiny} env client_id)
  unfolding Keeps start_proxy
  start_proxy_confined env client_id s all = elim (Bool-cases env.resolves) [
    | inl e ↦
        rw (e, start_proxy)
          (All-set_entry IsConfined client_id new_proxy s.proxies all
            (record { names = all_nil; topics_published = all_nil }))
    | inr e ↦ rw (e, start_proxy) all
  ]

  bot_confined :
      (env : MqttEnv) (session : Session) (did dev_class resource : String)
      → Keeps IsConfinedPlugin (authenticate_bot {tiny = tiny} env session did dev_class resource)
  unfolding Keeps authenticate_bot
  bot_confined env session did dev_class resource s all = elim (Bool-cases env.proxy_mqtt) [
    | inl e ↦ rw (e, authenticate_bot) (start_proxy_confined env session.client_id _ all)
    | inr e ↦ rw (e, authenticate_bot) all
  ]

  client_confined :
      (env : MqttEnv) (session : Session) (user realm : String) (resource : Option String)
      → Keeps IsConfinedPlugin (authenticate_client {tiny = tiny} env session user realm resource)
  unfolding Keeps authenticate_client
  client_confined env session user realm resource s all =
      elim (Bool-cases (has_authcode user session.password s || not env.use_auth)) [
        | inl e ↦ elim (Option-cases resource) [
          | inl h ↦ rw (e, authenticate_client) (rw (h) all)
          | inr (r, h) ↦ rw (e, authenticate_client) (rw (h) all)
        ]
        | inr e ↦ rw (e, authenticate_client) all
      ]

  id_confined :
      (env : MqttEnv) (session : Session)
      → Keeps IsConfinedPlugin (authenticate_id {tiny = tiny} env session)
  unfolding authenticate_id
  id_confined env session =
      if_Keeps IsConfinedPlugin (has_sub "@" session.client_id) _ _
        (bind-Keeps IsConfinedPlugin _ _
          (need-Keeps IsConfinedPlugin index_error (item 0 (split b'@' session.client_id)))
          (λ user.
            bind-Keeps IsConfinedPlugin _ _
              (need-Keeps IsConfinedPlugin index_error (item 1 (split b'@' session.client_id)))
              (λ details.
                bind-Keeps IsConfinedPlugin _ _
                  (need-Keeps IsConfinedPlugin index_error (item 0 (split b'/' details)))
                  (λ realm.
                    if_Keeps IsConfinedPlugin (has_sub "ecouser" details) _ _
                      (client_confined env session user realm (item 1 (split b'/' details)))
                      (bind-Keeps IsConfinedPlugin _ _
                        (need-Keeps IsConfinedPlugin index_error (item 1 (split b'/' details)))
                        (λ resource. bot_confined env session user realm resource))))))
        (pure-Keeps IsConfinedPlugin false)

  file_confined :
      (env : MqttEnv) (session : Session)
      → Keeps IsConfinedPlugin (authenticate_file {tiny = tiny} env session)
  unfolding Keeps authenticate_file
  file_confined env session s all = elim (Bool-cases (session.username == "")) [
    | inl e ↦ rw (e, authenticate_file) all
    | inr e ↦ elim (Option-cases (lookup session.username s.users)) [
      | inl h ↦ rw (e, authenticate_file) (rw (h) all)
      | inr (pwd_hash, h) ↦ elim (Bool-cases (pwd_hash == "")) [
        | inl f ↦ rw (e, authenticate_file) (rw (h) (rw (f) all))
        | inr f ↦
            rw (e, authenticate_file)
              (rw (h) (rw (f) (need-Keeps IsConfinedPlugin value_error _ s all)))
      ]
    ]
  ]

  authenticate_confined :
      (env : MqttEnv) (session : Session)
      → Keeps IsConfinedPlugin (try_authenticate {tiny = tiny} env session)
  unfolding try_authenticate
  authenticate_confined env session =
      if_Keeps IsConfinedPlugin (session.client_id == helper_bot_client_id) _ _
        (pure-Keeps IsConfinedPlugin true)
        (bind-Keeps IsConfinedPlugin (authenticate_id env session) _ (id_confined env session)
          (λ accepted.
            if_Keeps IsConfinedPlugin accepted _ _ (pure-Keeps IsConfinedPlugin true)
              (file_confined env session)))

  set_bot_confined :
      (connected : Bool) (bot : Document BotDoc)
      → Keeps IsConfinedPlugin (set_bot {tiny = tiny} connected bot)
  unfolding Keeps
  set_bot_confined connected bot =
      bind-Keeps IsConfinedPlugin _ _ (need-Keeps IsConfinedPlugin key_error bot.fields.did)
        (λ did s all. all)

  set_client_confined :
      (connected : Bool) (client : Option (Document ClientDoc))
      → Keeps IsConfinedPlugin (set_client {tiny = tiny} connected client)
  unfolding Keeps
  set_client_confined connected none s all = all
  set_client_confined connected (some client) s all = elim (Option-cases client.fields.resource) [
    | inl h ↦ rw h all
    | inr (resource, h) ↦ rw h all
  ]

  flag_confined :
      (client_id : String) (connected : Bool)
      → Keeps IsConfinedPlugin (set_client_connected {tiny = tiny} client_id connected)
  unfolding Keeps set_client_connected
  flag_confined client_id connected s all =
      elim (Option-cases (bot_get (or_empty (item 0 (split b'@' client_id))) s.db)) [
        | inl h ↦ elim (Option-cases (item 1 (split b'@' client_id))) [
          | inl h1 ↦ rw (h, set_client_connected) (rw (h1) all)
          | inr (details, h1) ↦ elim (Option-cases (item 1 (split b'/' details))) [
            | inl h2 ↦ rw (h, set_client_connected) (rw (h1) (rw (h2) all))
            | inr (resource, h2) ↦
                rw (h, set_client_connected)
                  (rw (h1)
                    (rw (h2) (set_client_confined connected (client_get resource s.db) s all)))
          ]
        ]
        | inr (bot, h) ↦ rw (h, set_client_connected) (set_bot_confined connected bot s all)
      ]

  left_confined :
      (env : MqttEnv) (client_id : String)
      → Keeps IsConfinedPlugin (on_broker_client_disconnected {tiny = tiny} env client_id)
  unfolding Keeps on_broker_client_disconnected
  left_confined env client_id s all = elim (Bool-cases env.proxy_mqtt) [
    | inl e ↦
        rw (e, on_broker_client_disconnected)
          (flag_confined client_id false _ (All-remove_entry IsConfined client_id s.proxies all))
    | inr e ↦ rw (e, on_broker_client_disconnected) (flag_confined client_id false s all)
  ]

  run_event_confined :
      (env : MqttEnv) (e : Event) (s : Plugin tiny)
      → IsConfinedPlugin s
      → IsConfinedPlugin (run_event env e s)
  unfolding Keeps run_event authenticate on_broker_client_connected
  run_event_confined env (session_opens session) = authenticate_confined env session
  run_event_confined env (client_connects client_id) = flag_confined client_id true
  run_event_confined env (client_subscribes client_id topic) =
      subscribed_confined env client_id topic
  run_event_confined env (message_received client_id topic message) =
      received_confined tiny env client_id topic message
  run_event_confined env (vendor_sends client_id topic message) =
      vendor_confined client_id topic message
  run_event_confined env (request_expires client_id request) = expire_confined client_id request
  run_event_confined env (client_leaves client_id) = left_confined env client_id

  run_events_confined :
      (env : MqttEnv) (es : List Event) (s : Plugin tiny)
      → IsConfinedPlugin s
      → IsConfinedPlugin (run_events env es s)
  unfolding run_events
  run_events_confined env [] s all = all
  run_events_confined env (e ∷ es) s all =
      run_events_confined env es (run_event env e s) (run_event_confined env e s all)

module _ {tiny : TinyDb} where
  -- Whatever sessions, messages, subscriptions, expiries and disconnections happen, in any order, from
  -- a plugin without proxies: what a proxy has published to the vendor's server never names
  -- "proxyhelper" as its sender or as its receiver, and the proxy keeps no request under that name.
  pub run_events-IsConfined :
      (env : MqttEnv) (es : List Event) (client_id : String) (proxy : Proxy) (s : Plugin tiny)
      → s.proxies ≡ []
      → find_proxy client_id (run_events env es s).proxies ≡ some proxy
      → IsConfined proxy
  run_events-IsConfined env es client_id proxy s fresh found =
      find_proxy-all client_id proxy (run_events env es s).proxies
        (run_events_confined tiny env es s (rw fresh all_nil)) found
