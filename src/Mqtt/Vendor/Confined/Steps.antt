-- ===== src/Mqtt/Vendor/Confined/Steps.antt =====
-- What the messages and subscriptions of a proxy keep (bumper/mqtt/proxy.py, bumper/mqtt/server.py).
use bumper.Prelude.{
  ◌≡◌, ◌≢◌, ◌⊎◌, ◌∙◌, sym, subst, some_inj, refl, String, ◌==◌, true, false, none, some, inl, inr,
  Bool-cases, if◌then◌else◌, Option, Option-cases, All-snoc,
}
use bumper.Prelude.Exec.Keeps.{Keeps}
use bumper.Prelude.Text.{split}
use bumper.Tiny.{TinyDb}
use bumper.Mqtt.{MqttEnv, Proxy, Plugin}
use bumper.Mqtt.Messages.{
  find_proxy, set_proxy, converted, publish, forward_message, on_broker_message_received,
  on_broker_client_subscribed,
}
use bumper.Mqtt.Vendor.{handle_message, on_vendor_message, expire_request}
use bumper.Mqtt.Vendor.Confined.{
  IsVendorTopic, IsConfined, AreConfined, converted-IsConfined, All-set_entry, All-remove_entry,
  find_proxy-all, converted_topic, converted-IsVendorTopic, handle_message-IsConfined,
}
use bumper.Xmpp.Auth.{item, or_empty}

none-some : {x : String} → none ≢ some x
none-some h = cc

module _ {tiny : TinyDb} where
  abbrev pub IsConfinedPlugin : Plugin tiny → Type 0
  IsConfinedPlugin s = AreConfined s.proxies

  set_proxy_confined :
      (client_id : String) (proxy : Proxy) (s : Plugin tiny)
      → IsConfinedPlugin s
      → IsConfined proxy
      → IsConfinedPlugin (set_proxy client_id proxy s)
  set_proxy_confined client_id proxy s all h =
      All-set_entry IsConfined client_id proxy s.proxies all h

  pub vendor_confined :
      (client_id topic message : String) (s : Plugin tiny)
      → IsConfinedPlugin s
      → IsConfinedPlugin (on_vendor_message client_id topic message s).1
  unfolding Keeps on_vendor_message
  vendor_confined client_id topic message s all =
      elim (Option-cases (find_proxy client_id s.proxies)) [
        | inl h ↦ rw (h, on_vendor_message) all
        | inr (proxy, h) ↦
            rw (h, on_vendor_message)
              (set_proxy_confined client_id (handle_message topic message proxy).1 s all (
                handle_message-IsConfined topic message proxy
                  (find_proxy-all client_id proxy s.proxies all h)))
      ]

  pub expire_confined :
      (client_id request : String) (s : Plugin tiny)
      → IsConfinedPlugin s
      → IsConfinedPlugin (expire_request client_id request s)
  unfolding expire_request
  expire_confined client_id request s all = elim (Option-cases (find_proxy client_id s.proxies)) [
    | inl h ↦ rw (h, expire_request) all
    | inr (proxy, h) ↦
        let confined = find_proxy-all client_id proxy s.proxies all h in
        rw (h, expire_request)
          (set_proxy_confined client_id _ s all (record {
            names = All-remove_entry _ request proxy.request_mapper confined.names;
            topics_published = confined.topics_published;
          }))
  ]

  publish_confined :
      (client_id message : String) (r : Option String × Proxy) (s : Plugin tiny)
      → IsConfinedPlugin s
      → IsConfined r.1
      → ((topic : String) → r.0 ≡ some topic → IsVendorTopic topic)
      → IsConfinedPlugin (publish client_id r message s)
  unfolding publish
  publish_confined client_id message (none, proxy) s all confined clean =
      set_proxy_confined client_id proxy s all confined
  publish_confined client_id message (some topic, proxy) s all confined clean =
      set_proxy_confined client_id _ s all (record {
        names = confined.names;
        topics_published =
            All-snoc _ (topic, message) proxy.published confined.topics_published
              (clean topic refl);
      })

  answer_confined :
      (client_id topic message request : String) (proxy : Proxy) (s : Plugin tiny)
      → IsConfinedPlugin s
      → IsConfined proxy
      → ((or_empty (item 3 (split b'/' topic)) == "proxyhelper") ≡ false)
      → ((or_empty (item 6 (split b'/' topic)) == "proxyhelper") ≡ true)
      → IsConfinedPlugin
          (publish client_id (converted (split b'/' topic) topic request proxy) message s)
  answer_confined client_id topic message request proxy s all confined sender receiver =
      publish_confined client_id message (converted (split b'/' topic) topic request proxy) s all
        (converted-IsConfined (split b'/' topic) topic request proxy confined)
        (λ t is_t. elim (converted_topic (split b'/' topic) topic request proxy confined) [
          | inl h ↦ elim (none-some (sym h ∙ is_t)) [ ]
          | inr (client, name, h) ↦
              subst IsVendorTopic (some_inj (sym h ∙ is_t))
                (converted-IsVendorTopic topic client name sender receiver)
        ])

  forward_confined :
      (client_id topic message : String) (proxy : Proxy) (s : Plugin tiny)
      → IsConfinedPlugin s
      → IsConfined proxy
      → IsConfinedPlugin (forward_message client_id topic message (split b'/' topic) proxy s).1
  unfolding forward_message
  forward_confined client_id topic message proxy s all confined =
      elim (Bool-cases (or_empty (item 3 (split b'/' topic)) == "proxyhelper")) [
        | inl from_helper ↦ rw (from_helper, forward_message) all
        | inr from_bot ↦ elim (Bool-cases (or_empty (item 6 (split b'/' topic)) == "proxyhelper")) [
          | inl to_helper ↦ elim (Option-cases (item 10 (split b'/' topic))) [
            | inl h ↦ rw (from_bot, forward_message) (rw (to_helper) (rw (h) all))
            | inr (request, h) ↦
                rw (from_bot, forward_message)
                  (rw (to_helper) (
                    rw (h) (
                      answer_confined client_id topic message request proxy s all confined from_bot
                        to_helper)))
          ]
          | inr to_other ↦
              rw (from_bot, forward_message)
                (rw (to_other) (
                  publish_confined client_id message (some topic, proxy) s all confined
                    (λ t is_t. subst IsVendorTopic (some_inj is_t) (from_bot, to_other))))
        ]
      ]

  -- What holds for the proxy of a client, where there is one.
  known_proxy :
      (env : MqttEnv) (client_id : String) (s : Plugin tiny)
      → IsConfinedPlugin s
      → ((if env.proxy_mqtt then find_proxy client_id s.proxies else none) ≡ none)
        ⊎ ((proxy : Proxy) × IsConfined proxy
            × ((if env.proxy_mqtt then find_proxy client_id s.proxies else none) ≡ some proxy))
  known_proxy env client_id s all = elim (Bool-cases env.proxy_mqtt) [
    | inl on ↦ elim (Option-cases (find_proxy client_id s.proxies)) [
      | inl h ↦ inl (rw (on) h)
      | inr (proxy, h) ↦ inr (proxy, find_proxy-all client_id proxy s.proxies all h, rw (on) h)
    ]
    | inr off ↦ inl (rw (off) refl)
  ]

  pub subscribed_confined :
      (env : MqttEnv) (client_id topic : String) (s : Plugin tiny)
      → IsConfinedPlugin s
      → IsConfinedPlugin (on_broker_client_subscribed env client_id topic s)
  unfolding on_broker_client_subscribed
  subscribed_confined env client_id topic s all = elim (known_proxy env client_id s all) [
    | inl absent ↦ rw (absent, on_broker_client_subscribed) all
    | inr (proxy, confined, present) ↦
        rw (present, on_broker_client_subscribed)
          (set_proxy_confined client_id _ s all
            (record { names = confined.names; topics_published = confined.topics_published }))
  ]

module _ (tiny : TinyDb) where
  pub received_confined :
      (env : MqttEnv) (client_id topic message : String)
      → Keeps
          (IsConfinedPlugin {tiny = tiny})
          (on_broker_message_received env topic message client_id)
  unfolding Keeps on_broker_message_received
  received_confined env client_id topic message s all =
      elim (Option-cases (item 6 (split b'/' topic))) [
        | inl h ↦ rw (h, on_broker_message_received) all
        | inr (receiver, h) ↦ elim (known_proxy env client_id s all) [
          | inl absent ↦ rw (h, on_broker_message_received) (rw (absent) all)
          | inr (proxy, confined, present) ↦
              rw (h, on_broker_message_received)
                (rw (present) (forward_confined client_id topic message proxy s all confined))
        ]
      ]
