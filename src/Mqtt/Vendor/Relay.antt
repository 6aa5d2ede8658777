-- ===== src/Mqtt/Vendor/Relay.antt =====
-- A request of the vendor's server and the answers to it (bumper/mqtt/proxy.py, bumper/mqtt/server.py).
use bumper.Prelude.{◌≡◌, refl, sym, ◌∙◌, String, ◌==◌, true, false, none, some, List, [], ◌∷◌, ◌++◌}
use bumper.Prelude.Exec.{ok}
use bumper.Prelude.Text.{split, join}
use bumper.Tiny.{TinyDb}
use bumper.Mqtt.{MqttEnv, Proxy, Plugin}
use bumper.Mqtt.Sessions.{set_entry}
use bumper.Mqtt.Messages.{
  set_item, remove_entry, find_proxy, set_proxy, converted, publish, forward_message,
  on_broker_message_received,
}
use bumper.Mqtt.Vendor.{mapped, handle_parts, handle_message, on_vendor_message}
use bumper.Mqtt.Vendor.Entries.{
  find_proxy-set_entry, lookup-set_entry, lookup-remove_entry, remove_entry-set_entry,
  remove_entry-remove_entry, split_replaced, part_free, helper_free,
}
use bumper.Xmpp.Auth.{item}
use bumper.Xmpp.Xml.{lookup}

-- A proxy after a request has been handed on.
abbrev pub asked : String → String → Proxy → Proxy
asked request sender proxy = record proxy {
  request_mapper = set_entry request sender proxy.request_mapper;
}

-- A proxy after the answer has been published.
abbrev pub answered : String → String → String → String → Proxy → Proxy
answered request sender answer reply proxy = record proxy {
  published = proxy.published ++ (join (set_item 6 sender (split b'/' answer)), reply) ∷ [];
  request_mapper = remove_entry request proxy.request_mapper;
}

-- A topic for a request: its sender and its id
abbrev pub IsRequest : String → String → String → Type 0
IsRequest topic sender request =
    (item 1 (split b'/' topic) ≡ some "p2p")
    × (item 3 (split b'/' topic) ≡ some sender)
    × (item 10 (split b'/' topic) ≡ some request)
    × ((sender == "proxyhelper") ≡ false)

-- A topic for an answer to a request of the proxy.
abbrev pub IsAnswer : String → String → String → Type 0
IsAnswer topic bot request =
    (item 3 (split b'/' topic) ≡ some bot)
    × (item 6 (split b'/' topic) ≡ some "proxyhelper")
    × (item 10 (split b'/' topic) ≡ some request)
    × ((bot == "proxyhelper") ≡ false)

handle_message_request :
    (topic message sender request : String) (proxy : Proxy)
    → IsRequest topic sender request
    → handle_message topic message proxy ≡ (
      ok (some (join (set_item 3 "proxyhelper" (split b'/' topic)), message)),
      asked request sender proxy,
    )
unfolding handle_message handle_parts mapped
handle_message_request topic message sender request proxy (is_p2p, sender_is, request_is, other) =
    rw (is_p2p, handle_parts, sender_is, mapped) (rw (other) (rw (request_is) refl))

converted_known :
    (parts : List String) (topic request sender : String) (proxy : Proxy)
    → lookup request proxy.request_mapper ≡ some sender
    → (sender == "") ≡ false
    → converted parts topic request proxy ≡ (
      some (join (set_item 6 sender parts)),
      record proxy { request_mapper = remove_entry request proxy.request_mapper },
    )
unfolding converted
converted_known parts topic request sender proxy known named =
    rw (known, converted) (rw (named) refl)

converted_unknown :
    (parts : List String) (topic request : String) (proxy : Proxy)
    → lookup request proxy.request_mapper ≡ none
    → converted parts topic request proxy
      ≡ (none, record proxy { request_mapper = remove_entry request proxy.request_mapper })
unfolding converted
converted_unknown parts topic request proxy unknown = rw (unknown, converted) refl

module _ {tiny : TinyDb} where
  on_vendor_message_request :
      (client_id topic message sender request : String) (proxy : Proxy) (s : Plugin tiny)
      → IsRequest topic sender request
      → find_proxy client_id s.proxies ≡ some proxy
      → on_vendor_message client_id topic message s ≡ (
        some (join (set_item 3 "proxyhelper" (split b'/' topic)), message),
        set_proxy client_id (asked request sender proxy) s,
      )
  unfolding on_vendor_message
  on_vendor_message_request client_id topic message sender request proxy s is_request known =
      rw (known, on_vendor_message)
        (rw (handle_message_request topic message sender request proxy is_request) refl)

  on_answer :
      (env : MqttEnv) (client_id topic message bot request : String) (proxy : Proxy)
      (s : Plugin tiny)
      → IsAnswer topic bot request
      → env.proxy_mqtt ≡ true
      → find_proxy client_id s.proxies ≡ some proxy
      → on_broker_message_received env topic message client_id s
        ≡ (ok tt, publish client_id (converted (split b'/' topic) topic request proxy) message s)
  unfolding on_broker_message_received forward_message
  on_answer env client_id topic message bot request proxy s (bot_is, helper, request_is, other) on
        known =
      rw (helper, on_broker_message_received)
        (rw (on) (
          rw (known)
            (rw (bot_is, forward_message) (rw (other) (rw (helper) (rw (request_is) refl))))))

  -- A request of the vendor's server for a bot with a proxy is handed on under the name "proxyhelper";
  -- the first answer with its id is published to the vendor's server under the name of the one that
  -- asked, and a second answer is not published. In the topics nothing else changes.
  pub relay_lem :
      (env : MqttEnv) (client_id topic message sender request answer reply bot late : String)
      (proxy : Proxy) (s : Plugin tiny)
      → env.proxy_mqtt ≡ true
      → find_proxy client_id s.proxies ≡ some proxy
      → IsRequest topic sender request
      → (sender == "") ≡ false
      → IsAnswer answer bot request
      → (let out = on_vendor_message client_id topic message s in
          let first = on_broker_message_received env answer reply client_id out.1 in
          let second = on_broker_message_received env answer late client_id first.1 in
          ((t : String) × (u : String) × (out.0 ≡ some (t, message))
            × (split b'/' t ≡ set_item 3 "proxyhelper" (split b'/' topic))
            × (first.0 ≡ ok tt)
            × (find_proxy client_id first.1.proxies
                ≡ some (record proxy {
                  published = proxy.published ++ (u, reply) ∷ [];
                  request_mapper = remove_entry request proxy.request_mapper;
                }))
            × (split b'/' u ≡ set_item 6 sender (split b'/' answer))
            × (second.0 ≡ ok tt)
            × (find_proxy client_id second.1.proxies ≡ find_proxy client_id first.1.proxies)))
  unfolding publish
  relay_lem env client_id topic message sender request answer reply bot late proxy s on known
        is_request named is_answer =
      rw (on_vendor_message_request client_id topic message sender request proxy s is_request known)
        (rw (first_is) (
          rw (second_is) (
            join (set_item 3 "proxyhelper" (split b'/' topic)),
            join (set_item 6 sender (split b'/' answer)),
            refl,
            split_replaced 3 "proxyhelper" topic helper_free,
            refl,
            find_proxy-set_entry client_id after t1.proxies,
            split_replaced 6 sender answer (part_free 3 sender topic is_request.1),
            refl,
            find_proxy-set_entry client_id after t2.proxies
                ∙ sym (find_proxy-set_entry client_id after t1.proxies),
          )))
    where
      after : Proxy
      after = record proxy {
        published = proxy.published ++ (join (set_item 6 sender (split b'/' answer)), reply) ∷ [];
        request_mapper = remove_entry request proxy.request_mapper;
      }

      t1 : Plugin tiny
      t1 = set_proxy client_id (asked request sender proxy) s

      t2 : Plugin tiny
      t2 = set_proxy client_id after t1

      t3 : Plugin tiny
      t3 = set_proxy client_id after t2

      first_is : on_broker_message_received env answer reply client_id t1 ≡ (ok tt, t2)
      first_is =
          on_answer env client_id answer reply bot request (asked request sender proxy) t1 is_answer
            on (find_proxy-set_entry client_id (asked request sender proxy) s.proxies)
          ∙ rw
              (
                converted_known (split b'/' answer) answer request sender
                    (asked request sender proxy)
                    (lookup-set_entry request sender proxy.request_mapper) named,
                remove_entry-set_entry request sender proxy.request_mapper,
                publish,
              )
              refl

      second_is : on_broker_message_received env answer late client_id t2 ≡ (ok tt, t3)
      second_is =
          on_answer env client_id answer late bot request after t2 is_answer on
            (find_proxy-set_entry client_id after t1.proxies)
          ∙ rw
              (
                converted_unknown (split b'/' answer) answer request after
                    (lookup-remove_entry request proxy.request_mapper),
                remove_entry-remove_entry request proxy.request_mapper,
                publish,
              )
              refl
