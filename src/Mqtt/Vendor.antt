-- ===== src/Mqtt/Vendor.antt =====
-- bumper/mqtt/proxy.py: what `ProxyClient` does with a message of the vendor's server. The loop of
-- `_handle_messages` catches every exception, so a message that raises publishes nothing.
pub mod Entries
pub mod Relay
pub mod Confined
mod Tests
use bumper.Prelude.{String, ◌==◌, Option, none, some, List, if◌then◌else◌}
use bumper.Prelude.Exec.{Exec, Result, ok, err, index_error, pure, need, modify, ◌>>=◌, ◌>>◌}
use bumper.Prelude.Text.{split, join}
use bumper.Tiny.{TinyDb}
use bumper.Mqtt.{Proxy, Plugin}
use bumper.Mqtt.Sessions.{set_entry}
use bumper.Mqtt.Messages.{set_item, remove_entry, find_proxy, set_proxy}
use bumper.Xmpp.Auth.{item}

-- A request to a bot: the sender is kept under the request's id, and `proxyhelper` takes its place.
unfoldable pub mapped : List String → String → String → Exec Proxy (Option (String × String))
mapped parts sender message = if sender == "proxyhelper" then pure none else (do
  request ← need index_error (item 10 parts)
  modify (λ proxy. record proxy { request_mapper = set_entry request sender proxy.request_mapper })
  pure (some (join (set_item 3 "proxyhelper" parts), message)))

-- One round of `_handle_messages`, on the parts of the topic: what the helper bot publishes.
unfoldable pub handle_parts : List String → String → String → Exec Proxy (Option (String × String))
unfolding mapped
handle_parts parts topic message = do
  kind ← need index_error (item 1 parts)
  if kind == "p2p"
      then (do sender ← need index_error (item 3 parts); mapped parts sender message)
      else pure (some (topic, message))

unfoldable pub handle_message : String → String → Exec Proxy (Option (String × String))
unfolding handle_parts
handle_message topic message = handle_parts (split b'/' topic) topic message

-- `except Exception`
abbrev pub or_nothing : Result (Option (String × String)) → Option (String × String)
or_nothing (ok published) = published
or_nothing (err e) = none

module _ {tiny : TinyDb} where
  -- A message of the vendor's server for the proxy of a client; without one its loop has ended.
  unfoldable pub on_vendor_message :
      String → String → String → Plugin tiny → Option (String × String) × Plugin tiny
  unfolding handle_message
  on_vendor_message client_id topic message s = elim (find_proxy client_id s.proxies) [
    | none ↦ (none, s)
    | some proxy ↦
        let handled = handle_message topic message proxy in
        (or_nothing handled.0, set_proxy client_id handled.1 s)
  ]

  -- An entry of the mapper expires, some time after it was written.
  unfoldable pub expire_request : String → String → Plugin tiny → Plugin tiny
  unfolding remove_entry
  expire_request client_id request s = elim (find_proxy client_id s.proxies) [
    | none ↦ s
    | some proxy ↦
        set_proxy client_id
          (record proxy { request_mapper = remove_entry request proxy.request_mapper }) s
  ]
