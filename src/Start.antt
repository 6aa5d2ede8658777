-- ===== src/Start.antt =====
-- bumper/__init__.py: what is read from the environment, what `start` does before and after it starts
-- the services, the maintenance, and the shutdown.
pub mod Expiry
mod Tests
use bumper.Prelude.{
  ℕ, String, ◌==◌, Bool, true, false, not, ◌||◌, Option, none, some, List, [], ◌∷◌, ◌++◌,
  if◌then◌else◌, contains,
}
use bumper.Prelude.Exec.{Exec, Result, ok, err, pure, ◌>>=◌, ◌>>◌}
use bumper.Tiny.{TinyDb}
use bumper.Db.{Db}
use bumper.Db.Bots.{bot_reset_connection_status}
use bumper.Db.Clients.{client_reset_connection_status}
use bumper.Db.Oauths.{LocalClock, revoke_expired_oauths}
use bumper.Db.Tokens.{revoke_expired_tokens}

-- `strtobool` of a text: the argument is lower-casing.
unfoldable pub strtobool : (String → String) → String → Bool
strtobool lower s = contains (lower s) ("true" ∷ "1" ∷ "t" ∷ "y" ∷ "on" ∷ "yes" ∷ [])

-- `bumper_listen`, and whether the three certificate files exist
pub record Setup : Type 0 where
  pub listen : String
  pub ca_cert : Bool
  pub server_cert : Bool
  pub server_key : Bool

-- What `start` and `shutdown` do with the services, in order; a task begins later.
pub data Service : Type 0 where
  xmpp_start_task mqtt_starts mqtt_awaited helper_starts web_starts maintenance_begins : Service
  helper_disconnects web_shuts_down mqtt_shuts_down xmpp_closes xmpp_awaited : Service

-- What is started where an address and the certificates are there
unfoldable pub services : Setup → List Service
services setup =
    if setup.listen == ""
    then []
    else if not setup.ca_cert || not setup.server_cert || not setup.server_key
    then []
    else xmpp_start_task ∷ mqtt_starts ∷ mqtt_awaited ∷ helper_starts ∷ web_starts
      ∷ maintenance_begins ∷ []

module _ {tiny : TinyDb} where
  -- The connections are reset first, and an exception of that ends the start.
  unfoldable pub start : Setup → Exec (Db tiny) (List Service)
  unfolding services
  start setup =
      bot_reset_connection_status >> client_reset_connection_status >> pure (services setup)

  -- The readings of the clock in the rounds of the two loops
  unfoldable pub maintenance : (ℕ → ℕ) → LocalClock → Exec (Db tiny) (Unit {0})
  maintenance clock later = revoke_expired_tokens clock >> revoke_expired_oauths later

-- The broker at the shutdown, from the states that it has in turn while it is waited for; `none` where
-- it stays in the state "starting".
unfoldable pub shut_down_mqtt : List String → Option (List Service)
shut_down_mqtt [] = none
shut_down_mqtt (state ∷ later) =
    let rest = shut_down_mqtt later in
    if state == "starting"
    then rest
    else if state == "started"
    then some (mqtt_shuts_down ∷ [])
    else some []

-- Whether the XMPP server has a socket. The test `is_serving` is a method that is not called, so it is
-- passed always.
unfoldable pub shut_down_xmpp : Bool → List Service
shut_down_xmpp has_socket = if has_socket then xmpp_closes ∷ xmpp_awaited ∷ [] else []

unfoldable pub shutdown : List String → Bool → List Service
unfolding shut_down_mqtt shut_down_xmpp
shutdown states xmpp =
    helper_disconnects
    ∷ web_shuts_down
    ∷ elim (shut_down_mqtt states) [ none ↦ [] | some l ↦ l ++ shut_down_xmpp xmpp ]
