-- ===== src/Mqtt.antt =====
-- bumper/mqtt/server.py: `BumperMQTTServerPlugin`, which authenticates the sessions of the broker,
-- marks bots and clients in the database, and passes messages to the proxies.
pub mod Sessions
pub mod Messages
pub mod Access
pub mod Flags
pub mod Vendor
pub mod Helper
mod Tests
use bumper.Prelude.{ℕ, String, Bool, Option, List}
use bumper.Tiny.{TinyDb}
use bumper.Db.{Db}

-- `bumper.use_auth`, `bumper.bumper_proxy_mqtt`, the configuration's `allow-anonymous` (`none` if the
-- key is missing), `pwd_context.verify` of a password and a hash, where `none` raises, and whether
-- `dns.resolve` and the connection of a proxy return, rather than raise.
pub record MqttEnv : Type 0 where
  pub use_auth : Bool
  pub proxy_mqtt : Bool
  pub allow_anonymous : Option Bool
  pub verify : String → String → Option Bool
  pub resolves : Bool
  pub connects : Bool

-- A session's user name, password and client id. The password may be missing; a session without a
-- user name is not modelled.
pub record Session : Type 0 where
  pub username : String
  pub password : Option String
  pub client_id : String

-- A proxy client: what it has published, as topic and message, its `request_mapper`, and the topics
-- that it has subscribed to.
pub record Proxy : Type 0 where
  pub published : List (String × String)
  pub request_mapper : List (String × String)
  pub topics : List String

-- `_users`, `_proxy_clients` and the database
pub record Plugin (tiny : TinyDb) : Type 0 where
  pub users : List (String × String)
  pub proxies : List (String × Proxy)
  pub db : Db tiny
