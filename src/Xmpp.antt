-- ===== src/Xmpp.antt =====
-- bumper/xmppserver.py: the state of the XMPP server.
pub mod Xml
pub mod State
pub mod Conn
pub mod Auth
pub mod Forward
pub mod Stream
pub mod Follows
pub mod Sending
pub mod Delivery
pub mod Session
pub mod Leaving
mod Tests
use bumper.Prelude.{ℕ, String, Bool, Option, List}
use bumper.Xmpp.Xml.{Element, Parsed}
use bumper.Tiny.{TinyDb}
use bumper.Db.{Db}

-- What the server takes from the configuration and from Python's codecs: `bumper.use_auth`,
-- `base64.b64decode` with its decoding as UTF-8 (`none` raises), `ET.tostring`, `ET.fromstring`,
-- `str.lower`, the replacement of each XML declaration by `re.sub`, and the successive results of `uuid.uuid4`.
pub record Env : Type 0 where
  pub use_auth : Bool
  pub b64decode : String → Option String
  pub tostring : Element → String
  pub fromstring : String → Parsed
  pub replace_declaration : String → String → String
  pub lower : String → String
  pub uuid4 : ℕ → String

-- `UNKNOWN`, `BOT` and `CONTROLLER` of `XMPPAsyncClient`
pub data Kind : Type 0 where
  unknown bot controller : Kind

-- A connection: `XMPPAsyncClient`. `sent` holds what was written to its transports, in order;
-- `transport` is 1 after the upgrade to TLS; `closed` tells that the transport was closed.
pub record Client : Type 0 where
  pub kind : Kind
  pub state : ℕ
  pub clientresource : String
  pub devclass : String
  pub bumper_jid : String
  pub uid : String
  pub tls_upgraded : Bool
  pub transport : ℕ
  pub closed : Bool
  pub sent : List String

-- What was handed to `asyncio.Task` and has not run.
pub data Task : Type 0 where
  starttls ping : ℕ → Task

-- The connections by their numbers, those that `XMPPServer.clients` lists, the database, the tasks
-- that wait, and how often `uuid4` was called.
pub record Server (tiny : TinyDb) : Type 0 where
  pub conn : ℕ → Client
  pub clients : List ℕ
  pub db : Db tiny
  pub tasks : List Task
  pub drawn : ℕ
