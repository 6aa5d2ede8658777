-- ===== src/Db.antt =====
-- bumper/db.py: the database file and its five tables.
pub mod Documents
pub mod Users
pub mod Tokens
pub mod Oauths
pub mod Clients
mod Tests
pub mod Bots
use bumper.Tiny.{TinyDb}
use bumper.Db.Documents.{UserDoc, ClientDoc, BotDoc, TokenDoc, OauthDoc}

-- `_db_get` opens the file anew at each use; the file is the state.
pub record Db (tiny : TinyDb) : Type 0 where
  pub users : tiny.Table UserDoc
  pub clients : tiny.Table ClientDoc
  pub bots : tiny.Table BotDoc
  pub tokens : tiny.Table TokenDoc
  pub oauth : tiny.Table OauthDoc

-- `_db_get` on a file that is not there creates the tables.
abbrev pub empty_db : (tiny : TinyDb) → Db tiny
empty_db tiny = record {
  users = tiny.empty UserDoc;
  clients = tiny.empty ClientDoc;
  bots = tiny.empty BotDoc;
  tokens = tiny.empty TokenDoc;
  oauth = tiny.empty OauthDoc;
}
