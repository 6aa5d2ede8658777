-- ===== src/Db/Documents.antt =====
-- bumper/models.py: the documents of the tables. A document is a Python dict; a field is `none`
-- where the dict lacks that key, as in the documents that an `upsert` of one key inserts.
use bumper.Prelude.{ℕ, String, Bool, false, Option, none, some, List, [], newer}

pub record BotDoc : Type 0 where
  pub bot_class : Option String
  pub company : Option String
  pub did : Option String
  pub name : Option String
  pub nick : Option String
  pub resource : Option String
  pub mqtt_connection : Option Bool
  pub xmpp_connection : Option Bool

-- `userid` is the key of db.py; no document of `users` has a `did`, which `_user_full_upsert` asks for.
pub record UserDoc : Type 0 where
  pub userid : Option String
  pub did : Option String
  pub devices : Option (List String)
  pub bots : Option (List String)

pub record ClientDoc : Type 0 where
  pub userid : Option String
  pub realm : Option String
  pub resource : Option String
  pub mqtt_connection : Option Bool
  pub xmpp_connection : Option Bool

-- `expiration` is the instant that the stored ISO text stands for, in microseconds.
pub record TokenDoc : Type 0 where
  pub userid : Option String
  pub token : Option String
  pub expiration : Option ℕ
  pub authcode : Option String

-- `toDB` writes the key `userId`; db.py asks for `userid`.
pub record OauthDoc : Type 0 where
  pub userid : Option String
  pub user_id : Option String
  pub access_token : Option String
  pub expire_at : Option ℕ
  pub refresh_token : Option String

abbrev pub no_bot : BotDoc
no_bot = record {
  bot_class = none;
  company = none;
  did = none;
  name = none;
  nick = none;
  resource = none;
  mqtt_connection = none;
  xmpp_connection = none;
}

abbrev pub no_user : UserDoc
no_user = record { userid = none; did = none; devices = none; bots = none }

abbrev pub no_client : ClientDoc
no_client = record {
  userid = none;
  realm = none;
  resource = none;
  mqtt_connection = none;
  xmpp_connection = none;
}

abbrev pub no_token : TokenDoc
no_token = record { userid = none; token = none; expiration = none; authcode = none }

abbrev pub no_oauth : OauthDoc
no_oauth = record {
  userid = none;
  user_id = none;
  access_token = none;
  expire_at = none;
  refresh_token = none;
}

-- `VacBotDevice.asdict` of a device that `bot_add` fills in
abbrev pub bot_asdict : String → String → String → String → String → BotDoc
bot_asdict sn did dev_class resource company = record {
  bot_class = some dev_class;
  company = some company;
  did = some did;
  name = some sn;
  nick = some "";
  resource = some resource;
  mqtt_connection = some false;
  xmpp_connection = some false;
}

-- `BumperUser.asdict`
abbrev pub user_asdict : String → UserDoc
user_asdict userid = record { userid = some userid; did = none; devices = some []; bots = some [] }

-- `VacBotClient.asdict`
abbrev pub client_asdict : String → String → String → ClientDoc
client_asdict userid realm resource = record {
  userid = some userid;
  realm = some realm;
  resource = some resource;
  mqtt_connection = some false;
  xmpp_connection = some false;
}

-- Python's `dict.update`, for each kind of document
abbrev pub update_bot : BotDoc → BotDoc → BotDoc
update_bot d e = record {
  bot_class = newer d.bot_class e.bot_class;
  company = newer d.company e.company;
  did = newer d.did e.did;
  name = newer d.name e.name;
  nick = newer d.nick e.nick;
  resource = newer d.resource e.resource;
  mqtt_connection = newer d.mqtt_connection e.mqtt_connection;
  xmpp_connection = newer d.xmpp_connection e.xmpp_connection;
}

abbrev pub update_user : UserDoc → UserDoc → UserDoc
update_user d e = record {
  userid = newer d.userid e.userid;
  did = newer d.did e.did;
  devices = newer d.devices e.devices;
  bots = newer d.bots e.bots;
}

abbrev pub update_client : ClientDoc → ClientDoc → ClientDoc
update_client d e = record {
  userid = newer d.userid e.userid;
  realm = newer d.realm e.realm;
  resource = newer d.resource e.resource;
  mqtt_connection = newer d.mqtt_connection e.mqtt_connection;
  xmpp_connection = newer d.xmpp_connection e.xmpp_connection;
}

abbrev pub update_token : TokenDoc → TokenDoc → TokenDoc
update_token d e = record {
  userid = newer d.userid e.userid;
  token = newer d.token e.token;
  expiration = newer d.expiration e.expiration;
  authcode = newer d.authcode e.authcode;
}
