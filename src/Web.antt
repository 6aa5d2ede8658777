-- ===== src/Web.antt =====
-- bumper/web: what a handler is given, what it answers, and the state that it works on.
pub mod Auth
pub mod Login
pub mod Members
pub mod Entry
pub mod Server
pub mod Plugins
mod Tests
use bumper.Prelude.{ℕ, String, Bool, Option, List}
use bumper.Tiny.{TinyDb}
use bumper.Db.{Db}

-- What `match_info`, `path` and `query` of a request hold.
pub record Request : Type 0 where
  pub devid : Option String
  pub country : Option String
  pub apptype : Option String
  pub path : String
  pub query : List (String × String)

-- The results of `uuid.uuid4().hex` in turn, and the readings of the clock: one for a token that is
-- added, and one for each round of the loop that revokes tokens.
pub record WebEnv : Type 0 where
  pub hex : ℕ → String
  pub now : ℕ
  pub clock : ℕ → ℕ

-- The dict of `_get_login_details`, with the three keys for a global app.
pub record Details : Type 0 where
  pub access_token : String
  pub uid : String
  pub username : String
  pub country : String
  pub email : String
  pub global_names : Option (String × String)

-- The value of the key `data`: null, login details, or an auth code with the uid.
pub data Data : Type 0 where
  null : Data
  details : Details → Data
  auth_code : String → String → Data

-- A JSON answer less its message and its time.
pub record Body : Type 0 where
  pub code : String
  pub contents : Data

-- The database, and how many results of `uuid4` were taken.
pub record Web (tiny : TinyDb) : Type 0 where
  pub db : Db tiny
  pub drawn : ℕ
