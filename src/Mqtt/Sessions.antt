-- ===== src/Mqtt/Sessions.antt =====
-- bumper/mqtt/server.py: `authenticate`, the password file, and the connection's flags.
use bumper.Prelude.{
  String, ◌==◌, Bool, true, false, not, ◌||◌, Option, none, some, List, [], ◌∷◌, if◌then◌else◌,
}
use bumper.Prelude.Exec.{
  Exec, Result, ok, err, key_error, index_error, value_error, pure, need, gets, modify, ◌>>=◌, ◌>>◌,
}
use bumper.Prelude.Text.{split, has_sub}
use text.Mathlib.Text.{starts_with}
use bumper.Tiny.{TinyDb}
use bumper.Tiny.Rows.{Document}
use bumper.Db.{Db}
use bumper.Db.Documents.{BotDoc, ClientDoc}
use bumper.Db.Bots.{bot_add, bot_get, bot_set_mqtt}
use bumper.Db.Clients.{client_add, client_get, client_set_mqtt}
use bumper.Db.Tokens.{check_authcode}
use bumper.Mqtt.{MqttEnv, Session, Proxy, Plugin}
use bumper.Xmpp.Auth.{item, or_empty}
use bumper.Xmpp.Xml.{lookup}

abbrev pub helper_bot_client_id : String
helper_bot_client_id = "helperbot@bumper/helperbot"

-- `d[key] = value` on a dict: in the place of the old entry, else at the end
unfoldable pub set_entry {ℓ} : {A : Type ℓ} → String → A → List (String × A) → List (String × A)
set_entry k v [] = (k, v) ∷ []
set_entry k v ((j, w) ∷ l) = if j == k then (k, v) ∷ l else (j, w) ∷ set_entry k v l

-- One line of the password file, without the white space around it: a comment, or a user name and a
-- hash around one colon. Any other number of colons raises.
unfoldable pub read_line : String → List (String × String) → Result (List (String × String))
read_line line users = if starts_with line "#" then ok users else elim (split b':' line) [
  | [] ↦ err value_error
  | username ∷ rest ↦ elim rest [
    | [] ↦ err value_error
    | pwd_hash ∷ more ↦ elim more [
      | [] ↦ ok (if username == "" then users else set_entry username pwd_hash users)
      | x ∷ l ↦ err value_error
    ]
  ]
]

-- `_read_password_file`, from the lines of the file; without a file there are no users.
unfoldable pub read_lines : List String → List (String × String) → Result (List (String × String))
unfolding read_line
read_lines [] users = ok users
read_lines (line ∷ rest) users = elim (read_line line users) [
  | err e ↦ err e
  | ok more ↦ read_lines rest more
]

unfoldable pub read_password_file : Option (List String) → Result (List (String × String))
unfolding read_lines
read_password_file none = ok []
read_password_file (some lines) = read_lines lines []

abbrev pub new_proxy : Proxy
new_proxy = record { published = []; request_mapper = []; topics = [] }

abbrev pub is_anonymous_allowed : MqttEnv → Bool
is_anonymous_allowed env = elim env.allow_anonymous [ none ↦ true | some b ↦ b ]

-- An exception is caught, and counts as a session that is not accepted.
abbrev pub accepts : Result Bool → Bool
accepts (ok b) = b
accepts (err e) = false

module _ {tiny : TinyDb} where
  abbrev pub on_db : (Db tiny → Db tiny) → Plugin tiny → Plugin tiny
  on_db f s = record s { db = f s.db }

  -- The proxy of a bot, in proxy mode. The entry is there also if the connection raises.
  unfoldable pub start_proxy : MqttEnv → String → Exec (Plugin tiny) Bool
  unfolding set_entry
  start_proxy env client_id s =
      if env.resolves
      then (
        if env.connects then ok true else err value_error,
        record s { proxies = set_entry client_id new_proxy s.proxies },
      )
      else (err value_error, s)

  -- A client id with an "@" of which the second part does not name "ecouser"
  unfoldable pub authenticate_bot :
      MqttEnv → Session → String → String → String → Exec (Plugin tiny) Bool
  unfolding start_proxy
  authenticate_bot env session did dev_class resource s =
      let added = on_db (bot_add session.username did dev_class resource "eco-ng") s in
      if env.proxy_mqtt then start_proxy env session.client_id added else (ok true, added)

  -- `check_authcode(client_id_split[0], password)`: a missing password is no code of a token.
  abbrev pub has_authcode : String → Option String → Plugin tiny → Bool
  has_authcode userid none s = false
  has_authcode userid (some password) s = check_authcode userid password s.db

  -- A client is let in with an auth code of its user, or if authentication is off.
  unfoldable pub authenticate_client :
      MqttEnv → Session → String → String → Option String → Exec (Plugin tiny) Bool
  authenticate_client env session user realm resource s =
      if has_authcode user session.password s || not env.use_auth
      then (do
        resource ← need index_error resource
        modify (on_db (client_add user realm resource))
        pure true)
          s
      else (ok false, s)

  -- Whether the client id makes the session a bot or a client that is let in.
  unfoldable pub authenticate_id : MqttEnv → Session → Exec (Plugin tiny) Bool
  unfolding authenticate_bot authenticate_client
  authenticate_id env session =
      if has_sub "@" session.client_id
      then (do
        user ← need index_error (item 0 (split b'@' session.client_id))
        details ← need index_error (item 1 (split b'@' session.client_id))
        realm ← need index_error (item 0 (split b'/' details))
        (if has_sub "ecouser" details
            then authenticate_client env session user realm (item 1 (split b'/' details))
            else (do
              resource ← need index_error (item 1 (split b'/' details))
              authenticate_bot env session user realm resource)))
      else pure false

  -- The entry of the user name in the password file; an empty hash counts as none.
  unfoldable pub authenticate_file : MqttEnv → Session → Exec (Plugin tiny) Bool
  authenticate_file env session s =
      if session.username == "" then (ok false, s) else elim (lookup session.username s.users) [
        | none ↦ (ok false, s)
        | some pwd_hash ↦
            if pwd_hash == ""
            then (ok false, s)
            else need value_error
                (elim session.password [
                  | none ↦ none
                  | some password ↦ env.verify password pwd_hash
                ])
                s
      ]

  unfoldable pub try_authenticate : MqttEnv → Session → Exec (Plugin tiny) Bool
  unfolding authenticate_id authenticate_file
  try_authenticate env session =
      if session.client_id == helper_bot_client_id then pure true else (do
        accepted ← authenticate_id env session
        if accepted then pure true else authenticate_file env session)

  unfoldable pub authenticate : MqttEnv → Session → Plugin tiny → Bool × Plugin tiny
  unfolding try_authenticate
  authenticate env session s = (
    accepts (try_authenticate env session s).0 || is_anonymous_allowed env,
    (try_authenticate env session s).1,
  )

  abbrev pub set_bot : Bool → Document BotDoc → Exec (Plugin tiny) (Unit {0})
  set_bot connected bot = do
    did ← need key_error bot.fields.did
    modify (on_db (bot_set_mqtt did connected))

  abbrev pub set_client : Bool → Option (Document ClientDoc) → Exec (Plugin tiny) (Unit {0})
  set_client connected none s = (ok tt, s)
  set_client connected (some client) s =
      (do
        resource ← need key_error client.fields.resource
        modify (on_db (client_set_mqtt resource connected)))
        s

  -- Where no bot has the first part as its did, the resource tells the client.
  unfoldable pub set_client_connected : String → Bool → Exec (Plugin tiny) (Unit {0})
  set_client_connected client_id connected s =
      elim (bot_get (or_empty (item 0 (split b'@' client_id))) s.db) [
        | some bot ↦ set_bot connected bot s
        | none ↦
            (do
              details ← need index_error (item 1 (split b'@' client_id))
              resource ← need index_error (item 1 (split b'/' details))
              client ← gets (λ s. client_get resource s.db)
              set_client connected client)
              s
      ]
