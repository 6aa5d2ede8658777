-- ===== src/Mqtt/Access.antt =====
-- Whom `authenticate` of bumper/mqtt/server.py lets in.
use bumper.Prelude.{
  ◌≡◌, refl, String, ◌==◌, true, false, not, ◌&&◌, ◌||◌, none, some, inl, inr, Bool-cases,
  if◌then◌else◌,
}
use bumper.Prelude.Exec.{ok}
use bumper.Prelude.Text.{split, has_sub}
use bumper.Tiny.{TinyDb}
use bumper.Tiny.Rows.Laws.{or_else}
use bumper.Db.Bots.{is_acceptable}
use bumper.Db.Bots.Views.{bot_view, view-bot_add}
use bumper.Db.Documents.{bot_asdict}
use bumper.Db.Clients.{client_add}
use bumper.Mqtt.{MqttEnv, Session, Plugin}
use bumper.Mqtt.Sessions.{
  helper_bot_client_id, has_authcode, authenticate_bot, authenticate_client, authenticate_id,
  authenticate_file, try_authenticate, authenticate, is_anonymous_allowed,
}
use bumper.Xmpp.Auth.{item}
use bumper.Xmpp.Xml.{lookup}

module _ {tiny : TinyDb} where
  -- Without proxy mode, a session whose client id is not the helper bot's and names a did, a class and
  -- a resource, and not "ecouser", is let in whatever its password is and whether authentication is on
  -- or off; what `bot_get` finds for any did then is what was there, else, for that did, the new bot,
  -- if the user name and the class are acceptable.
  pub authenticate_any_bot :
      (env : MqttEnv) (session : Session) (did details dev_class resource j : String)
      (s : Plugin tiny)
      → (session.client_id == helper_bot_client_id) ≡ false
      → has_sub "@" session.client_id ≡ true
      → item 0 (split b'@' session.client_id) ≡ some did
      → item 1 (split b'@' session.client_id) ≡ some details
      → item 0 (split b'/' details) ≡ some dev_class
      → item 1 (split b'/' details) ≡ some resource
      → has_sub "ecouser" details ≡ false
      → env.proxy_mqtt ≡ false
      → ((authenticate env session s).0 ≡ true)
        × (bot_view j (authenticate env session s).1.db
            ≡ or_else (bot_view j s.db) (
                if did == j && is_acceptable session.username dev_class
                then some (bot_asdict session.username did dev_class resource "eco-ng")
                else none))
  unfolding authenticate try_authenticate authenticate_id authenticate_bot
  authenticate_any_bot env session did details dev_class resource j s no_helper at did_is details_is
        class_is resource_is no_user no_proxy =
      rw (no_helper, at, authenticate, try_authenticate, authenticate_id)
        (rw (did_is, details_is)
          (rw (class_is, no_user, resource_is)
            (rw (no_proxy, authenticate_bot)
              (refl, view-bot_add session.username did dev_class resource "eco-ng" j s.db))))

  authenticate_file-none :
      (env : MqttEnv) (session : Session) (s : Plugin tiny)
      → lookup session.username s.users ≡ none
      → authenticate_file env session s ≡ (ok false, s)
  unfolding authenticate_file
  authenticate_file-none env session s no_entry = elim (Bool-cases (session.username == "")) [
    | inl e ↦ rw (e, authenticate_file) refl
    | inr e ↦ rw (e, no_entry, authenticate_file) refl
  ]

  -- Without anonymous sessions, a session whose client id names "ecouser" and a resource, with a user
  -- name that the password file lacks: it is let in, and its client is added to the database, exactly
  -- if its password is an auth code of its user or authentication is off; else nothing changes.
  pub authenticate_any_client :
      (env : MqttEnv) (session : Session) (user details realm resource : String) (s : Plugin tiny)
      → (session.client_id == helper_bot_client_id) ≡ false
      → has_sub "@" session.client_id ≡ true
      → item 0 (split b'@' session.client_id) ≡ some user
      → item 1 (split b'@' session.client_id) ≡ some details
      → item 0 (split b'/' details) ≡ some realm
      → item 1 (split b'/' details) ≡ some resource
      → has_sub "ecouser" details ≡ true
      → lookup session.username s.users ≡ none
      → env.allow_anonymous ≡ some false
      → authenticate env session s ≡ (
          if has_authcode user session.password s || not env.use_auth
          then (true, record s { db = client_add user realm resource s.db })
          else (false, s))
  unfolding authenticate try_authenticate authenticate_id authenticate_client authenticate_file
  authenticate_any_client env session user details realm resource s no_helper at user_is details_is
        realm_is resource_is is_user no_entry closed =
      rw (no_helper, at, authenticate, try_authenticate, authenticate_id)
        (rw (user_is, details_is)
          (rw (realm_is, is_user)
            (elim (Bool-cases (has_authcode user session.password s || not env.use_auth)) [
              | inl accepted ↦ rw (accepted, authenticate_client) (rw (resource_is) refl)
              | inr refused ↦
                  rw (refused, authenticate_client)
                    (rw
                      (authenticate_file-none env session s no_entry, is_anonymous_allowed, closed)
                      refl)
            ])))
