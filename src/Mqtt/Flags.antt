-- ===== src/Mqtt/Flags.antt =====
-- The flag of a bot in the database follows the callbacks of bumper/mqtt/server.py.
use bumper.Prelude.{
  ◌≡◌, refl, ap, ◌∙◌, String, ◌==◌, Bool, true, false, some, inl, inr, Bool-cases, if◌then◌else◌,
}
use bumper.Prelude.Exec.{ok}
use bumper.Prelude.Text.{split}
use bumper.Tiny.{TinyDb}
use bumper.Tiny.Rows.{Document}
use bumper.Db.Documents.{BotDoc}
use bumper.Db.Bots.{bot_get, bot_set_mqtt}
use bumper.Db.Bots.Views.{bot_view, bot_view_did, view-bot_set, document_of_view, map_of_view}
use bumper.Mqtt.{MqttEnv, Plugin}
use bumper.Mqtt.Sessions.{on_db, set_client_connected}
use bumper.Mqtt.Messages.{remove_entry, on_broker_client_connected, on_broker_client_disconnected}
use bumper.Xmpp.Auth.{item}

module _ {tiny : TinyDb} where
  known_bot :
      (did : String) (flag : Bool) (r : Document BotDoc) (client_id : String) (s : Plugin tiny)
      → item 0 (split b'@' client_id) ≡ some did
      → bot_get did s.db ≡ some r
      → r.fields.did ≡ some did
      → set_client_connected client_id flag s ≡ (ok tt, on_db (bot_set_mqtt did flag) s)
  unfolding set_client_connected
  known_bot did flag r client_id s did_is r_is named =
      rw (did_is, set_client_connected) (rw r_is (rw named refl))

  -- Both callbacks return where the part of the client id before the "@" is the did of a bot: the
  -- first marks that bot as connected on MQTT, the second as not connected, also in proxy mode, and
  -- what `bot_get` finds for every other did stays as it was.
  pub connected_flags :
      (env : MqttEnv) (client_id did j : String) (b : BotDoc) (s : Plugin tiny)
      → item 0 (split b'@' client_id) ≡ some did
      → bot_view did s.db ≡ some b
      → (let on = on_broker_client_connected client_id s in
          let off = on_broker_client_disconnected env client_id s in
          ((on.0 ≡ ok tt)
            × (bot_view j on.1.db ≡ (
                if did == j
                then some (record b { mqtt_connection = some true })
                else bot_view j s.db)))
          × ((off.0 ≡ ok tt)
              × (bot_view j off.1.db ≡ (
                  if did == j
                  then some (record b { mqtt_connection = some false })
                  else bot_view j s.db))))
  unfolding on_broker_client_connected on_broker_client_disconnected
  connected_flags env client_id did j b s did_is known = (
    marked true s known,
    elim (Bool-cases env.proxy_mqtt) [
      | inl e ↦
          rw (e, on_broker_client_disconnected)
            (marked false (record s { proxies = remove_entry client_id s.proxies }) known)
      | inr e ↦ rw (e, on_broker_client_disconnected) (marked false s known)
    ],
  )
    where
      marked :
          (flag : Bool) (t : Plugin tiny)
          → bot_view did t.db ≡ some b
          → ((set_client_connected client_id flag t).0 ≡ ok tt)
            × (bot_view j (set_client_connected client_id flag t).1.db ≡ (
                if did == j
                then some (record b { mqtt_connection = some flag })
                else bot_view j t.db))
      marked flag t there =
          let (r, r_is, same) = document_of_view did b t.db there in
          let named = ap BotDoc.did same ∙ bot_view_did did t.db b there in
          rw (known_bot did flag r client_id t did_is r_is named) (
            refl,
            (view-bot_set did j "" flag t.db).1
                ∙ map_of_view did j (λ b. record b { mqtt_connection = some flag }) b t.db there,
          )
