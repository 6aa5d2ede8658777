-- ===== src/Web/Plugins/Devmanager/Sends.antt =====
-- Which commands the handlers of bumper/web/plugins/api/iot.py and dim.py hand to the helper bot.
use bumper.Prelude.{
  ◌≡◌, refl, ◌∙◌, String, ◌==◌, Bool, true, false, Option, some, if◌then◌else◌, eq_refl,
}
use bumper.Prelude.Text.{split}
use bumper.Tiny.{TinyDb}
use bumper.Db.{Db}
use bumper.Db.Documents.{BotDoc}
use bumper.Db.Bots.Views.{bot_view, document_of_view}
use bumper.Json.{Json, Fields, text, field_of}
use bumper.Mqtt.{MqttEnv, Plugin}
use bumper.Mqtt.Flags.{connected_flags}
use bumper.Mqtt.Messages.{on_broker_client_connected, on_broker_client_disconnected}
use bumper.Web.Plugins.Devmanager.{
  answers, sends, iot_accepts, dim_accepts, iot_error, dim_error, to_receiver, decide,
  handle_devmanager_bot_command, handle_dim_devmanager,
}
use bumper.Xmpp.Auth.{item}

module _ {tiny : TinyDb} where
  decide_known :
      (accepts : BotDoc → Option Bool) (error : Json) (third : String) (body : Fields)
      → (id did : String) (b : BotDoc) (accepted : Bool) (db : Db tiny)
      → field_of "toId" body ≡ some (text did)
      → (did == "") ≡ false
      → bot_view did db ≡ some b
      → accepts b ≡ some accepted
      → decide accepts error third (some body) id db
        ≡ (if accepted then sends body id else answers error)
  unfolding decide to_receiver
  decide_known accepts error third body id did b accepted db to_is some_did known accepts_is =
      let (r, r_is, same) = document_of_view did b db known in
      rw (to_is, decide) (rw (some_did) (rw (r_is, to_receiver) (rw (same, accepts_is) refl)))

  -- A bot with a company "eco-ng" is known, and the part of a client id before the "@" is its did. A
  -- command for it is sent by dim.py after the client has connected to the broker, and answered with the
  -- error after it has disconnected; iot.py sends it in both cases.
  pub handle_dim_follows :
      (env : MqttEnv) (client_id did id : String) (b : BotDoc) (body : Fields) (s : Plugin tiny)
      → item 0 (split b'@' client_id) ≡ some did
      → (did == "") ≡ false
      → bot_view did s.db ≡ some b
      → b.company ≡ some "eco-ng"
      → field_of "toId" body ≡ some (text did)
      → (let on = (on_broker_client_connected client_id s).1.db in
          let off = (on_broker_client_disconnected env client_id s).1.db in
          (handle_dim_devmanager (some body) id on ≡ sends body id)
          × (handle_dim_devmanager (some body) id off ≡ answers (dim_error id))
          × (handle_devmanager_bot_command (some body) id on ≡ sends body id)
          × (handle_devmanager_bot_command (some body) id off ≡ sends body id))
  unfolding handle_dim_devmanager handle_devmanager_bot_command dim_accepts iot_accepts
  handle_dim_follows env client_id did id b body s did_is some_did known company_is to_is = (
    decide_known dim_accepts (dim_error id) "ReceiveShareDevice" body id did (marked true) true
        on.db to_is some_did known_on (rw company_is refl),
    decide_known dim_accepts (dim_error id) "ReceiveShareDevice" body id did (marked false) false
        off.db to_is some_did known_off (rw company_is refl),
    decide_known iot_accepts (iot_error id) "PreWifiConfig" body id did (marked true) true on.db
        to_is some_did known_on (rw company_is refl),
    decide_known iot_accepts (iot_error id) "PreWifiConfig" body id did (marked false) true off.db
        to_is some_did known_off (rw company_is refl),
  )
    where
      on : Plugin tiny
      on = (on_broker_client_connected client_id s).1

      off : Plugin tiny
      off = (on_broker_client_disconnected env client_id s).1

      marked : Bool → BotDoc
      marked flag = record b { mqtt_connection = some flag }

      known_on : bot_view did on.db ≡ some (marked true)
      known_on =
          (connected_flags env client_id did did b s did_is known).0.1 ∙ rw (eq_refl did) refl

      known_off : bot_view did off.db ≡ some (marked false)
      known_off =
          (connected_flags env client_id did did b s did_is known).1.1 ∙ rw (eq_refl did) refl
