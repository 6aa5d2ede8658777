-- ===== src/Db/Clients.antt =====
-- bumper/db.py: the operations on the table `clients`.
use bumper.Prelude.{String, Bool, false, not, Option, none, some, List, [], ◌∷◌, field_is}
pub mod Views
pub mod Reset
pub mod Unique
use bumper.Prelude.Exec.{Exec, ok, err, key_error}
use bumper.Tiny.{TinyDb}
use bumper.Tiny.Rows.{Document}
use bumper.Db.{Db}
use bumper.Db.Documents.{ClientDoc, no_client, client_asdict, update_client}

abbrev pub resource_is : String → ClientDoc → Bool
resource_is resource d = field_is d.resource resource

-- `client.xmpp_connection == False`: a document without the key does not match
abbrev pub is_disconnected : ClientDoc → Bool
is_disconnected d = elim d.xmpp_connection [ none ↦ false | some b ↦ not b ]

module _ {tiny : TinyDb} where
  unfoldable pub client_get : String → Db tiny → Option (Document ClientDoc)
  client_get resource db = tiny.get (resource_is resource) db.clients

  unfoldable pub get_disconnected_xmpp_clients : Db tiny → List (Document ClientDoc)
  get_disconnected_xmpp_clients db = tiny.search is_disconnected db.clients

  abbrev pub upsert_client : String → ClientDoc → Db tiny → Db tiny
  upsert_client resource patch db = record db {
    clients = tiny.upsert update_client patch (resource_is resource) db.clients;
  }

  unfoldable pub client_add : String → String → String → Db tiny → Db tiny
  unfolding client_get
  client_add userid realm resource db = elim (client_get resource db) [
    | some client ↦ db
    | none ↦ upsert_client resource (client_asdict userid realm resource) db
  ]

  unfoldable pub client_remove : String → Db tiny → Db tiny
  unfolding client_get
  client_remove resource db = elim (client_get resource db) [
    | none ↦ db
    | some client ↦ record db { clients = tiny.remove client.doc_id db.clients }
  ]

  unfoldable pub client_set_mqtt : String → Bool → Db tiny → Db tiny
  client_set_mqtt resource mqtt =
      upsert_client resource (record no_client { mqtt_connection = some mqtt })

  unfoldable pub client_set_xmpp : String → Bool → Db tiny → Db tiny
  client_set_xmpp resource xmpp =
      upsert_client resource (record no_client { xmpp_connection = some xmpp })

  -- The loop of `client_reset_connection_status`.
  unfoldable pub reset_clients : List (Document ClientDoc) → Exec (Db tiny) (Unit {0})
  unfolding client_set_mqtt client_set_xmpp
  reset_clients [] db = (ok tt, db)
  reset_clients (client ∷ rest) db = elim client.fields.resource [
    | none ↦ (err key_error, db)
    | some resource ↦
        reset_clients rest (client_set_xmpp resource false (client_set_mqtt resource false db))
  ]

  unfoldable pub client_reset_connection_status : Exec (Db tiny) (Unit {0})
  unfolding reset_clients
  client_reset_connection_status db = reset_clients (tiny.all db.clients) db
