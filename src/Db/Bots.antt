-- ===== src/Db/Bots.antt =====
-- bumper/db.py: the operations on the table `bots`.
pub mod Views
pub mod Reset
pub mod Unique
pub mod Refines
use bumper.Prelude.{
  String, ◌==◌, Bool, false, not, ◌||◌, Option, none, some, List, [], ◌∷◌, if◌then◌else◌, field_is,
}
use bumper.Prelude.Exec.{Exec, ok, err, key_error}
use bumper.Prelude.Text.{has_sub}
use bumper.Tiny.{TinyDb}
use bumper.Tiny.Rows.{Document}
use bumper.Db.{Db}
use bumper.Db.Documents.{BotDoc, no_bot, bot_asdict, update_bot}

abbrev pub did_is : String → BotDoc → Bool
did_is did d = field_is d.did did

-- the test of `bot_add` on what it is given
unfoldable pub is_acceptable : String → String → Bool
is_acceptable sn dev_class = not (dev_class == "") || not (has_sub "@" sn) || not (has_sub "tmp" sn)

module _ {tiny : TinyDb} where
  unfoldable pub bot_get : String → Db tiny → Option (Document BotDoc)
  bot_get did db = tiny.get (did_is did) db.bots

  abbrev pub upsert_bot : String → BotDoc → Db tiny → Db tiny
  upsert_bot did patch db = record db { bots = tiny.upsert update_bot patch (did_is did) db.bots }

  unfoldable pub bot_full_upsert : BotDoc → Db tiny → Db tiny
  bot_full_upsert vacbot db = elim vacbot.did [ none ↦ db | some did ↦ upsert_bot did vacbot db ]

  unfoldable pub bot_add : String → String → String → String → String → Db tiny → Db tiny
  unfolding bot_get bot_full_upsert
  bot_add sn did dev_class resource company db = elim (bot_get did db) [
    | some bot ↦ db
    | none ↦
        if is_acceptable sn dev_class
        then bot_full_upsert (bot_asdict sn did dev_class resource company) db
        else db
  ]

  unfoldable pub bot_remove : String → Db tiny → Db tiny
  unfolding bot_get
  bot_remove did db = elim (bot_get did db) [
    | none ↦ db
    | some bot ↦ record db { bots = tiny.remove bot.doc_id db.bots }
  ]

  unfoldable pub bot_set_nick : String → String → Db tiny → Db tiny
  bot_set_nick did nick = upsert_bot did (record no_bot { nick = some nick })

  unfoldable pub bot_set_mqtt : String → Bool → Db tiny → Db tiny
  bot_set_mqtt did mqtt = upsert_bot did (record no_bot { mqtt_connection = some mqtt })

  unfoldable pub bot_set_xmpp : String → Bool → Db tiny → Db tiny
  bot_set_xmpp did xmpp = upsert_bot did (record no_bot { xmpp_connection = some xmpp })

  -- The loop of `bot_reset_connection_status`, over the documents that were there when it began.
  unfoldable pub reset_bots : List (Document BotDoc) → Exec (Db tiny) (Unit {0})
  unfolding bot_set_mqtt bot_set_xmpp
  reset_bots [] db = (ok tt, db)
  reset_bots (bot ∷ rest) db = elim bot.fields.did [
    | none ↦ (err key_error, db)
    | some did ↦ reset_bots rest (bot_set_xmpp did false (bot_set_mqtt did false db))
  ]

  unfoldable pub bot_reset_connection_status : Exec (Db tiny) (Unit {0})
  unfolding reset_bots
  bot_reset_connection_status db = reset_bots (tiny.all db.bots) db
