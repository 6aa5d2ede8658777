-- ===== src/Db/Bots/Views.antt =====
-- The bot that `bot_get` finds, after each operation on the table `bots`.
use mathlib.Core.Option
use bumper.Prelude.{
  String, ◌≡◌, Bool, refl, sym, ◌∙◌, inl, inr, true, ◌==◌, ◌&&◌, Option, none, some, arith, eq_iff,
  eq_comm, if◌then◌else◌, Option-cases, Bool-cases, map-if, field_is_sound,
}
use bumper.Tiny.{TinyDb}
use bumper.Tiny.Rows.{Document}
use bumper.Tiny.Rows.Laws.{or_else, fields_of}
use bumper.Tiny.Laws.{view, view-upsert, view_sound, view-upsert_none, or_else-none}
use bumper.Db.{Db}
use bumper.Db.Documents.{BotDoc, bot_asdict, update_bot, no_bot}
use bumper.Db.Bots.{
  did_is, is_acceptable, bot_get, upsert_bot, bot_add, bot_set_nick, bot_set_mqtt, bot_set_xmpp,
}

module _ {tiny : TinyDb} where
  -- The fields of the bot that `bot_get` finds.
  unfoldable pub bot_view : String → Db tiny → Option BotDoc
  bot_view did db = fields_of (bot_get did db)

  view-bots : (did : String) (db : Db tiny) → bot_view did db ≡ view tiny (did_is did) db.bots
  unfolding bot_view bot_get view
  view-bots did db = refl

  pub bot_view_did :
      (did : String) (db : Db tiny) (b : BotDoc) → bot_view did db ≡ some b → b.did ≡ some did
  bot_view_did did db b h =
      field_is_sound b.did did (view_sound tiny (did_is did) db.bots b (sym (view-bots did db) ∙ h))

  -- A patch that names no `did` updates the bot of that did, and no other.
  pub view-upsert_patch :
      (did j : String) (patch : BotDoc) (db : Db tiny)
      → patch.did ≡ none
      → bot_view j (upsert_bot did patch db)
        ≡ (if did == j then Option.map (λ b. update_bot b patch) (bot_view j db) else bot_view j db)
  view-upsert_patch did j patch db h =
      rw
        (
          view-bots j (upsert_bot did patch db),
          view-upsert tiny update_bot patch (did_is did) (did_is j) db.bots (rw h) (λ e. rw h),
          ← view-bots j db,
        )
        (map-if (did_is did) (λ b. update_bot b patch) (did == j) (bot_view j db)
          (λ b e. rw (bot_view_did j db b e) (eq_comm j did)))

  view-upsert_new :
      (did j : String) (d : BotDoc) (db : Db tiny)
      → bot_get did db ≡ none
      → bot_view j (upsert_bot did d db)
        ≡ or_else (bot_view j db) (if did_is j d then some d else none)
  unfolding bot_view bot_get view
  view-upsert_new did j d db h =
      view-upsert_none tiny update_bot d (did_is did) (did_is j) db.bots h

  found-bot :
      (did j : String) (db : Db tiny) (r : Document BotDoc)
      → bot_get did db ≡ some r
      → did == j ≡ true
      → (b : BotDoc) × (bot_view j db ≡ some b)
  unfolding bot_view
  found-bot did j db r e h = (r.fields, rw (← (eq_iff did j).0 h, e))

  -- What `bot_get` finds for any did after `bot_add`: the bot that was there; else the new bot, if
  -- the did is the given one and the serial number and class are acceptable; else nothing.
  pub view-bot_add :
      (sn did dev_class resource company j : String) (db : Db tiny)
      → bot_view j (bot_add sn did dev_class resource company db)
        ≡ or_else (bot_view j db) (
            if did == j && is_acceptable sn dev_class
            then some (bot_asdict sn did dev_class resource company)
            else none)
  unfolding bot_add
  view-bot_add sn did dev_class resource company j db = elim (Option-cases (bot_get did db)) [
    | inl e ↦
        rw (e, bot_add)
          (ground (
            arith,
            view-upsert_new did j (bot_asdict sn did dev_class resource company) db e,
            or_else-none (bot_view j db),
          ))
    | inr (r, e) ↦ rw (e, bot_add) (ground (arith, eq_iff did j, found-bot did j db r e))
  ]

  -- Each setter changes its one field of the bot with the given did, if there is one, and what
  -- `bot_get` finds for every other did stays as it was; no bot comes to be found that was not.
  pub view-bot_set :
      (did j nick : String) (flag : Bool) (db : Db tiny)
      → (bot_view j (bot_set_nick did nick db) ≡ (
          if did == j
          then Option.map {A = BotDoc} (λ b. record b { nick = some nick }) (bot_view j db)
          else bot_view j db))
        × (bot_view j (bot_set_mqtt did flag db) ≡ (
            if did == j
            then Option.map {A = BotDoc}
                (λ b. record b { mqtt_connection = some flag })
                (bot_view j db)
            else bot_view j db))
        × (bot_view j (bot_set_xmpp did flag db) ≡ (
            if did == j
            then Option.map {A = BotDoc}
                (λ b. record b { xmpp_connection = some flag })
                (bot_view j db)
            else bot_view j db))
  unfolding bot_set_nick bot_set_mqtt bot_set_xmpp
  view-bot_set did j nick flag db = (
    view-upsert_patch did j (record no_bot { nick = some nick }) db refl,
    view-upsert_patch did j (record no_bot { mqtt_connection = some flag }) db refl,
    view-upsert_patch did j (record no_bot { xmpp_connection = some flag }) db refl,
  )

  -- The document behind what is found.
  pub document_of_view :
      (did : String) (b : BotDoc) (db : Db tiny)
      → bot_view did db ≡ some b
      → (r : Document BotDoc) × (bot_get did db ≡ some r) × (r.fields ≡ b)
  unfolding bot_view
  document_of_view did b db known = elim (Option-cases (bot_get did db)) [
    | inl e ↦ cc
    | inr (r, e) ↦ (r, e, cc)
  ]

  -- A change of the bot of one did, where that bot is known.
  pub map_of_view :
      (did j : String) (f : BotDoc → BotDoc) (b : BotDoc) (db : Db tiny)
      → bot_view did db ≡ some b
      → (if did == j then Option.map f (bot_view j db) else bot_view j db)
        ≡ (if did == j then some (f b) else bot_view j db)
  map_of_view did j f b db known = elim (Bool-cases (did == j)) [
    | inl e ↦ rw (e, ← (eq_iff did j).0 e, known) refl
    | inr e ↦ rw e refl
  ]
