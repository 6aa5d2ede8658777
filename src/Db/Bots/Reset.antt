-- ===== src/Db/Bots/Reset.antt =====
-- `bot_reset_connection_status` of bumper/db.py, which `start` of bumper/__init__.py runs first.
use mathlib.Core.Option
use bumper.Prelude.{
  String, ◌≡◌, refl, ◌∙◌, Bool, false, not, ◌==◌, Option, none, some, List, [], ◌∷◌, arith, inl,
  inr, if◌then◌else◌, is_some, Option-cases,
}
use bumper.Prelude.Exec.{ok, err, key_error}
use bumper.Tiny.{TinyDb}
use bumper.Tiny.Rows.{Document, any_match, first}
use bumper.Tiny.Rows.Laws.{fields_of, any_match-first, any_match-append}
use bumper.Tiny.Laws.{all-upsert_none}
use bumper.Db.{Db}
use bumper.Db.Documents.{BotDoc}
use bumper.Db.Bots.{
  did_is, bot_get, bot_set_nick, bot_set_mqtt, bot_set_xmpp, reset_bots,
  bot_reset_connection_status,
}
use bumper.Db.Bots.Views.{bot_view, view-bot_set}

-- A document without the key `did`.
abbrev pub lacks_did : BotDoc → Bool
lacks_did b = not (is_some b.did)

abbrev pub offline : BotDoc → BotDoc
offline b = record b { mqtt_connection = some false; xmpp_connection = some false }

offline-offline :
    (o : Option BotDoc) → Option.map offline (Option.map offline o) ≡ Option.map offline o
offline-offline none = refl
offline-offline (some b) = refl

fields-unmatched : (o : Option (Document BotDoc)) → is_some o ≡ false → fields_of o ≡ none
fields-unmatched none h = refl
fields-unmatched (some r) h = cc

module _ {tiny : TinyDb} where
  result-reset_bots :
      (l : List (Document BotDoc)) (db : Db tiny)
      → (reset_bots l db).0 ≡ (if any_match lacks_did l then err key_error else ok tt)
  unfolding reset_bots any_match
  result-reset_bots [] db = refl
  result-reset_bots (r ∷ l) db = elim (Option-cases r.fields.did) [
    | inl e ↦ rw (e, reset_bots)
    | inr (d, e) ↦ rw (e, reset_bots) (result-reset_bots l _)
  ]

  view-reset_bot :
      (did j : String) (db : Db tiny)
      → bot_view j (bot_set_xmpp did false (bot_set_mqtt did false db))
        ≡ (if did == j then Option.map offline (bot_view j db) else bot_view j db)
  view-reset_bot did j db =
      let mqtt = (view-bot_set did j "" false db).1 in
      let xmpp = (view-bot_set did j "" false (bot_set_mqtt did false db)).2 in
      ground (arith, mqtt, xmpp)

  view-reset_bots :
      (j : String) (l : List (Document BotDoc)) (db : Db tiny)
      → any_match lacks_did l ≡ false
      → bot_view j (reset_bots l db).1
        ≡ (if any_match (did_is j) l then Option.map offline (bot_view j db) else bot_view j db)
  unfolding reset_bots any_match
  view-reset_bots j [] db h = refl
  view-reset_bots j (r ∷ l) db h = elim (Option-cases r.fields.did) [
    | inl e ↦ absurd (cc (rw (e, any_match) at h))
    | inr (d, e) ↦
        let db' : Db tiny = bot_set_xmpp d false (bot_set_mqtt d false db) in
        rw (e, reset_bots)
          (ground (
            arith,
            view-reset_bots j l db',
            rw e at h,
            view-reset_bot d j db,
            offline-offline (bot_view j db),
          ))
  ]

  view-unmatched :
      (j : String) (db : Db tiny)
      → any_match (did_is j) (tiny.all db.bots) ≡ false
      → bot_view j db ≡ none
  unfolding bot_view bot_get
  view-unmatched j db h =
      rw tiny.get_first
        (fields-unmatched (first (did_is j) (tiny.all db.bots)) (any_match-first (did_is j) _ ∙ h))

  -- The reset raises a KeyError exactly when some document of `bots` lacks the key `did`, and
  -- returns otherwise.
  pub result-bot_reset :
      (db : Db tiny)
      → (bot_reset_connection_status db).0
        ≡ (if any_match lacks_did (tiny.all db.bots) then err key_error else ok tt)
  unfolding bot_reset_connection_status
  result-bot_reset db = result-reset_bots (tiny.all db.bots) db

  -- If every document of `bots` has a `did`, the reset leaves for each did the bot that was found
  -- before, with both connection flags false and its other fields as they were.
  pub view-bot_reset :
      (db : Db tiny) (j : String)
      → any_match lacks_did (tiny.all db.bots) ≡ false
      → bot_view j (bot_reset_connection_status db).1 ≡ Option.map offline (bot_view j db)
  unfolding bot_reset_connection_status
  view-bot_reset db j h =
      ground (arith, view-reset_bots j (tiny.all db.bots) db, view-unmatched j db)

  -- `bot_set_nick` for a did that `bot_get` does not find makes the next reset raise a KeyError.
  pub reset-nick_of_unknown :
      (did nick : String) (db : Db tiny)
      → bot_get did db ≡ none
      → (bot_reset_connection_status (bot_set_nick did nick db)).0 ≡ err key_error
  unfolding bot_set_nick bot_get
  reset-nick_of_unknown did nick db h =
      rw
        (
          result-bot_reset (bot_set_nick did nick db),
          all-upsert_none,
          tiny.all-insert,
          any_match-append,
        )
        (unfold any_match in ground arith)
