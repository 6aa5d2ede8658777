-- ===== src/Db/Bots/Unique.antt =====
-- The table `bots` holds at most one document for each did, whatever the operations, so that
-- `bot_remove` removes the bot.
use bumper.Prelude.{
  String, ◌≡◌, refl, sym, ◌∙◌, ap, subst, Bool, false, ◌==◌, Option, none, some, List, [], ◌∷◌,
  arith, eq_iff, inl, inr, if◌then◌else◌, Bool-cases, Option-cases, field_is,
}
use bumper.Tiny.{TinyDb}
use bumper.Tiny.Rows.{Document, first}
use bumper.Tiny.Rows.Laws.{fields_of}
use bumper.Tiny.Laws.{view}
use bumper.Tiny.Keyed.{
  OneEach, OneEach-upsert_patch, OneEach-upsert_new, OneEach-remove, view-remove,
}
use bumper.Db.{Db}
use bumper.Db.Documents.{BotDoc, no_bot, bot_asdict, update_bot}
use bumper.Db.Bots.{
  did_is, is_acceptable, bot_get, upsert_bot, bot_add, bot_remove, bot_set_nick, bot_set_mqtt,
  bot_set_xmpp, reset_bots, bot_reset_connection_status,
}
use bumper.Db.Bots.Views.{bot_view, bot_view_did}

-- The operations of db.py that write to the table `bots`.
pub data BotOp : Type 0 where
  add : String → String → String → String → String → BotOp
  remove : String → BotOp
  set_nick : String → String → BotOp
  set_mqtt set_xmpp : String → Bool → BotOp
  reset : BotOp

module _ {tiny : TinyDb} where
  -- A reset that raises leaves what it wrote before.
  unfoldable pub run_op : BotOp → Db tiny → Db tiny
  run_op (add sn did dev_class resource company) = bot_add sn did dev_class resource company
  run_op (remove did) = bot_remove did
  run_op (set_nick did nick) = bot_set_nick did nick
  run_op (set_mqtt did flag) = bot_set_mqtt did flag
  run_op (set_xmpp did flag) = bot_set_xmpp did flag
  run_op reset = λ db. (bot_reset_connection_status db).1

  unfoldable pub run_ops : List BotOp → Db tiny → Db tiny
  run_ops [] db = db
  run_ops (op ∷ ops) db = run_ops ops (run_op op db)

  abbrev pub OneEachBot : Db tiny → Type 0
  OneEachBot db = OneEach tiny did_is db.bots

  upsert_patch-OneEachBot :
      (did : String) (patch : BotDoc) (db : Db tiny)
      → patch.did ≡ none
      → OneEachBot db
      → OneEachBot (upsert_bot did patch db)
  upsert_patch-OneEachBot did patch db h =
      OneEach-upsert_patch tiny did_is update_bot patch (did_is did) db.bots (λ k e. rw h)
        (λ k. rw h)

  bot_set_mqtt-OneEachBot :
      (did : String) (flag : Bool) (db : Db tiny)
      → OneEachBot db
      → OneEachBot (bot_set_mqtt did flag db)
  unfolding bot_set_mqtt
  bot_set_mqtt-OneEachBot did flag db =
      upsert_patch-OneEachBot did (record no_bot { mqtt_connection = some flag }) db refl

  bot_set_xmpp-OneEachBot :
      (did : String) (flag : Bool) (db : Db tiny)
      → OneEachBot db
      → OneEachBot (bot_set_xmpp did flag db)
  unfolding bot_set_xmpp
  bot_set_xmpp-OneEachBot did flag db =
      upsert_patch-OneEachBot did (record no_bot { xmpp_connection = some flag }) db refl

  bot_set_nick-OneEachBot :
      (did nick : String) (db : Db tiny) → OneEachBot db → OneEachBot (bot_set_nick did nick db)
  unfolding bot_set_nick
  bot_set_nick-OneEachBot did nick db =
      upsert_patch-OneEachBot did (record no_bot { nick = some nick }) db refl

  upsert_new-OneEachBot :
      (did : String) (d : BotDoc) (db : Db tiny)
      → d.did ≡ some did
      → bot_get did db ≡ none
      → OneEachBot db
      → OneEachBot (upsert_bot did d db)
  unfolding bot_get
  upsert_new-OneEachBot did d db h missing =
      OneEach-upsert_new tiny did_is update_bot d (did_is did) db.bots missing (λ k e.
        subst (λ j. first (did_is j) (tiny.all db.bots) ≡ none) ((eq_iff did k).0 (rw h at e))
          (sym (tiny.get_first (did_is did) db.bots) ∙ missing))

  bot_add-OneEachBot :
      (sn did dev_class resource company : String) (db : Db tiny)
      → OneEachBot db
      → OneEachBot (bot_add sn did dev_class resource company db)
  bot_add-OneEachBot sn did dev_class resource company db h = elim (Option-cases (bot_get did db)) [
    | inl e ↦ elim (Bool-cases (is_acceptable sn dev_class)) [
      | inl a ↦
          unfold bot_add in
          rw (e, bot_add)
            (rw a (
              upsert_new-OneEachBot did (bot_asdict sn did dev_class resource company) db refl e h))
      | inr a ↦ unfold bot_add in rw (e, bot_add) (rw a h)
    ]
    | inr (r, e) ↦ unfold bot_add in rw (e, bot_add) h
  ]

  reset_bots-OneEachBot :
      (l : List (Document BotDoc)) (db : Db tiny) → OneEachBot db → OneEachBot (reset_bots l db).1
  unfolding reset_bots
  reset_bots-OneEachBot [] db h = h
  reset_bots-OneEachBot (r ∷ l) db h = elim (Option-cases r.fields.did) [
    | inl e ↦ rw (e, reset_bots) h
    | inr (d, e) ↦
        rw (e, reset_bots)
          (reset_bots-OneEachBot l (bot_set_xmpp d false (bot_set_mqtt d false db)) (
            bot_set_xmpp-OneEachBot d false (bot_set_mqtt d false db)
              (bot_set_mqtt-OneEachBot d false db h)))
  ]

  bot_remove-OneEachBot :
      (did : String) (db : Db tiny) → OneEachBot db → OneEachBot (bot_remove did db)
  unfolding bot_remove
  bot_remove-OneEachBot did db h = elim (Option-cases (bot_get did db)) [
    | inl e ↦ rw (e, bot_remove) h
    | inr (r, e) ↦ rw (e, bot_remove) (OneEach-remove tiny did_is (did_is did) db.bots r e h)
  ]

  pub run_op-OneEachBot : (op : BotOp) (db : Db tiny) → OneEachBot db → OneEachBot (run_op op db)
  unfolding run_op bot_reset_connection_status
  run_op-OneEachBot (add sn did dev_class resource company) db h =
      bot_add-OneEachBot sn did dev_class resource company db h
  run_op-OneEachBot (remove did) db h = bot_remove-OneEachBot did db h
  run_op-OneEachBot (set_nick did nick) db h = bot_set_nick-OneEachBot did nick db h
  run_op-OneEachBot (set_mqtt did flag) db h = bot_set_mqtt-OneEachBot did flag db h
  run_op-OneEachBot (set_xmpp did flag) db h = bot_set_xmpp-OneEachBot did flag db h
  run_op-OneEachBot reset db h = reset_bots-OneEachBot (tiny.all db.bots) db h

  -- Any operations on `bots`, from a table with at most one document for each did, leave one with
  -- at most one document for each did.
  pub run_ops-OneEachBot :
      (ops : List BotOp) (db : Db tiny) → OneEachBot db → OneEachBot (run_ops ops db)
  unfolding run_ops
  run_ops-OneEachBot [] db h = h
  run_ops-OneEachBot (op ∷ ops) db h =
      run_ops-OneEachBot ops (run_op op db) (run_op-OneEachBot op db h)

  bot_view_of_get :
      (did j : String) (db : Db tiny) (o : Option (Document BotDoc))
      → bot_get did db ≡ o
      → did ≡ j
      → bot_view j db ≡ fields_of o
  unfolding bot_view
  bot_view_of_get did j db o e same = rw (← same) (ap fields_of e)

  view-bot_remove_found :
      (did j : String) (db : Db tiny) (r : Document BotDoc)
      → bot_get did db ≡ some r
      → OneEachBot db
      → bot_view j (record db { bots = tiny.remove r.doc_id db.bots })
        ≡ (if did_is j r.fields then none else bot_view j db)
  unfolding bot_view bot_get view
  view-bot_remove_found did j db r e h = view-remove tiny did_is (did_is did) db.bots r e j h

  -- With at most one document for each did, `bot_remove` makes its did unknown and changes the
  -- bot that is found for no other.
  pub view-bot_remove :
      (did j : String) (db : Db tiny)
      → OneEachBot db
      → bot_view j (bot_remove did db) ≡ (if did == j then none else bot_view j db)
  unfolding bot_remove
  view-bot_remove did j db h = elim (Option-cases (bot_get did db)) [
    | inl e ↦ rw (e, bot_remove) (ground (arith, eq_iff did j, bot_view_of_get did j db none e))
    | inr (r, e) ↦
        rw (e, bot_remove)
          (view-bot_remove_found did j db r e h
            ∙ ap (λ (o : Option String). if field_is o j then none else bot_view j db)
                (bot_view_did did db r.fields (bot_view_of_get did did db (some r) e refl)))
  ]
