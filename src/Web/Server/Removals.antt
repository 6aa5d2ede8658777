-- ===== src/Web/Server/Removals.antt =====
-- What is left after the removals of bumper/web/server.py.
use bumper.Prelude.{
  ◌≡◌, ap, refl, String, ◌==◌, none, some, if◌then◌else◌, Option-cases, inl, inr, eq_refl, sym, ◌∙◌,
  ◌≢◌, is_some, false,
}
use bumper.Tiny.{TinyDb}
use bumper.Tiny.Rows.Laws.{fields_of}
use bumper.Db.{Db}
use bumper.Db.Bots.{bot_get, bot_remove}
use bumper.Db.Bots.Views.{bot_view}
use bumper.Db.Bots.Unique.{OneEachBot, view-bot_remove}
use bumper.Db.Clients.{client_get, client_remove}
use bumper.Db.Clients.Views.{client_view}
use bumper.Db.Clients.Unique.{OneEachClient, view-client_remove}
use bumper.Web.Server.{handle_remove_bot, handle_remove_client, status}

some-none : {A : Type 0} {x : A} → some x ≢ none
some-none h = cc

module _ {tiny : TinyDb} where
  bot_gone :
      (did : String) (db : Db tiny) → bot_view did db ≡ none → is_some (bot_get did db) ≡ false
  unfolding bot_view
  bot_gone did db h = elim (Option-cases (bot_get did db)) [
    | inl e ↦ rw e refl
    | inr (r, e) ↦ elim (some-none (sym (ap fields_of e) ∙ h)) [ ]
  ]

  client_gone :
      (resource : String) (db : Db tiny)
      → client_view resource db ≡ none
      → is_some (client_get resource db) ≡ false
  unfolding client_view
  client_gone resource db h = elim (Option-cases (client_get resource db)) [
    | inl e ↦ rw e refl
    | inr (r, e) ↦ elim (some-none (sym (ap fields_of e) ∙ h)) [ ]
  ]

  -- With at most one document for each did, the route that removes a bot answers that it was removed,
  -- whether it was there or not; no bot is found for that did any more, and for every other did the one
  -- that was found before.
  pub handle_remove_bot_lem :
      (did j : String) (db : Db tiny)
      → OneEachBot db
      → ((handle_remove_bot (some did) db).0 ≡ status "successfully removed bot")
        × (bot_view j (handle_remove_bot (some did) db).1
            ≡ (if did == j then none else bot_view j db))
  unfolding handle_remove_bot
  handle_remove_bot_lem did j db h = (
    rw (bot_gone did (bot_remove did db) (view-bot_remove did did db h ∙ rw (eq_refl did) refl))
        refl,
    view-bot_remove did j db h,
  )

  -- With at most one document for each resource, the route that removes a client answers that it was
  -- removed, whether it was there or not; no client is found for that resource any more, and for every
  -- other resource the one that was found before.
  handle_remove_client_lem :
      (resource j : String) (db : Db tiny)
      → OneEachClient db
      → ((handle_remove_client (some resource) db).0 ≡ status "successfully removed client")
        × (client_view j (handle_remove_client (some resource) db).1
            ≡ (if resource == j then none else client_view j db))
  unfolding handle_remove_client
  handle_remove_client_lem resource j db h = (
    rw
        (client_gone resource (client_remove resource db)
          (view-client_remove resource resource db h ∙ rw (eq_refl resource) refl))
        refl,
    view-client_remove resource j db h,
  )
