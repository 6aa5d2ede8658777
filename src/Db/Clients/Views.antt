-- ===== src/Db/Clients/Views.antt =====
-- The client that `client_get` finds, after each operation on the table `clients`.
use mathlib.Core.Option
use bumper.Prelude.{
  String, ◌≡◌, Bool, refl, sym, ◌∙◌, inl, inr, true, ◌==◌, Option, none, some, arith, eq_iff,
  eq_comm, if◌then◌else◌, Option-cases, map-if, field_is_sound,
}
use bumper.Tiny.{TinyDb}
use bumper.Tiny.Rows.{Document}
use bumper.Tiny.Rows.Laws.{or_else, fields_of}
use bumper.Tiny.Laws.{view, view-upsert, view_sound, view-upsert_none, or_else-none}
use bumper.Db.{Db}
use bumper.Db.Documents.{ClientDoc, client_asdict, update_client, no_client}
use bumper.Db.Clients.{
  resource_is, client_get, upsert_client, client_add, client_set_mqtt, client_set_xmpp,
}

module _ {tiny : TinyDb} where
  -- The fields of the client that `client_get` finds.
  unfoldable pub client_view : String → Db tiny → Option ClientDoc
  client_view resource db = fields_of (client_get resource db)

  view-clients :
      (resource : String) (db : Db tiny)
      → client_view resource db ≡ view tiny (resource_is resource) db.clients
  unfolding client_view client_get view
  view-clients resource db = refl

  pub client_view_resource :
      (resource : String) (db : Db tiny) (b : ClientDoc)
      → client_view resource db ≡ some b
      → b.resource ≡ some resource
  client_view_resource resource db b h =
      field_is_sound b.resource resource
        (view_sound tiny (resource_is resource) db.clients b (sym (view-clients resource db) ∙ h))

  -- A patch that names no `resource` updates the client of that resource, and no other.
  pub view-upsert_patch :
      (resource j : String) (patch : ClientDoc) (db : Db tiny)
      → patch.resource ≡ none
      → client_view j (upsert_client resource patch db) ≡ (
          if resource == j
          then Option.map (λ b. update_client b patch) (client_view j db)
          else client_view j db)
  view-upsert_patch resource j patch db h =
      rw
        (
          view-clients j (upsert_client resource patch db),
          view-upsert tiny update_client patch (resource_is resource) (resource_is j) db.clients
              (rw h) (λ e. rw h),
          ← view-clients j db,
        )
        (map-if (resource_is resource) (λ b. update_client b patch) (resource == j)
          (client_view j db) (λ b e. rw (client_view_resource j db b e) (eq_comm j resource)))

  view-upsert_new :
      (resource j : String) (d : ClientDoc) (db : Db tiny)
      → client_get resource db ≡ none
      → client_view j (upsert_client resource d db)
        ≡ or_else (client_view j db) (if resource_is j d then some d else none)
  unfolding client_view client_get view
  view-upsert_new resource j d db h =
      view-upsert_none tiny update_client d (resource_is resource) (resource_is j) db.clients h

  found-client :
      (resource j : String) (db : Db tiny) (r : Document ClientDoc)
      → client_get resource db ≡ some r
      → resource == j ≡ true
      → (b : ClientDoc) × (client_view j db ≡ some b)
  unfolding client_view
  found-client resource j db r e h = (r.fields, rw (← (eq_iff resource j).0 h, e))

  -- What `client_get` finds for any resource after `client_add`: the client that was there; else the
  -- new client, if the resource is the given one; else nothing.
  pub view-client_add :
      (userid realm resource j : String) (db : Db tiny)
      → client_view j (client_add userid realm resource db)
        ≡ or_else
            (client_view j db)
            (if resource == j then some (client_asdict userid realm resource) else none)
  unfolding client_add
  view-client_add userid realm resource j db = elim (Option-cases (client_get resource db)) [
    | inl e ↦
        rw (e, client_add)
          (ground (
            arith,
            view-upsert_new resource j (client_asdict userid realm resource) db e,
            or_else-none (client_view j db),
          ))
    | inr (r, e) ↦
        rw (e, client_add) (ground (arith, eq_iff resource j, found-client resource j db r e))
  ]

  -- Each setter changes its one field of the client with the given resource, if there is one, and
  -- what `client_get` finds for every other resource stays as it was; no client comes to be found
  -- that was not.
  pub view-client_set :
      (resource j : String) (flag : Bool) (db : Db tiny)
      → (client_view j (client_set_mqtt resource flag db) ≡ (
          if resource == j
          then Option.map {A = ClientDoc}
              (λ b. record b { mqtt_connection = some flag })
              (client_view j db)
          else client_view j db))
        × (client_view j (client_set_xmpp resource flag db) ≡ (
            if resource == j
            then Option.map {A = ClientDoc}
                (λ b. record b { xmpp_connection = some flag })
                (client_view j db)
            else client_view j db))
  unfolding client_set_mqtt client_set_xmpp
  view-client_set resource j flag db = (
    view-upsert_patch resource j (record no_client { mqtt_connection = some flag }) db refl,
    view-upsert_patch resource j (record no_client { xmpp_connection = some flag }) db refl,
  )
