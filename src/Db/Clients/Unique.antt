-- ===== src/Db/Clients/Unique.antt =====
-- The table `clients` holds at most one document for each resource, whatever the operations, so that
-- `client_remove` removes the client.
use bumper.Prelude.{
  String, ◌≡◌, refl, sym, ◌∙◌, ap, subst, Bool, false, ◌==◌, Option, none, some, List, [], ◌∷◌,
  arith, eq_iff, inl, inr, if◌then◌else◌, Option-cases, field_is,
}
use bumper.Tiny.{TinyDb}
use bumper.Tiny.Rows.{Document, first}
use bumper.Tiny.Rows.Laws.{fields_of}
use bumper.Tiny.Laws.{view}
use bumper.Tiny.Keyed.{
  OneEach, OneEach-upsert_patch, OneEach-upsert_new, OneEach-remove, view-remove,
}
use bumper.Db.{Db}
use bumper.Db.Documents.{ClientDoc, no_client, client_asdict, update_client}
use bumper.Db.Clients.{
  resource_is, client_get, upsert_client, client_add, client_remove, client_set_mqtt,
  client_set_xmpp, reset_clients, client_reset_connection_status,
}
use bumper.Db.Clients.Views.{client_view, client_view_resource}

-- The operations of db.py that write to the table `clients`.
pub data ClientOp : Type 0 where
  add : String → String → String → ClientOp
  remove : String → ClientOp
  set_mqtt set_xmpp : String → Bool → ClientOp
  reset : ClientOp

module _ {tiny : TinyDb} where
  -- A reset that raises leaves what it wrote before.
  unfoldable pub run_op : ClientOp → Db tiny → Db tiny
  run_op (add userid realm resource) = client_add userid realm resource
  run_op (remove resource) = client_remove resource
  run_op (set_mqtt resource flag) = client_set_mqtt resource flag
  run_op (set_xmpp resource flag) = client_set_xmpp resource flag
  run_op reset = λ db. (client_reset_connection_status db).1

  unfoldable pub run_ops : List ClientOp → Db tiny → Db tiny
  run_ops [] db = db
  run_ops (op ∷ ops) db = run_ops ops (run_op op db)

  abbrev pub OneEachClient : Db tiny → Type 0
  OneEachClient db = OneEach tiny resource_is db.clients

  upsert_patch-OneEachClient :
      (resource : String) (patch : ClientDoc) (db : Db tiny)
      → patch.resource ≡ none
      → OneEachClient db
      → OneEachClient (upsert_client resource patch db)
  upsert_patch-OneEachClient resource patch db h =
      OneEach-upsert_patch tiny resource_is update_client patch (resource_is resource) db.clients
        (λ k e. rw h) (λ k. rw h)

  client_set_mqtt-OneEachClient :
      (resource : String) (flag : Bool) (db : Db tiny)
      → OneEachClient db
      → OneEachClient (client_set_mqtt resource flag db)
  unfolding client_set_mqtt
  client_set_mqtt-OneEachClient resource flag db =
      upsert_patch-OneEachClient resource (record no_client { mqtt_connection = some flag }) db refl

  client_set_xmpp-OneEachClient :
      (resource : String) (flag : Bool) (db : Db tiny)
      → OneEachClient db
      → OneEachClient (client_set_xmpp resource flag db)
  unfolding client_set_xmpp
  client_set_xmpp-OneEachClient resource flag db =
      upsert_patch-OneEachClient resource (record no_client { xmpp_connection = some flag }) db refl

  upsert_new-OneEachClient :
      (resource : String) (d : ClientDoc) (db : Db tiny)
      → d.resource ≡ some resource
      → client_get resource db ≡ none
      → OneEachClient db
      → OneEachClient (upsert_client resource d db)
  unfolding client_get
  upsert_new-OneEachClient resource d db h missing =
      OneEach-upsert_new tiny resource_is update_client d (resource_is resource) db.clients missing
        (λ k e.
          subst (λ j. first (resource_is j) (tiny.all db.clients) ≡ none)
            ((eq_iff resource k).0 (rw h at e))
            (sym (tiny.get_first (resource_is resource) db.clients) ∙ missing))

  client_add-OneEachClient :
      (userid realm resource : String) (db : Db tiny)
      → OneEachClient db
      → OneEachClient (client_add userid realm resource db)
  client_add-OneEachClient userid realm resource db h =
      elim (Option-cases (client_get resource db)) [
        | inl e ↦
            unfold client_add in
            rw (e, client_add)
              (upsert_new-OneEachClient resource (client_asdict userid realm resource) db refl e h)
        | inr (r, e) ↦ unfold client_add in rw (e, client_add) h
      ]

  reset_clients-OneEachClient :
      (l : List (Document ClientDoc)) (db : Db tiny)
      → OneEachClient db
      → OneEachClient (reset_clients l db).1
  unfolding reset_clients
  reset_clients-OneEachClient [] db h = h
  reset_clients-OneEachClient (r ∷ l) db h = elim (Option-cases r.fields.resource) [
    | inl e ↦ rw (e, reset_clients) h
    | inr (d, e) ↦
        rw (e, reset_clients)
          (reset_clients-OneEachClient l (client_set_xmpp d false (client_set_mqtt d false db)) (
            client_set_xmpp-OneEachClient d false (client_set_mqtt d false db)
              (client_set_mqtt-OneEachClient d false db h)))
  ]

  client_remove-OneEachClient :
      (resource : String) (db : Db tiny)
      → OneEachClient db
      → OneEachClient (client_remove resource db)
  unfolding client_remove
  client_remove-OneEachClient resource db h = elim (Option-cases (client_get resource db)) [
    | inl e ↦ rw (e, client_remove) h
    | inr (r, e) ↦
        rw (e, client_remove)
          (OneEach-remove tiny resource_is (resource_is resource) db.clients r e h)
  ]

  run_op-OneEachClient :
      (op : ClientOp) (db : Db tiny) → OneEachClient db → OneEachClient (run_op op db)
  unfolding run_op client_reset_connection_status
  run_op-OneEachClient (add userid realm resource) db h =
      client_add-OneEachClient userid realm resource db h
  run_op-OneEachClient (remove resource) db h = client_remove-OneEachClient resource db h
  run_op-OneEachClient (set_mqtt resource flag) db h =
      client_set_mqtt-OneEachClient resource flag db h
  run_op-OneEachClient (set_xmpp resource flag) db h =
      client_set_xmpp-OneEachClient resource flag db h
  run_op-OneEachClient reset db h = reset_clients-OneEachClient (tiny.all db.clients) db h

  -- Any operations on `clients`, from a table with at most one document for each resource, leave one with
  -- at most one document for each resource.
  pub run_ops-OneEachClient :
      (ops : List ClientOp) (db : Db tiny) → OneEachClient db → OneEachClient (run_ops ops db)
  unfolding run_ops
  run_ops-OneEachClient [] db h = h
  run_ops-OneEachClient (op ∷ ops) db h =
      run_ops-OneEachClient ops (run_op op db) (run_op-OneEachClient op db h)

  client_view_of_get :
      (resource j : String) (db : Db tiny) (o : Option (Document ClientDoc))
      → client_get resource db ≡ o
      → resource ≡ j
      → client_view j db ≡ fields_of o
  unfolding client_view
  client_view_of_get resource j db o e same = rw (← same) (ap fields_of e)

  view-client_remove_found :
      (resource j : String) (db : Db tiny) (r : Document ClientDoc)
      → client_get resource db ≡ some r
      → OneEachClient db
      → client_view j (record db { clients = tiny.remove r.doc_id db.clients })
        ≡ (if resource_is j r.fields then none else client_view j db)
  unfolding client_view client_get view
  view-client_remove_found resource j db r e h =
      view-remove tiny resource_is (resource_is resource) db.clients r e j h

  -- With at most one document for each resource, `client_remove` makes its resource unknown and changes the
  -- client that is found for no other.
  pub view-client_remove :
      (resource j : String) (db : Db tiny)
      → OneEachClient db
      → client_view j (client_remove resource db)
        ≡ (if resource == j then none else client_view j db)
  unfolding client_remove
  view-client_remove resource j db h = elim (Option-cases (client_get resource db)) [
    | inl e ↦
        rw (e, client_remove)
          (ground (arith, eq_iff resource j, client_view_of_get resource j db none e))
    | inr (r, e) ↦
        rw (e, client_remove)
          (view-client_remove_found resource j db r e h
            ∙ ap (λ (o : Option String). if field_is o j then none else client_view j db)
                (client_view_resource resource db r.fields
                  (client_view_of_get resource resource db (some r) e refl)))
  ]
