-- ===== src/Db/Clients/Reset.antt =====
-- `client_reset_connection_status` of bumper/db.py, which `start` of bumper/__init__.py runs first.
use mathlib.Core.Option
use bumper.Prelude.{
  String, ◌≡◌, refl, ◌∙◌, Bool, false, not, ◌==◌, Option, none, some, List, [], ◌∷◌, arith, inl,
  inr, if◌then◌else◌, is_some, Option-cases,
}
use bumper.Prelude.Exec.{ok, err, key_error}
use bumper.Tiny.{TinyDb}
use bumper.Tiny.Rows.{Document, any_match, first}
use bumper.Tiny.Rows.Laws.{fields_of, any_match-first}
use bumper.Db.{Db}
use bumper.Db.Documents.{ClientDoc}
use bumper.Db.Clients.{
  resource_is, client_get, client_set_mqtt, client_set_xmpp, reset_clients,
  client_reset_connection_status,
}
use bumper.Db.Clients.Views.{client_view, view-client_set}

-- A document without the key `resource`.
abbrev pub lacks_resource : ClientDoc → Bool
lacks_resource b = not (is_some b.resource)

abbrev pub offline : ClientDoc → ClientDoc
offline b = record b { mqtt_connection = some false; xmpp_connection = some false }

offline-offline :
    (o : Option ClientDoc) → Option.map offline (Option.map offline o) ≡ Option.map offline o
offline-offline none = refl
offline-offline (some b) = refl

fields-unmatched : (o : Option (Document ClientDoc)) → is_some o ≡ false → fields_of o ≡ none
fields-unmatched none h = refl
fields-unmatched (some r) h = cc

module _ {tiny : TinyDb} where
  result-reset_clients :
      (l : List (Document ClientDoc)) (db : Db tiny)
      → (reset_clients l db).0 ≡ (if any_match lacks_resource l then err key_error else ok tt)
  unfolding reset_clients any_match
  result-reset_clients [] db = refl
  result-reset_clients (r ∷ l) db = elim (Option-cases r.fields.resource) [
    | inl e ↦ rw (e, reset_clients)
    | inr (d, e) ↦ rw (e, reset_clients) (result-reset_clients l _)
  ]

  view-reset_client :
      (resource j : String) (db : Db tiny)
      → client_view j (client_set_xmpp resource false (client_set_mqtt resource false db))
        ≡ (if resource == j then Option.map offline (client_view j db) else client_view j db)
  view-reset_client resource j db =
      let mqtt = (view-client_set resource j false db).0 in
      let xmpp = (view-client_set resource j false (client_set_mqtt resource false db)).1 in
      ground (arith, mqtt, xmpp)

  view-reset_clients :
      (j : String) (l : List (Document ClientDoc)) (db : Db tiny)
      → any_match lacks_resource l ≡ false
      → client_view j (reset_clients l db).1 ≡ (
          if any_match (resource_is j) l
          then Option.map offline (client_view j db)
          else client_view j db)
  unfolding reset_clients any_match
  view-reset_clients j [] db h = refl
  view-reset_clients j (r ∷ l) db h = elim (Option-cases r.fields.resource) [
    | inl e ↦ absurd (cc (rw (e, any_match) at h))
    | inr (d, e) ↦
        let db' : Db tiny = client_set_xmpp d false (client_set_mqtt d false db) in
        rw (e, reset_clients)
          (ground (
            arith,
            view-reset_clients j l db',
            rw e at h,
            view-reset_client d j db,
            offline-offline (client_view j db),
          ))
  ]

  view-unmatched :
      (j : String) (db : Db tiny)
      → any_match (resource_is j) (tiny.all db.clients) ≡ false
      → client_view j db ≡ none
  unfolding client_view client_get
  view-unmatched j db h = rw tiny.get_first (
      fields-unmatched (first (resource_is j) (tiny.all db.clients))
        (any_match-first (resource_is j) _ ∙ h))

  -- The reset raises a KeyError exactly when some document of `clients` lacks the key `resource`, and
  -- returns otherwise.
  pub result-client_reset :
      (db : Db tiny)
      → (client_reset_connection_status db).0
        ≡ (if any_match lacks_resource (tiny.all db.clients) then err key_error else ok tt)
  unfolding client_reset_connection_status
  result-client_reset db = result-reset_clients (tiny.all db.clients) db

  -- If every document of `clients` has a `resource`, the reset leaves for each resource the client that was found
  -- before, with both connection flags false and its other fields as they were.
  pub view-client_reset :
      (db : Db tiny) (j : String)
      → any_match lacks_resource (tiny.all db.clients) ≡ false
      → client_view j (client_reset_connection_status db).1 ≡ Option.map offline (client_view j db)
  unfolding client_reset_connection_status
  view-client_reset db j h =
      ground (arith, view-reset_clients j (tiny.all db.clients) db, view-unmatched j db)
