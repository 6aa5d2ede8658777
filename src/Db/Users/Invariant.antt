-- ===== src/Db/Users/Invariant.antt =====
-- What holds of the table `users` whatever the operations, and the lookup of a user by a device.
use bumper.Prelude.{
  String, ◌≡◌, refl, sym, ◌∙◌, subst, true, ◌==◌, Option, none, some, List, [], ◌∷◌, eq_iff, inl,
  inr, is_some, Bool-cases, Option-cases,
}
use bumper.Prelude.Exec.{unbound_local, key_error, need, needs, modify, ◌>>=◌}
use bumper.Tiny.{TinyDb}
use bumper.Tiny.Rows.{Document, first, any_match}
use bumper.Tiny.Rows.Laws.{
  any_match-append, any_match-merge, any_match-merge_stable, any_match-first, any_match_of_found,
}
use bumper.Tiny.Keyed.{OneEach, OneEach-empty, OneEach-upsert_patch, OneEach-insert}
use bumper.Db.{Db, empty_db}
use bumper.Db.Documents.{UserDoc, no_user, user_asdict, update_user}
use bumper.Db.Users.{
  userid_is, has_device, add_new, drop_old, user_get, user_by_device_id, user_full_upsert, user_add,
  upsert_user, user_add_device, user_remove_device, user_add_bot, user_remove_bot,
}
use bumper.Db.Users.Lists.{contains-add_new}
use bumper.Db.Users.Views.{HasNoDid, all-user_full_upsert}

-- The operations of db.py that write to the table `users`.
pub data UserOp : Type 0 where
  add : String → UserOp
  add_device remove_device add_bot remove_bot : String → String → UserOp

module _ {tiny : TinyDb} where
  -- A method that raises leaves what it wrote before.
  unfoldable pub run_op : UserOp → Db tiny → Db tiny
  run_op (add u) db = user_add u db
  run_op (add_device u dev) db = (user_add_device u dev db).1
  run_op (remove_device u dev) db = (user_remove_device u dev db).1
  run_op (add_bot u did) db = (user_add_bot u did db).1
  run_op (remove_bot u did) db = (user_remove_bot u did db).1

  unfoldable pub run_ops : List UserOp → Db tiny → Db tiny
  run_ops [] db = db
  run_ops (op ∷ ops) db = run_ops ops (run_op op db)

  -- At most one document for each user id, and none with a `did`.
  pub record IsUserTable (db : Db tiny) : Type 0 where
    pub one_each : OneEach tiny userid_is db.users
    pub no_did : HasNoDid db

  pub IsUserTable-empty : IsUserTable (empty_db tiny)
  IsUserTable-empty = record {
    one_each = OneEach-empty tiny userid_is;
    no_did = record { at = rw tiny.all-empty (unfold any_match in refl) };
  }

  upsert_user-HasNoDid :
      (u : String) (patch : UserDoc) (db : Db tiny)
      → patch.did ≡ none
      → HasNoDid db
      → HasNoDid (upsert_user u patch db)
  upsert_user-HasNoDid u patch db e h = record {
    at = rw tiny.all-upsert (elim (Bool-cases (any_match (userid_is u) (tiny.all db.users))) [
      | inl m ↦
          rw
            (
              m,
              any_match-merge_stable update_user patch (userid_is u) (λ d. is_some d.did)
                  (tiny.all db.users) (λ d. rw e),
            )
            h.at
      | inr m ↦ rw (m, tiny.all-insert, any_match-append, h.at) (unfold any_match in rw e)
    ]);
  }

  upsert_user-IsUserTable :
      (u : String) (patch : UserDoc) (db : Db tiny)
      → patch.did ≡ none
      → patch.userid ≡ none
      → IsUserTable db
      → IsUserTable (upsert_user u patch db)
  upsert_user-IsUserTable u patch db e k h = record {
    one_each =
        OneEach-upsert_patch tiny userid_is update_user patch (userid_is u) db.users (λ j d. rw k)
          (λ j. rw k) h.one_each;
    no_did = upsert_user-HasNoDid u patch db e h.no_did;
  }

  unknown-user :
      (u k : String) (db : Db tiny)
      → user_get u db ≡ none
      → u == k ≡ true
      → first (userid_is k) (tiny.all db.users) ≡ none
  unfolding user_get
  unknown-user u k db e same =
      subst (λ j. first (userid_is j) (tiny.all db.users) ≡ none) ((eq_iff u k).0 same)
        (sym (tiny.get_first (userid_is u) db.users) ∙ e)

  user_full_upsert-IsUserTable :
      (u : String) (db : Db tiny)
      → user_get u db ≡ none
      → IsUserTable db
      → IsUserTable (user_full_upsert u (user_asdict u) db)
  user_full_upsert-IsUserTable u db e h = record {
    one_each = record {
      at = λ k. rw (all-user_full_upsert u (user_asdict u) db h.no_did) (
          (OneEach-insert tiny userid_is (user_asdict u) db.users (λ j. unknown-user u j db e)
              h.one_each).at
            k);
    };
    no_did = record {
      at =
          rw
            (
              all-user_full_upsert u (user_asdict u) db h.no_did,
              tiny.all-insert,
              any_match-append,
              h.no_did.at,
            )
            (unfold any_match in refl);
    };
  }

  user_add-IsUserTable : (u : String) (db : Db tiny) → IsUserTable db → IsUserTable (user_add u db)
  user_add-IsUserTable u db h = elim (Option-cases (user_get u db)) [
    | inl e ↦ unfold user_add in rw (e, user_add) (user_full_upsert-IsUserTable u db e h)
    | inr (r, e) ↦ unfold user_add in rw (e, user_add) h
  ]

  -- Two cases of the edits: nothing is written, or one list of the user.
  edit-IsUserTable :
      (field : UserDoc → Option (List String)) (patch : List String → UserDoc) (u : String)
      (db : Db tiny)
      → ((l : List String) → (patch l).did ≡ none)
      → ((l : List String) → (patch l).userid ≡ none)
      → IsUserTable db
      → IsUserTable
          ((do
            user ← needs unbound_local (user_get u)
            l ← need key_error (field user.fields)
            modify (upsert_user u (patch l)))
            db).1
  edit-IsUserTable field patch u db e k h = elim (Option-cases (user_get u db)) [
    | inl m ↦ rw (m, needs) h
    | inr (r, m) ↦ elim (Option-cases (field r.fields)) [
      | inl g ↦ rw (m, needs, need, g) h
      | inr (l, g) ↦ rw (m, needs, need, g) (upsert_user-IsUserTable u (patch l) db (e l) (k l) h)
    ]
  ]

  run_op-IsUserTable : (op : UserOp) (db : Db tiny) → IsUserTable db → IsUserTable (run_op op db)
  unfolding run_op user_add_device user_remove_device user_add_bot user_remove_bot
  run_op-IsUserTable (add u) db h = user_add-IsUserTable u db h
  run_op-IsUserTable (add_device u dev) db h =
      edit-IsUserTable (λ d. d.devices) (λ l. record no_user { devices = some (add_new dev l) }) u
        db (λ l. refl) (λ l. refl) h
  run_op-IsUserTable (remove_device u dev) db h =
      edit-IsUserTable (λ d. d.devices) (λ l. record no_user { devices = some (drop_old dev l) }) u
        db (λ l. refl) (λ l. refl) h
  run_op-IsUserTable (add_bot u did) db h =
      edit-IsUserTable (λ d. d.bots) (λ l. record no_user { bots = some (add_new did l) }) u db
        (λ l. refl) (λ l. refl) h
  run_op-IsUserTable (remove_bot u did) db h =
      edit-IsUserTable (λ d. d.bots) (λ l. record no_user { bots = some (drop_old did l) }) u db
        (λ l. refl) (λ l. refl) h

  run_ops_from : (ops : List UserOp) (db : Db tiny) → IsUserTable db → IsUserTable (run_ops ops db)
  unfolding run_ops
  run_ops_from [] db h = h
  run_ops_from (op ∷ ops) db h = run_ops_from ops (run_op op db) (run_op-IsUserTable op db h)

  -- Any sequence of operations from the empty database, failing ones included, leaves at most one
  -- document for each user id and no document with a `did`.
  pub run_ops-IsUserTable : (ops : List UserOp) → IsUserTable (run_ops ops (empty_db tiny))
  run_ops-IsUserTable ops = run_ops_from ops (empty_db tiny) IsUserTable-empty

  -- After `user_add_device` for a user that is known and has a list of devices, some user is
  -- found by that device.
  pub user_by_device_id-user_add_device :
      (u dev : String) (db : Db tiny) (r : Document UserDoc) (l : List String)
      → user_get u db ≡ some r
      → r.fields.devices ≡ some l
      → is_some (user_by_device_id dev (user_add_device u dev db).1) ≡ true
  unfolding user_by_device_id user_add_device
  user_by_device_id-user_add_device u dev db r l e g =
      rw
        (
          e,
          needs,
          need,
          g,
          tiny.get_first,
          any_match-first,
          tiny.all-upsert,
          any_match_of_found (userid_is u) (tiny.all db.users) r
              (sym (tiny.get_first (userid_is u) db.users) ∙ unfold user_get in e),
        )
        (any_match-merge update_user (record no_user { devices = some (add_new dev l) })
          (userid_is u) (has_device dev) (tiny.all db.users) (λ d m. contains-add_new dev l)
          (any_match_of_found (userid_is u) (tiny.all db.users) r
            (sym (tiny.get_first (userid_is u) db.users) ∙ unfold user_get in e)))
