-- ===== src/Db/Users/Views.antt =====
-- The user that `user_get` finds, after each operation on the table `users`.
use mathlib.Core.Option
use bumper.Prelude.{
  String, ◌≡◌, refl, sym, ◌∙◌, ap, inl, inr, true, false, ◌==◌, Option, none, some, List, ◌∷◌, [],
  arith, eq_iff, eq_comm, if◌then◌else◌, is_some, field_is, Option-cases, map-if, field_is_sound,
}
use bumper.Prelude.Exec.{
  Exec, Result, ok, err, need, needs, modify, unbound_local, key_error, ◌>>=◌,
}
use bumper.Tiny.{TinyDb}
use bumper.Tiny.Rows.{Document, first, any_match}
use bumper.Tiny.Rows.Laws.{or_else, fields_of}
use bumper.Tiny.Laws.{view, view-first, view-insert, view-upsert, view_sound, or_else_found}
use bumper.Db.{Db}
use bumper.Db.Documents.{UserDoc, no_user, user_asdict, update_user}
use bumper.Db.Users.{
  userid_is, add_new, drop_old, user_get, user_full_upsert, user_add, upsert_user, user_add_device,
  user_remove_device, user_add_bot, user_remove_bot,
}

no_did :
    (u : String) (l : List (Document UserDoc))
    → any_match (λ d. is_some d.did) l ≡ false
    → any_match (λ d. field_is d.did u) l ≡ false
unfolding any_match
no_did u [] h = refl
no_did u (r ∷ l) h = ground (arith, no_did u l)

-- What the methods answer: no user is an unbound local variable, no list a missing key.
abbrev pub edit_result : Option UserDoc → (UserDoc → Option (List String)) → Result (Unit {0})
edit_result none field = err unbound_local
edit_result (some d) field = elim (field d) [ none ↦ err key_error | some l ↦ ok tt ]

module _ {tiny : TinyDb} where
  -- The fields of the user that `user_get` finds.
  unfoldable pub user_view : String → Db tiny → Option UserDoc
  user_view userid db = fields_of (user_get userid db)

  -- No document of `users` has the key `did`, which `_user_full_upsert` asks for.
  pub record HasNoDid (db : Db tiny) : Type 0 where
    pub at : any_match (λ d. is_some d.did) (tiny.all db.users) ≡ false

  view-users : (u : String) (db : Db tiny) → user_view u db ≡ view tiny (userid_is u) db.users
  unfolding user_view user_get view
  view-users u db = refl

  pub user_view_userid :
      (u : String) (db : Db tiny) (d : UserDoc) → user_view u db ≡ some d → d.userid ≡ some u
  user_view_userid u db d h =
      field_is_sound d.userid u
        (view_sound tiny (userid_is u) db.users d (sym (view-users u db) ∙ h))

  pub view-upsert_user :
      (u j : String) (patch : UserDoc) (db : Db tiny)
      → patch.userid ≡ none
      → user_view j (upsert_user u patch db) ≡ (
          if u == j then Option.map (λ d. update_user d patch) (user_view j db) else user_view j db)
  view-upsert_user u j patch db h =
      rw
        (
          view-users j (upsert_user u patch db),
          view-upsert tiny update_user patch (userid_is u) (userid_is j) db.users (rw h)
              (λ e. rw h),
          ← view-users j db,
        )
        (map-if (userid_is u) (λ d. update_user d patch) (u == j) (user_view j db)
          (λ d e. rw (user_view_userid j db d e) (eq_comm j u)))

  -- Without the key `did`, `_user_full_upsert` inserts.
  pub all-user_full_upsert :
      (u : String) (d : UserDoc) (db : Db tiny)
      → HasNoDid db
      → tiny.all (user_full_upsert u d db).users ≡ tiny.all (tiny.insert d db.users).1
  unfolding user_full_upsert
  all-user_full_upsert u d db h = rw (tiny.all-upsert, no_did u (tiny.all db.users) h.at)

  view-user_full_upsert :
      (u j : String) (d : UserDoc) (db : Db tiny)
      → HasNoDid db
      → user_view j (user_full_upsert u d db)
        ≡ or_else (user_view j db) (if userid_is j d then some d else none)
  view-user_full_upsert u j d db h =
      view-users j (user_full_upsert u d db)
      ∙ view-first tiny (userid_is j) (user_full_upsert u d db).users
      ∙ ap (λ l. fields_of (first (userid_is j) l)) (all-user_full_upsert u d db h)
      ∙ sym (view-first tiny (userid_is j) (tiny.insert d db.users).1)
      ∙ view-insert tiny (userid_is j) d db.users
      ∙ ap (λ o. or_else o (if userid_is j d then some d else none)) (sym (view-users j db))

  found-user :
      (u j : String) (db : Db tiny) (r : Document UserDoc)
      → user_get u db ≡ some r
      → u == j ≡ true
      → (d : UserDoc) × (user_view j db ≡ some d)
  unfolding user_view
  found-user u j db r e h = (r.fields, rw (← (eq_iff u j).0 h, e))

  -- Where no document has a `did`, `user_add` adds a user without devices and bots if the user id
  -- is unknown, and changes what `user_get` finds in no other case.
  pub view-user_add :
      (u j : String) (db : Db tiny)
      → HasNoDid db
      → user_view j (user_add u db)
        ≡ or_else (user_view j db) (if u == j then some (user_asdict u) else none)
  unfolding user_add
  view-user_add u j db h = elim (Option-cases (user_get u db)) [
    | inl e ↦ rw (e, user_add) (view-user_full_upsert u j (user_asdict u) db h)
    | inr (r, e) ↦
        rw (e, user_add)
          (sym (
            or_else_found (user_view j db) (some (user_asdict u)) (u == j) (found-user u j db r e)))
  ]

  -- The four methods that edit a list of a user.
  edit_devices : (List String → List String) → String → Exec (Db tiny) (Unit {0})
  edit_devices f u = do
    user ← needs unbound_local (user_get u)
    devices ← need key_error user.fields.devices
    modify (upsert_user u (record no_user { devices = some (f devices) }))

  edit_bots : (List String → List String) → String → Exec (Db tiny) (Unit {0})
  edit_bots f u = do
    user ← needs unbound_local (user_get u)
    bots ← need key_error user.fields.bots
    modify (upsert_user u (record no_user { bots = some (f bots) }))

  no_view : (u j : String) (db : Db tiny) → user_get u db ≡ none → u ≡ j → user_view j db ≡ none
  unfolding user_view
  no_view u j db e same = rw (← same, e)

  some_view :
      (u j : String) (db : Db tiny) (r : Document UserDoc)
      → user_get u db ≡ some r
      → u ≡ j
      → user_view j db ≡ some r.fields
  unfolding user_view
  some_view u j db r e same = rw (← same, e)

  edit_devices_lem :
      (f : List String → List String) (u j : String) (db : Db tiny)
      → ((edit_devices f u db).0 ≡ edit_result (user_view u db) (λ d. d.devices))
        × (user_view j (edit_devices f u db).1 ≡ (
            if u == j
            then Option.map {A = UserDoc}
                (λ d. record d { devices = Option.map f d.devices })
                (user_view j db)
            else user_view j db))
  unfolding edit_devices
  edit_devices_lem f u j db = elim (Option-cases (user_get u db)) [
    | inl e ↦
        (ground (arith, e, no_view u u db e refl), ground (arith, e, eq_iff u j, no_view u j db e))
    | inr (r, e) ↦ elim (Option-cases r.fields.devices) [
      | inl missing ↦ (
        ground (arith, e, missing, some_view u u db r e refl),
        ground (arith, e, missing, eq_iff u j, some_view u j db r e),
      )
      | inr (l, there) ↦ (
        ground (arith, e, there, some_view u u db r e refl),
        ground (
          arith,
          e,
          there,
          eq_iff u j,
          some_view u j db r e,
          view-upsert_user u j (record no_user { devices = some (f l) }) db refl,
        ),
      )
    ]
  ]

  edit_bots_lem :
      (f : List String → List String) (u j : String) (db : Db tiny)
      → ((edit_bots f u db).0 ≡ edit_result (user_view u db) (λ d. d.bots))
        × (user_view j (edit_bots f u db).1 ≡ (
            if u == j
            then Option.map {A = UserDoc}
                (λ d. record d { bots = Option.map f d.bots })
                (user_view j db)
            else user_view j db))
  unfolding edit_bots
  edit_bots_lem f u j db = elim (Option-cases (user_get u db)) [
    | inl e ↦
        (ground (arith, e, no_view u u db e refl), ground (arith, e, eq_iff u j, no_view u j db e))
    | inr (r, e) ↦ elim (Option-cases r.fields.bots) [
      | inl missing ↦ (
        ground (arith, e, missing, some_view u u db r e refl),
        ground (arith, e, missing, eq_iff u j, some_view u j db r e),
      )
      | inr (l, there) ↦ (
        ground (arith, e, there, some_view u u db r e refl),
        ground (
          arith,
          e,
          there,
          eq_iff u j,
          some_view u j db r e,
          view-upsert_user u j (record no_user { bots = some (f l) }) db refl,
        ),
      )
    ]
  ]

  -- For every user id and database: `user_add_device` and `user_remove_device` raise an unbound
  -- local variable where the user is unknown, a KeyError where its document has no `devices`, and
  -- otherwise return; the list of that user is the one with the device added or removed, and
  -- nothing else that `user_get` finds changes, nor anything in the two error cases.
  pub user_devices_edit :
      (u dev j : String) (db : Db tiny)
      → ((user_add_device u dev db).0 ≡ edit_result (user_view u db) (λ d. d.devices))
        × (user_view j (user_add_device u dev db).1 ≡ (
            if u == j
            then Option.map {A = UserDoc}
                (λ d. record d { devices = Option.map (add_new dev) d.devices })
                (user_view j db)
            else user_view j db))
        × ((user_remove_device u dev db).0 ≡ edit_result (user_view u db) (λ d. d.devices))
        × (user_view j (user_remove_device u dev db).1 ≡ (
            if u == j
            then Option.map {A = UserDoc}
                (λ d. record d { devices = Option.map (drop_old dev) d.devices })
                (user_view j db)
            else user_view j db))
  unfolding user_add_device user_remove_device edit_devices
  user_devices_edit u dev j db =
      let (ra, va) = edit_devices_lem (add_new dev) u j db in
      let (rd, vd) = edit_devices_lem (drop_old dev) u j db in (ra, va, rd, vd)

  -- For every user id and database: `user_add_bot` and `user_remove_bot` raise an unbound
  -- local variable where the user is unknown, a KeyError where its document has no `bots`, and
  -- otherwise return; the list of that user is the one with the bot added or removed, and
  -- nothing else that `user_get` finds changes, nor anything in the two error cases.
  pub user_bots_edit :
      (u did j : String) (db : Db tiny)
      → ((user_add_bot u did db).0 ≡ edit_result (user_view u db) (λ d. d.bots))
        × (user_view j (user_add_bot u did db).1 ≡ (
            if u == j
            then Option.map {A = UserDoc}
                (λ d. record d { bots = Option.map (add_new did) d.bots })
                (user_view j db)
            else user_view j db))
        × ((user_remove_bot u did db).0 ≡ edit_result (user_view u db) (λ d. d.bots))
        × (user_view j (user_remove_bot u did db).1 ≡ (
            if u == j
            then Option.map {A = UserDoc}
                (λ d. record d { bots = Option.map (drop_old did) d.bots })
                (user_view j db)
            else user_view j db))
  unfolding user_add_bot user_remove_bot edit_bots
  user_bots_edit u did j db =
      let (ra, va) = edit_bots_lem (add_new did) u j db in
      let (rd, vd) = edit_bots_lem (drop_old did) u j db in (ra, va, rd, vd)
