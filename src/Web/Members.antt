-- ===== src/Web/Members.antt =====
-- What `_auth_any` of bumper/web/auth_util.py writes to the user that logs in.
use bumper.Prelude.{
  String, ◌≡◌, refl, ◌∙◌, ap, some, List, [], ◌∷◌, inl, inr, eq_refl, Option-cases,
}
use bumper.Prelude.Exec.{Exec, ok, ◌>>=◌}
use bumper.Tiny.{TinyDb}
use bumper.Tiny.Rows.{Document}
use bumper.Db.{Db}
use bumper.Db.Documents.{UserDoc, BotDoc}
use bumper.Db.Users.{add_new, user_get, user_add, user_full_upsert, user_add_device, user_add_bot}
use bumper.Db.Users.Views.{user_view, user_devices_edit, user_bots_edit}
use bumper.Web.{WebEnv}
use bumper.Web.Auth.{add_bots}

-- A step that returns, and the rest behind it.
pub bind_ok :
    {S A B : Type 0} (m : Exec S A) (k : A → Exec S B) (s t : S) (a : A)
    → m s ≡ (ok a, t)
    → (m >>= k) s ≡ k a t
bind_ok m k s t a h = rw h refl

module _ {tiny : TinyDb} where
  -- The user is there, with the devices and with some list of bots.
  pub record HasLists (userid : String) (devices : List String) (db : Db tiny) : Type 0 where
    pub user : UserDoc
    pub is_there : user_view userid db ≡ some user
    pub devices_are : user.devices ≡ some devices
    pub bots : List String
    pub bots_are : user.bots ≡ some bots

  tokens-user_add_device :
      (userid devid : String) (db : Db tiny)
      → (user_add_device userid devid db).1.tokens ≡ db.tokens
  unfolding user_add_device
  tokens-user_add_device userid devid db = elim (Option-cases (user_get userid db)) [
    | inl h ↦ simp (h) refl
    | inr (r, h) ↦ elim (Option-cases r.fields.devices) [
      | inl e ↦ simp (h, e) refl
      | inr (l, e) ↦ simp (h, e) refl
    ]
  ]

  tokens-user_add_bot :
      (userid did : String) (db : Db tiny) → (user_add_bot userid did db).1.tokens ≡ db.tokens
  unfolding user_add_bot
  tokens-user_add_bot userid did db = elim (Option-cases (user_get userid db)) [
    | inl h ↦ simp (h) refl
    | inr (r, h) ↦ elim (Option-cases r.fields.bots) [
      | inl e ↦ simp (h, e) refl
      | inr (l, e) ↦ simp (h, e) refl
    ]
  ]

  pub user_add_device_lem :
      (userid devid : String) (devices : List String) (db : Db tiny)
      → HasLists userid devices db
      → (let after = user_add_device userid devid db in
          (after ≡ (ok tt, after.1))
          × HasLists userid (add_new devid devices) after.1
          × (after.1.tokens ≡ db.tokens))
  user_add_device_lem userid devid devices db h =
      let (result, view, _, _) = user_devices_edit userid devid userid db in
      (
        ap (λ r. (r, (user_add_device userid devid db).1))
            (result ∙ rw (h.is_there) (rw (h.devices_are) refl)),
        record {
          user = record (h.user) { devices = some (add_new devid devices) };
          is_there = view ∙ rw (eq_refl userid, h.is_there) (rw (h.devices_are) refl);
          devices_are = refl;
          bots = h.bots;
          bots_are = h.bots_are;
        },
        tokens-user_add_device userid devid db,
      )

  add_bot_lem :
      (userid did : String) (devices : List String) (db : Db tiny)
      → HasLists userid devices db
      → (let after = user_add_bot userid did db in
          (after ≡ (ok tt, after.1))
          × HasLists userid devices after.1
          × (after.1.tokens ≡ db.tokens))
  add_bot_lem userid did devices db h =
      let (result, view, _, _) = user_bots_edit userid did userid db in
      (
        ap (λ r. (r, (user_add_bot userid did db).1))
            (result ∙ rw (h.is_there) (rw (h.bots_are) refl)),
        record {
          user = record (h.user) { bots = some (add_new did h.bots) };
          is_there = view ∙ rw (eq_refl userid, h.is_there) (rw (h.bots_are) refl);
          devices_are = h.devices_are;
          bots = add_new did h.bots;
          bots_are = refl;
        },
        tokens-user_add_bot userid did db,
      )

  -- The loop over the bots returns, and keeps the devices and the tokens.
  pub add_bots_lem :
      (env : WebEnv) (userid : String) (bots : List (Document BotDoc)) (devices : List String)
      (db : Db tiny)
      → HasLists userid devices db
      → ((after : Db tiny) × (add_bots env userid bots db ≡ (ok tt, after))
          × HasLists userid devices after
          × (after.tokens ≡ db.tokens))
  unfolding add_bots
  add_bots_lem env userid [] devices db h = (db, refl, h, refl)
  add_bots_lem env userid (bot ∷ rest) devices db h = elim (Option-cases bot.fields.did) [
    | inl e ↦ rw (e, add_bots) (add_bots_lem env userid rest devices db h)
    | inr (did, e) ↦
        let (returned, lists, same) = add_bot_lem userid did devices db h in
        let mid = (user_add_bot userid did db).1 in
        let (after, rest_is, rest_lists, rest_same) =
          add_bots_lem env userid rest devices mid lists in
        (
          after,
          rw (e, add_bots)
              (bind_ok (user_add_bot userid did) (λ _. add_bots env userid rest) db mid tt returned
                ∙ rest_is),
          rest_lists,
          rest_same ∙ same,
        )
  ]

  -- A new user leaves the tokens.
  pub tokens-user_add : (userid : String) (db : Db tiny) → (user_add userid db).tokens ≡ db.tokens
  unfolding user_add user_full_upsert
  tokens-user_add userid db = elim (Option-cases (user_get userid db)) [
    | inl h ↦ rw (h, user_add) refl
    | inr (r, h) ↦ rw (h, user_add) refl
  ]
