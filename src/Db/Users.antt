-- ===== src/Db/Users.antt =====
-- bumper/db.py: the operations on the table `users`.
pub mod Views
pub mod Invariant
pub mod Lists
use bumper.Prelude.{
  String, Bool, false, Option, none, some, List, [], ◌∷◌, ◌++◌, if◌then◌else◌, field_is, contains,
  remove_first,
}
use bumper.Prelude.Exec.{Exec, unbound_local, key_error, need, needs, modify, ◌>>=◌}
use bumper.Tiny.{TinyDb}
use bumper.Tiny.Rows.{Document}
use bumper.Db.{Db}
use bumper.Db.Documents.{UserDoc, no_user, user_asdict, update_user}

abbrev pub userid_is : String → UserDoc → Bool
userid_is userid d = field_is d.userid userid

-- `User.devices.any([deviceid])`: a document without the key does not match
abbrev pub has_device : String → UserDoc → Bool
has_device deviceid d = elim d.devices [ none ↦ false | some ds ↦ contains deviceid ds ]

-- `if x not in xs: xs.append(x)`
unfoldable pub add_new : String → List String → List String
add_new x xs = if contains x xs then xs else xs ++ x ∷ []

-- `if x in xs: xs.remove(x)`
unfoldable pub drop_old : String → List String → List String
drop_old x xs = if contains x xs then remove_first x xs else xs

module _ {tiny : TinyDb} where
  unfoldable pub user_get : String → Db tiny → Option (Document UserDoc)
  user_get userid db = tiny.get (userid_is userid) db.users

  unfoldable pub user_by_device_id : String → Db tiny → Option (Document UserDoc)
  user_by_device_id deviceid db = tiny.get (has_device deviceid) db.users

  -- the query is on the key `did`
  unfoldable pub user_full_upsert : String → UserDoc → Db tiny → Db tiny
  user_full_upsert userid user db = record db {
    users = tiny.upsert update_user user (λ d. field_is d.did userid) db.users;
  }

  unfoldable pub user_add : String → Db tiny → Db tiny
  unfolding user_get user_full_upsert
  user_add userid db = elim (user_get userid db) [
    | none ↦ user_full_upsert userid (user_asdict userid) db
    | some user ↦ db
  ]

  -- `users.upsert({…}, User.userid == userid)`
  abbrev pub upsert_user : String → UserDoc → Db tiny → Db tiny
  upsert_user userid patch db = record db {
    users = tiny.upsert update_user patch (userid_is userid) db.users;
  }

  -- In the four methods below the list is bound only where the user is there.
  unfoldable pub user_add_device : String → String → Exec (Db tiny) (Unit {0})
  unfolding user_get
  user_add_device userid devid = do
    user ← needs unbound_local (user_get userid)
    devices ← need key_error user.fields.devices
    modify (upsert_user userid (record no_user { devices = some (add_new devid devices) }))

  unfoldable pub user_remove_device : String → String → Exec (Db tiny) (Unit {0})
  unfolding user_get
  user_remove_device userid devid = do
    user ← needs unbound_local (user_get userid)
    devices ← need key_error user.fields.devices
    modify (upsert_user userid (record no_user { devices = some (drop_old devid devices) }))

  unfoldable pub user_add_bot : String → String → Exec (Db tiny) (Unit {0})
  unfolding user_get
  user_add_bot userid did = do
    user ← needs unbound_local (user_get userid)
    bots ← need key_error user.fields.bots
    modify (upsert_user userid (record no_user { bots = some (add_new did bots) }))

  unfoldable pub user_remove_bot : String → String → Exec (Db tiny) (Unit {0})
  unfolding user_get
  user_remove_bot userid did = do
    user ← needs unbound_local (user_get userid)
    bots ← need key_error user.fields.bots
    modify (upsert_user userid (record no_user { bots = some (drop_old did bots) }))
