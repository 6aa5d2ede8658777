-- ===== src/Db/Oauths.antt =====
-- bumper/db.py and bumper/models.py: the table `oauth`. The key of a stored entry's user is
-- `userId`; the two methods that look a user up ask for `userid`.
pub mod Reuse
pub mod Sweep
use bumper.Prelude.{
  ℕ, suc, ◌+◌, ◌*◌, String, Bool, none, some, List, [], ◌∷◌, if◌then◌else◌, leb, field_is,
}
use bumper.Prelude.Exec.{Exec, ok, err, value_error, ◌>>◌}
use bumper.Tiny.{TinyDb}
use bumper.Tiny.Rows.{Document}
use bumper.Db.{Db}
use bumper.Db.Documents.{OauthDoc}

-- `bumper.oauth_validity_days`, in microseconds
abbrev pub oauth_validity : ℕ
oauth_validity = 15 * 24 * 3600 * 1000000

-- The readings of `datetime.now()` in a sweep: the UTC instant of each round, and the local time that
-- the zone shows at an instant.
pub record LocalClock : Type 0 where
  pub utc : ℕ → ℕ
  pub local : ℕ → ℕ

abbrev pub now_at : LocalClock → ℕ → ℕ
now_at clock k = clock.local (clock.utc k)

-- What `OAuth.create_new` reads: `uuid4().hex` twice, and the clock in UTC.
pub record Fresh : Type 0 where
  pub access : String
  pub refresh : String
  pub utcnow : ℕ

-- `OAuth.create_new`, as `toDB` writes it
abbrev pub create_new : Fresh → String → OauthDoc
create_new fresh userid = record {
  userid = none;
  user_id = some userid;
  access_token = some fresh.access;
  expire_at = some (fresh.utcnow + oauth_validity);
  refresh_token = some fresh.refresh;
}

abbrev pub oauth_of : String → OauthDoc → Bool
oauth_of userid d = field_is d.userid userid

module _ {tiny : TinyDb} where
  abbrev pub remove_oauth : ℕ → Db tiny → Db tiny
  remove_oauth i db = record db { oauth = tiny.remove i db.oauth }

  -- The loop of both sweeps. The date of an entry is UTC and `datetime.now()` local time; neither has a
  -- zone, and what the two show is compared. An entry without
  -- `expire_at` has the class's default, the empty text, which `fromisoformat` refuses.
  unfoldable pub sweep_oauths :
      LocalClock → ℕ → List (Document OauthDoc) → Exec (Db tiny) (Unit {0})
  sweep_oauths clock k [] db = (ok tt, db)
  sweep_oauths clock k (r ∷ rest) db = elim r.fields.expire_at [
    | none ↦ (err value_error, db)
    | some expire_at ↦
        sweep_oauths clock (suc k) rest
          (if leb expire_at (now_at clock k) then remove_oauth r.doc_id db else db)
  ]

  unfoldable pub revoke_expired_oauths : LocalClock → Exec (Db tiny) (Unit {0})
  unfolding sweep_oauths
  revoke_expired_oauths clock db = sweep_oauths clock 0 (tiny.all db.oauth) db

  unfoldable pub user_revoke_expired_oauths : LocalClock → String → Exec (Db tiny) (Unit {0})
  unfolding sweep_oauths
  user_revoke_expired_oauths clock userid db =
      sweep_oauths clock 0 (tiny.search (oauth_of userid) db.oauth) db

  abbrev pub find_or_create : Fresh → String → Exec (Db tiny) OauthDoc
  find_or_create fresh userid db = elim (tiny.get (oauth_of userid) db.oauth) [
    | some entry ↦ (ok entry.fields, db)
    | none ↦ (
      ok (create_new fresh userid),
      record db { oauth = (tiny.insert (create_new fresh userid) db.oauth).1 },
    )
  ]

  unfoldable pub user_add_oauth : LocalClock → Fresh → String → Exec (Db tiny) OauthDoc
  unfolding user_revoke_expired_oauths
  user_add_oauth clock fresh userid =
      user_revoke_expired_oauths clock userid >> find_or_create fresh userid
