-- ===== src/Db/Oauths/Sweep.antt =====
-- The sweep of bumper/db.py over `oauth`, which removes by id the documents of a snapshot.
use bumper.Prelude.{
  ℕ, suc, ◌≤◌, ◌<◌, ◌≡◌, refl, sym, ◌∙◌, Bool, false, not, Option, none, some, List, [], ◌∷◌, ◌++◌,
  arith, inl, inr, if◌then◌else◌, leb, is_some, Bool-cases, Option-cases, append_assoc, All,
  all_nil, all_cons,
}
use bumper.Prelude.Exec.{ok}
use bumper.Tiny.{TinyDb}
use bumper.Tiny.Rows.{Document, any_match}
use bumper.Tiny.Rows.Laws.{HasId-middle, without-middle}
use bumper.Db.{Db}
use bumper.Db.Documents.{OauthDoc}
use bumper.Db.Oauths.{LocalClock, now_at, remove_oauth, sweep_oauths, revoke_expired_oauths}

-- A document without `expire_at`
abbrev pub lacks_expire_at : OauthDoc → Bool
lacks_expire_at d = not (is_some d.expire_at)

-- `datetime.now() >= expire_at`, at a local time
unfoldable pub is_over : ℕ → OauthDoc → Bool
is_over now d = elim d.expire_at [ none ↦ false | some e ↦ leb e now ]

-- The documents that stay when they are looked at in turn, the first in the round `k`.
unfoldable pub remaining : LocalClock → ℕ → List (Document OauthDoc) → List (Document OauthDoc)
unfolding is_over
remaining clock k [] = []
remaining clock k (r ∷ l) =
    let rest = remaining clock (suc k) l in
    if is_over (now_at clock k) r.fields then rest else r ∷ rest

is_over_lem : (now e : ℕ) (d : OauthDoc) → d.expire_at ≡ some e → is_over now d ≡ leb e now
unfolding is_over
is_over_lem now e d h = rw h

-- An instant that is there, and later than another.
abbrev pub IsAfter : ℕ → Option ℕ → Type 0
IsAfter t o = (e : ℕ) × (o ≡ some e) × (t < e)

-- The dates of those that stay show a later time than any that is not after the readings.
pub remaining_late :
    (clock : LocalClock) (k t : ℕ) (l : List (Document OauthDoc))
    → ((i : ℕ) → t ≤ now_at clock i)
    → any_match lacks_expire_at l ≡ false
    → All (λ r. IsAfter t r.fields.expire_at) (remaining clock k l)
unfolding remaining any_match
remaining_late clock k t [] before dated = all_nil
remaining_late clock k t (r ∷ l) before dated =
    let rest = remaining_late clock (suc k) t l before (ground arith) in
    elim (Option-cases r.fields.expire_at) [
      | inl missing ↦ absurd (ground (arith, missing))
      | inr (e, there) ↦ elim (Bool-cases (leb e (now_at clock k))) [
        | inl late ↦ rw (is_over_lem (now_at clock k) e r.fields there, late, remaining) rest
        | inr early ↦
            rw (is_over_lem (now_at clock k) e r.fields there, early, remaining)
              (all_cons (e, there, ground (arith, before k)) rest)
      ]
    ]

module _ {tiny : TinyDb} where
  all-remove_oauth :
      (db : Db tiny) (pre suf : List (Document OauthDoc)) (r : Document OauthDoc)
      → tiny.all db.oauth ≡ pre ++ r ∷ suf
      → tiny.all (remove_oauth r.doc_id db).oauth ≡ pre ++ suf
  all-remove_oauth db pre suf r h =
      let d = tiny.distinct db.oauth in
      tiny.all-remove r.doc_id db.oauth (rw h (HasId-middle pre suf r))
      ∙ rw h (without-middle pre suf r (rw h at d))

  sweep_oauths_lem :
      (clock : LocalClock) (k : ℕ) (pre suf : List (Document OauthDoc)) (db : Db tiny)
      → tiny.all db.oauth ≡ pre ++ suf
      → any_match lacks_expire_at suf ≡ false
      → ((sweep_oauths clock k suf db).0 ≡ ok tt)
        × (tiny.all (sweep_oauths clock k suf db).1.oauth ≡ pre ++ remaining clock k suf)
  unfolding sweep_oauths remaining any_match
  sweep_oauths_lem clock k pre [] db h dated = (refl, h)
  sweep_oauths_lem clock k pre (r ∷ suf) db h dated = elim (Option-cases r.fields.expire_at) [
    | inl missing ↦ absurd (ground (arith, missing))
    | inr (x, there) ↦ elim (Bool-cases (leb x (now_at clock k))) [
      | inl late ↦
          simp (there, late, is_over_lem (now_at clock k) x r.fields there)
            (sweep_oauths_lem clock (suc k) pre suf (remove_oauth r.doc_id db)
              (all-remove_oauth db pre suf r h) (ground arith))
      | inr early ↦
          let (result, rows) =
            sweep_oauths_lem clock (suc k) (pre ++ r ∷ []) suf db
              (h ∙ sym (append_assoc pre (r ∷ []) suf)) (ground arith) in
          simp (there, early, is_over_lem (now_at clock k) x r.fields there)
            (result, rows ∙ append_assoc pre (r ∷ []) (remaining clock (suc k) suf))
    ]
  ]

  -- If every entry has an `expire_at`, the sweep returns, and leaves exactly those whose date
  -- shows a later time than the local one when they were looked at.
  pub revoke_expired_oauths_lem :
      (clock : LocalClock) (db : Db tiny)
      → any_match lacks_expire_at (tiny.all db.oauth) ≡ false
      → ((revoke_expired_oauths clock db).0 ≡ ok tt)
        × (tiny.all (revoke_expired_oauths clock db).1.oauth
            ≡ remaining clock 0 (tiny.all db.oauth))
  unfolding revoke_expired_oauths
  revoke_expired_oauths_lem clock db dated =
      sweep_oauths_lem clock 0 [] (tiny.all db.oauth) db refl dated
