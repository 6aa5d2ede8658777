-- ===== src/Start/Expiry.antt =====
-- What the maintenance of bumper/__init__.py leaves in the database.
use bumper.Prelude.{
  ℕ, suc, ◌≤◌, ◌≡◌, refl, ◌∙◌, ap, true, false, some, List, [], ◌∷◌, arith, inl, inr, leb,
  Bool-cases, Option-cases, All, all_nil, all_cons,
}
use bumper.Prelude.Exec.{Exec, ok, ◌>>◌}
use bumper.Tiny.{TinyDb}
use bumper.Tiny.Rows.{Document, any_match}
use bumper.Db.{Db}
use bumper.Db.Documents.{TokenDoc, OauthDoc}
use bumper.Db.Tokens.{revoke_expired_tokens}
use bumper.Db.Tokens.Sweep.{lacks_key, is_expired, survivors, revoke_expired_tokens_lem}
use bumper.Db.Tokens.Stopped.{sweep_keeps}
use bumper.Db.Oauths.{LocalClock, now_at, remove_oauth, sweep_oauths, revoke_expired_oauths}
use bumper.Db.Oauths.Sweep.{
  lacks_expire_at, remaining, IsAfter, remaining_late, revoke_expired_oauths_lem,
}
use bumper.Start.{maintenance}

is_expired_lem : (now e : ℕ) (d : TokenDoc) → d.expiration ≡ some e → is_expired now d ≡ leb e now
unfolding is_expired
is_expired_lem now e d h = rw h

survivors_late :
    (clock : ℕ → ℕ) (k t : ℕ) (l : List (Document TokenDoc))
    → ((i : ℕ) → t ≤ clock i)
    → any_match lacks_key l ≡ false
    → All (λ r. IsAfter t r.fields.expiration) (survivors clock k (λ d. true) l)
unfolding survivors any_match
survivors_late clock k t [] before dated = all_nil
survivors_late clock k t (r ∷ l) before dated =
    let rest = survivors_late clock (suc k) t l before (ground arith) in
    elim (Option-cases r.fields.expiration) [
      | inl missing ↦ absurd (ground (arith, missing))
      | inr (e, there) ↦ elim (Bool-cases (leb e (clock k))) [
        | inl late ↦ rw (is_expired_lem (clock k) e r.fields there, late, survivors) rest
        | inr early ↦
            rw (is_expired_lem (clock k) e r.fields there, early, survivors)
              (all_cons (e, there, ground (arith, before k)) rest)
      ]
    ]

module _ {tiny : TinyDb} where
  sweep_oauths_tokens :
      (clock : LocalClock) (k : ℕ) (l : List (Document OauthDoc)) (db : Db tiny)
      → (sweep_oauths clock k l db).1.tokens ≡ db.tokens
  unfolding sweep_oauths
  sweep_oauths_tokens clock k [] db = refl
  sweep_oauths_tokens clock k (r ∷ l) db = elim (Option-cases r.fields.expire_at) [
    | inl h ↦ rw (h, sweep_oauths) refl
    | inr (e, h) ↦ elim (Bool-cases (leb e (now_at clock k))) [
      | inl late ↦
          rw (h, sweep_oauths)
            (rw (late) (sweep_oauths_tokens clock (suc k) l (remove_oauth r.doc_id db)))
      | inr early ↦ rw (h, sweep_oauths) (rw (early) (sweep_oauths_tokens clock (suc k) l db))
    ]
  ]

  then_ok :
      {A : Type 0} (m : Exec (Db tiny) (Unit {0})) (n : Exec (Db tiny) A) (db : Db tiny)
      → (m db).0 ≡ ok tt
      → (m >> n) db ≡ n (m db).1
  then_ok m n db h = rw h refl

  -- If every document of `tokens` has an expiration and a token, and every entry of `oauth` its date,
  -- the maintenance returns. It leaves exactly the tokens that had not expired when they were looked
  -- at, and the entries whose date, which is UTC, showed a later time than the local one then. Each
  -- of these tokens expires later than any local time that is not after the readings of the clock, and
  -- the date of each of these entries shows a later time than that.
  pub maintenance_lem :
      (clock : ℕ → ℕ) (later : LocalClock) (t : ℕ) (db : Db tiny)
      → ((i : ℕ) → t ≤ clock i)
      → ((i : ℕ) → t ≤ now_at later i)
      → any_match lacks_key (tiny.all db.tokens) ≡ false
      → any_match lacks_expire_at (tiny.all db.oauth) ≡ false
      → (let after = maintenance clock later db in
          (after.0 ≡ ok tt)
          × (tiny.all after.1.tokens ≡ survivors clock 0 (λ d. true) (tiny.all db.tokens))
          × (tiny.all after.1.oauth ≡ remaining later 0 (tiny.all db.oauth))
          × All (λ r. IsAfter t r.fields.expiration) (tiny.all after.1.tokens)
          × All (λ r. IsAfter t r.fields.expire_at) (tiny.all after.1.oauth))
  unfolding maintenance revoke_expired_tokens revoke_expired_oauths
  maintenance_lem clock later t db before before_later dated dated_oauth =
      rw (then_ok (revoke_expired_tokens clock) (revoke_expired_oauths later) db swept.0) (
        entries.0,
        tokens_are,
        oauth_are,
        rw tokens_are (survivors_late clock 0 t (tiny.all db.tokens) before dated),
        rw oauth_are (remaining_late later 0 t (tiny.all db.oauth) before_later dated_oauth),
      )
    where
      mid : Db tiny
      mid = (revoke_expired_tokens clock db).1

      swept :
          ((revoke_expired_tokens clock db).0 ≡ ok tt)
          × (tiny.all mid.tokens ≡ survivors clock 0 (λ d. true) (tiny.all db.tokens))
      swept = revoke_expired_tokens_lem clock db dated

      same_oauth : mid.oauth ≡ db.oauth
      same_oauth = sweep_keeps (λ d. d.oauth) (λ i d. refl) clock 0 (tiny.all db.tokens) db

      entries :
          ((revoke_expired_oauths later mid).0 ≡ ok tt)
          × (tiny.all (revoke_expired_oauths later mid).1.oauth
              ≡ remaining later 0 (tiny.all mid.oauth))
      entries = revoke_expired_oauths_lem later mid (rw same_oauth dated_oauth)

      tokens_are :
          tiny.all (revoke_expired_oauths later mid).1.tokens
          ≡ survivors clock 0 (λ d. true) (tiny.all db.tokens)
      tokens_are =
          ap (λ x. tiny.all x) (sweep_oauths_tokens later 0 (tiny.all mid.oauth) mid) ∙ swept.1

      oauth_are :
          tiny.all (revoke_expired_oauths later mid).1.oauth ≡ remaining later 0 (tiny.all db.oauth)
      oauth_are = entries.1 ∙ ap (λ x. remaining later 0 (tiny.all x)) same_oauth
