-- ===== src/Db/Tokens/Sweep.antt =====
-- The sweeps of bumper/db.py over `tokens`, which remove by id the documents of a snapshot.
use bumper.Prelude.{
  ℕ, suc, String, ◌≡◌, refl, sym, ◌∙◌, ap, Bool, true, false, not, ◌||◌, none, some, List, [], ◌∷◌,
  ◌++◌, arith, inl, inr, if◌then◌else◌, leb, is_some, Bool-cases, Option-cases, append_assoc,
}
use bumper.Prelude.Exec.{ok}
use bumper.Tiny.{TinyDb}
use bumper.Tiny.Rows.{Document, matching, any_match}
use bumper.Tiny.Rows.Laws.{HasId-middle, without-middle}
use bumper.Db.{Db}
use bumper.Db.Documents.{TokenDoc}
use bumper.Db.Tokens.{
  of_user, user_get_tokens, remove_token, remove_tokens, sweep_tokens, user_revoke_all_tokens,
  user_revoke_expired_tokens, revoke_expired_tokens,
}

-- A document without the key `expiration`.
abbrev pub lacks_expiration : TokenDoc → Bool
lacks_expiration d = not (is_some d.expiration)

-- A document without one of the two keys that a sweep reads.
abbrev pub lacks_key : TokenDoc → Bool
lacks_key d = not (is_some d.expiration) || not (is_some d.token)

-- `datetime.now() >= expiration`, at an instant
unfoldable pub is_expired : ℕ → TokenDoc → Bool
is_expired now d = elim d.expiration [ none ↦ false | some e ↦ leb e now ]

is_expired_lem : (now e : ℕ) (d : TokenDoc) → d.expiration ≡ some e → is_expired now d ≡ leb e now
unfolding is_expired
is_expired_lem now e d h = rw h

-- The documents that stay when those which `q` selects are looked at in turn, the first at the
-- instant `clock k`, and dropped if they have expired by then.
unfoldable pub survivors :
    (ℕ → ℕ) → ℕ → (TokenDoc → Bool) → List (Document TokenDoc) → List (Document TokenDoc)
survivors clock k q [] = []
survivors clock k q (r ∷ l) =
    let looked = survivors clock (suc k) q l in
    let passed = survivors clock k q l in
    if q r.fields
    then (if is_expired (clock k) r.fields then looked else r ∷ looked)
    else r ∷ passed

-- The documents that a query does not select.
unfoldable pub others : (TokenDoc → Bool) → List (Document TokenDoc) → List (Document TokenDoc)
others q [] = []
others q (r ∷ l) = let rest = others q l in if q r.fields then rest else r ∷ rest

pub move_over :
    (l pre suf : List (Document TokenDoc)) (r : Document TokenDoc)
    → l ≡ pre ++ r ∷ suf
    → l ≡ (pre ++ r ∷ []) ++ suf
move_over l pre suf r h = h ∙ sym (append_assoc pre (r ∷ []) suf)

pub matching_all : (l : List (Document TokenDoc)) → matching (λ d. true) l ≡ l
unfolding matching
matching_all [] = refl
matching_all (r ∷ l) = ap (λ m. r ∷ m) (matching_all l)

has_token :
    (r : Document TokenDoc) (suf : List (Document TokenDoc))
    → any_match lacks_key (r ∷ suf) ≡ false
    → is_some r.fields.token ≡ true
unfolding any_match
has_token r suf dated = ground arith

module _ {tiny : TinyDb} where
  pub all-remove_token :
      (db : Db tiny) (pre suf : List (Document TokenDoc)) (r : Document TokenDoc)
      → tiny.all db.tokens ≡ pre ++ r ∷ suf
      → tiny.all (remove_token r.doc_id db).tokens ≡ pre ++ suf
  all-remove_token db pre suf r h =
      let d = tiny.distinct db.tokens in
      tiny.all-remove r.doc_id db.tokens (rw h (HasId-middle pre suf r))
      ∙ rw h (without-middle pre suf r (rw h at d))

  sweep_lem :
      (clock : ℕ → ℕ) (k : ℕ) (q : TokenDoc → Bool) (pre suf : List (Document TokenDoc))
      (db : Db tiny)
      → tiny.all db.tokens ≡ pre ++ suf
      → any_match lacks_key suf ≡ false
      → ((sweep_tokens clock k (matching q suf) db).0 ≡ ok tt)
        × (tiny.all (sweep_tokens clock k (matching q suf) db).1.tokens
            ≡ pre ++ survivors clock k q suf)
  unfolding sweep_tokens matching survivors any_match
  sweep_lem clock k q pre [] db h dated = (refl, h)
  sweep_lem clock k q pre (r ∷ suf) db h dated =
      let kept = move_over (tiny.all db.tokens) pre suf r h in
      elim (Bool-cases (q r.fields)) [
        | inr e ↦
            let (result, rows) = sweep_lem clock k q (pre ++ r ∷ []) suf db kept (ground arith) in
            rw e (result, rows ∙ append_assoc pre (r ∷ []) (survivors clock k q suf))
        | inl e ↦ elim (Option-cases r.fields.expiration) [
          | inl missing ↦ absurd (ground (arith, missing))
          | inr (x, there) ↦ elim (Bool-cases (leb x (clock k))) [
            | inl late ↦
                simp
                  (e, there, late, has_token r suf dated, is_expired_lem (clock k) x r.fields there)
                  (sweep_lem clock (suc k) q pre suf (remove_token r.doc_id db)
                    (all-remove_token db pre suf r h) (ground arith))
            | inr early ↦
                let (result, rows) =
                  sweep_lem clock (suc k) q (pre ++ r ∷ []) suf db kept (ground arith) in
                simp (e, there, early, is_expired_lem (clock k) x r.fields there)
                  (result, rows ∙ append_assoc pre (r ∷ []) (survivors clock (suc k) q suf))
          ]
        ]
      ]

  -- If every document of `tokens` has an expiration and a token, the sweep of one user's tokens
  -- returns, and leaves exactly
  -- the tokens of other users and those of the user that had not expired when they were looked at.
  pub user_revoke_expired_tokens_lem :
      (clock : ℕ → ℕ) (u : String) (db : Db tiny)
      → any_match lacks_key (tiny.all db.tokens) ≡ false
      → ((user_revoke_expired_tokens clock u db).0 ≡ ok tt)
        × (tiny.all (user_revoke_expired_tokens clock u db).1.tokens
            ≡ survivors clock 0 (of_user u) (tiny.all db.tokens))
  unfolding user_revoke_expired_tokens
  user_revoke_expired_tokens_lem clock u db dated =
      rw tiny.search_matching (sweep_lem clock 0 (of_user u) [] (tiny.all db.tokens) db refl dated)

  -- If every document of `tokens` has an expiration and a token, the sweep of all tokens returns,
  -- and leaves exactly those
  -- that had not expired when they were looked at.
  pub revoke_expired_tokens_lem :
      (clock : ℕ → ℕ) (db : Db tiny)
      → any_match lacks_key (tiny.all db.tokens) ≡ false
      → ((revoke_expired_tokens clock db).0 ≡ ok tt)
        × (tiny.all (revoke_expired_tokens clock db).1.tokens
            ≡ survivors clock 0 (λ d. true) (tiny.all db.tokens))
  unfolding revoke_expired_tokens
  revoke_expired_tokens_lem clock db dated =
      let swept = sweep_lem clock 0 (λ d. true) [] (tiny.all db.tokens) db refl dated in
      rw matching_all at swept

  remove_all_lem :
      (q : TokenDoc → Bool) (pre suf : List (Document TokenDoc)) (db : Db tiny)
      → tiny.all db.tokens ≡ pre ++ suf
      → tiny.all (remove_tokens (matching q suf) db).tokens ≡ pre ++ others q suf
  unfolding remove_tokens matching others
  remove_all_lem q pre [] db h = h
  remove_all_lem q pre (r ∷ suf) db h = elim (Bool-cases (q r.fields)) [
    | inr e ↦ rw e (
        remove_all_lem q (pre ++ r ∷ []) suf db (move_over (tiny.all db.tokens) pre suf r h)
        ∙ append_assoc pre (r ∷ []) (others q suf))
    | inl e ↦
        rw e (remove_all_lem q pre suf (remove_token r.doc_id db) (all-remove_token db pre suf r h))
  ]

  -- `user_revoke_all_tokens` leaves exactly the tokens of the other users, in their order.
  pub user_revoke_all_tokens_lem :
      (u : String) (db : Db tiny)
      → tiny.all (user_revoke_all_tokens u db).tokens ≡ others (of_user u) (tiny.all db.tokens)
  unfolding user_revoke_all_tokens user_get_tokens
  user_revoke_all_tokens_lem u db =
      rw tiny.search_matching (remove_all_lem (of_user u) [] (tiny.all db.tokens) db refl)
