-- ===== src/Db/Tokens/Stopped.antt =====
-- What a sweep of bumper/db.py over `tokens` leaves, whether it returns or a missing key stops it.
use bumper.Prelude.{
  ℕ, suc, String, ◌≡◌, refl, ◌∙◌, subst, Bool, true, List, [], ◌∷◌, ◌++◌, inl, inr, leb, is_some,
  Bool-cases, Option-cases, append_assoc,
}
use bumper.Tiny.{TinyDb}
use bumper.Tiny.Rows.{Document, matching}
use bumper.Db.{Db}
use bumper.Db.Documents.{TokenDoc}
use bumper.Db.Tokens.{
  of_user, user_get_tokens, remove_token, sweep_tokens, user_revoke_expired_tokens,
  revoke_expired_tokens,
}
use bumper.Db.Tokens.Parts.{IsPart, no_more, kept, left_out, same-IsPart, middle-IsPart}
use bumper.Db.Tokens.Sweep.{all-remove_token, matching_all, move_over}

trans-IsPart : {l m n : List (Document TokenDoc)} → IsPart l m → IsPart m n → IsPart l n
trans-IsPart p no_more = p
trans-IsPart (kept p) (kept q) = kept (trans-IsPart p q)
trans-IsPart (left_out p) (kept q) = left_out (trans-IsPart p q)
trans-IsPart p (left_out q) = left_out (trans-IsPart p q)

rows-IsPart : (l m : List (Document TokenDoc)) → l ≡ m → IsPart l m
rows-IsPart l m h = subst (λ x. IsPart l x) h (same-IsPart l)

module _ {tiny : TinyDb} where
  -- What no removal of a token changes, no sweep changes.
  pub sweep_keeps :
      {X : Type 0} (f : Db tiny → X)
      → ((i : ℕ) (db : Db tiny) → f (remove_token i db) ≡ f db)
      → (clock : ℕ → ℕ) (k : ℕ) (l : List (Document TokenDoc)) (db : Db tiny)
      → f (sweep_tokens clock k l db).1 ≡ f db
  unfolding sweep_tokens
  sweep_keeps f same clock k [] db = refl
  sweep_keeps f same clock k (r ∷ l) db = elim (Option-cases r.fields.expiration) [
    | inl h ↦ simp (h) refl
    | inr (e, h) ↦ elim (Bool-cases (leb e (clock k))) [
      | inr early ↦ simp (h, early) (sweep_keeps f same clock (suc k) l db)
      | inl late ↦ elim (Bool-cases (is_some r.fields.token)) [
        | inl there ↦
            simp (h, late, there)
              (sweep_keeps f same clock (suc k) l (remove_token r.doc_id db) ∙ same r.doc_id db)
        | inr missing ↦ simp (h, late, missing) refl
      ]
    ]
  ]

  sweep-IsPart :
      (clock : ℕ → ℕ) (k : ℕ) (q : TokenDoc → Bool) (pre suf : List (Document TokenDoc))
      (db : Db tiny)
      → tiny.all db.tokens ≡ pre ++ suf
      → IsPart (tiny.all (sweep_tokens clock k (matching q suf) db).1.tokens) (pre ++ suf)
  unfolding sweep_tokens matching
  sweep-IsPart clock k q pre [] db h = rows-IsPart _ _ h
  sweep-IsPart clock k q pre (r ∷ suf) db h =
      let over = move_over (tiny.all db.tokens) pre suf r h in
      let stays = λ (x : List (Document TokenDoc)) (p : IsPart x ((pre ++ r ∷ []) ++ suf)).
        subst (λ y. IsPart x y) (append_assoc pre (r ∷ []) suf) p in
      elim (Bool-cases (q r.fields)) [
        | inr e ↦ simp (e) (stays _ (sweep-IsPart clock k q (pre ++ r ∷ []) suf db over))
        | inl e ↦ elim (Option-cases r.fields.expiration) [
          | inl missing ↦ simp (e, missing) (rows-IsPart _ _ h)
          | inr (x, there) ↦ elim (Bool-cases (leb x (clock k))) [
            | inr early ↦
                simp (e, there, early)
                  (stays _ (sweep-IsPart clock (suc k) q (pre ++ r ∷ []) suf db over))
            | inl late ↦ elim (Bool-cases (is_some r.fields.token)) [
              | inr no_token ↦ simp (e, there, late, no_token) (rows-IsPart _ _ h)
              | inl with_token ↦
                  simp (e, there, late, with_token)
                    (trans-IsPart
                      (sweep-IsPart clock (suc k) q pre suf (remove_token r.doc_id db)
                        (all-remove_token db pre suf r h))
                      (middle-IsPart pre suf r))
            ]
          ]
        ]
      ]

  pub user_sweep-IsPart :
      (clock : ℕ → ℕ) (u : String) (db : Db tiny)
      → IsPart (tiny.all (user_revoke_expired_tokens clock u db).1.tokens) (tiny.all db.tokens)
  unfolding user_revoke_expired_tokens user_get_tokens
  user_sweep-IsPart clock u db =
      rw tiny.search_matching (sweep-IsPart clock 0 (of_user u) [] (tiny.all db.tokens) db refl)

  pub sweep_all-IsPart :
      (clock : ℕ → ℕ) (db : Db tiny)
      → IsPart (tiny.all (revoke_expired_tokens clock db).1.tokens) (tiny.all db.tokens)
  unfolding revoke_expired_tokens
  sweep_all-IsPart clock db =
      let part = sweep-IsPart clock 0 (λ d. true) [] (tiny.all db.tokens) db refl in
      rw matching_all at part
