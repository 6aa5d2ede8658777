-- ===== src/Web/Entry.antt =====
-- The login of bumper/web/auth_util.py, which is `_auth_any` for every request, and the token that it
-- hands out.
use bumper.Prelude.{
  ℕ, suc, ◌+◌, ◌<◌, String, ◌≡◌, refl, sym, ◌∙◌, ap, Option, none, some, List, [], ◌∷◌, ◌++◌, inl,
  inr, field_is, eq_refl, Bool, true, false, ◌&&◌, Bool-cases, Option-cases, arith, some_inj, subst,
}
use bumper.Prelude.Exec.{Result, ok, need, key_error}
use bumper.Prelude.Text.{has_sub, replace}
use bumper.Tiny.{TinyDb}
use bumper.Tiny.Rows.{Document, any_match}
use bumper.Tiny.Rows.Laws.{any_match-first, any_match-append}
use bumper.Db.{Db}
use bumper.Db.Documents.{UserDoc, TokenDoc}
use bumper.Db.Tokens.{
  is_pair, token_validity, of_user, of_uid, user_get_tokens, user_get_token, user_add_token,
  check_token, user_revoke_expired_tokens,
}
use bumper.Db.Tokens.Sweep.{lacks_key, is_expired, survivors, user_revoke_expired_tokens_lem}
use bumper.Db.Tokens.Stopped.{sweep_keeps}
use bumper.Db.Tokens.Views.{new_token}
use bumper.Db.Users.{add_new, user_get, user_by_device_id, user_add, user_add_device}
use bumper.Db.Users.Views.{user_view, user_view_userid}
use bumper.Web.{Request, WebEnv, Web}
use bumper.Web.Auth.{
  lift, get_or, login_body, generate_token, device_user, auth_any_body, auth_any, login, add_bots,
}
use bumper.Web.Members.{bind_ok, HasLists, user_add_device_lem, add_bots_lem, tokens-user_add}

-- A document at the end that has not expired whenever it is looked at stays in a sweep.
survives :
    (clock : ℕ → ℕ) (k : ℕ) (q p : TokenDoc → Bool) (l : List (Document TokenDoc))
    (r : Document TokenDoc)
    → p r.fields ≡ true
    → ((i : ℕ) → is_expired (clock i) r.fields ≡ false)
    → any_match p (survivors clock k q (l ++ r ∷ [])) ≡ true
unfolding survivors any_match
survives clock k q p [] r found fresh = elim (Bool-cases (q r.fields)) [
  | inl e ↦ simp (e, fresh k, found) refl
  | inr e ↦ simp (e, found) refl
]
survives clock k q p (s ∷ l) r found fresh =
    let next = survives clock (suc k) q p l r found fresh in
    let passed = survives clock k q p l r found fresh in
    elim (Bool-cases (q s.fields)) [
      | inr e ↦ rw (e) (ground (arith, passed))
      | inl e ↦ elim (Bool-cases (is_expired (clock k) s.fields)) [
        | inl late ↦ rw (e) (rw (late) next)
        | inr early ↦ rw (e) (rw (early) (ground (arith, next)))
      ]
    ]

new_token-is_expired :
    (now instant : ℕ) (userid token : String)
    → instant < now + token_validity
    → is_expired instant (new_token now userid token) ≡ false
unfolding is_expired
new_token-is_expired now instant userid token early = ground arith

module _ {tiny : TinyDb} where
  -- A new token stays in the sweep behind it, so that it is accepted.
  check_token-swept :
      (clock : ℕ → ℕ) (now : ℕ) (userid token : String) (db after : Db tiny)
      → user_get_token userid token db ≡ none
      → any_match lacks_key (tiny.all db.tokens) ≡ false
      → ((i : ℕ) → clock i < now + token_validity)
      → replace "fuid_" "" userid ≡ userid
      → after.tokens ≡ (user_add_token now userid token db).tokens
      → ((user_revoke_expired_tokens clock userid after).0 ≡ ok tt)
        × (check_token userid token (user_revoke_expired_tokens clock userid after).1 ≡ true)
  unfolding user_add_token check_token
  check_token-swept clock now userid token db after missing keys in_time plain same =
      let (returned, left) = user_revoke_expired_tokens_lem clock userid after all_keys in
      (
        returned,
        rw (tiny.get_first) (
            any_match-first asked
              (tiny.all (user_revoke_expired_tokens clock userid after).1.tokens)
            ∙ rw (left, rows)
                (survives clock 0 (of_user userid) asked (tiny.all db.tokens) added
                  (rw (plain, eq_refl token, eq_refl userid) refl)
                  (λ i. new_token-is_expired now (clock i) userid token (in_time i)))),
      )
    where
      asked : TokenDoc → Bool
      asked d = field_is d.token token && of_uid userid d

      added : Document TokenDoc
      added = record {
        doc_id = (tiny.insert (new_token now userid token) db.tokens).0;
        fields = new_token now userid token;
      }

      rows : tiny.all after.tokens ≡ tiny.all db.tokens ++ added ∷ []
      rows =
          ap (λ t. tiny.all t) (same ∙ rw (missing, user_add_token) refl)
          ∙ tiny.all-insert (new_token now userid token) db.tokens

      all_keys : any_match lacks_key (tiny.all after.tokens) ≡ false
      all_keys = rw (rows, any_match-append, keys) (unfold any_match in refl)

  -- The user id of a login: that of the user of the device, else "tmpuser".
  abbrev pub login_name : String → Db tiny → Option String
  login_name devid db = elim (user_by_device_id devid db) [
    | none ↦ some "tmpuser"
    | some user ↦ user.fields.userid
  ]

  -- The database with that user in it.
  abbrev pub prepared : String → Db tiny → Db tiny
  prepared devid db = elim (user_by_device_id devid db) [
    | none ↦ user_add "tmpuser" db
    | some user ↦ db
  ]

  tokens-prepared : (devid : String) (db : Db tiny) → (prepared devid db).tokens ≡ db.tokens
  tokens-prepared devid db = elim (Option-cases (user_by_device_id devid db)) [
    | inl h ↦ rw (h, prepared) (tokens-user_add "tmpuser" db)
    | inr (r, h) ↦ rw (h, prepared) refl
  ]

  got_user :
      (userid : String) (user : UserDoc) (db : Db tiny)
      → user_view userid db ≡ some user
      → ((r : Document UserDoc) × (user_get userid db ≡ some r) × (r.fields.userid ≡ some userid))
  unfolding user_view
  got_user userid user db there = elim (Option-cases (user_get userid db)) [
    | inl e ↦ absurd (none-some (rw e at there))
    | inr (r, e) ↦ (r, e, user_view_userid userid db r.fields (rw e refl))
  ]
    where
      none-some : {x : UserDoc} → none ≡ some x → ⊥
      none-some h = cc

  device_user_lem :
      (env : WebEnv) (devid userid : String) (user : UserDoc) (s : Web tiny)
      → login_name devid s.db ≡ some userid
      → user_view userid (prepared devid s.db) ≡ some user
      → ((r : Document UserDoc) × (device_user env devid s
            ≡ (ok r, record s { db = prepared devid s.db }))
          × (r.fields.userid ≡ some userid))
  unfolding device_user
  device_user_lem env devid userid user s name_is there =
      elim (Option-cases (user_by_device_id devid s.db)) [
        | inr (r, h) ↦ (r, rw (h, device_user, prepared) refl, rw (h, login_name) at name_is)
        | inl h ↦
            let same = some_inj (rw (h, login_name) at name_is) in
            let there_now = rw (h, prepared) at there in
            let (r, e, id) = got_user "tmpuser" user (user_add "tmpuser" s.db) (
              subst (λ u. user_view u (user_add "tmpuser" s.db) ≡ some user) (sym same)
                there_now) in
            (r, rw (h, device_user, prepared) (rw (e) refl), id ∙ ap some same)
      ]

  -- The token of a login is stored, and the rest of the database stays.
  generate_token_lem :
      (env : WebEnv) (userid : String) (devices : List String) (t : Web tiny)
      → user_get_token userid (env.hex t.drawn) t.db ≡ none
      → HasLists userid devices t.db
      → HasLists userid devices (user_add_token env.now userid (env.hex t.drawn) t.db)
  unfolding user_add_token user_view user_get
  generate_token_lem env userid devices t missing h = record {
    user = h.user;
    is_there = rw (missing, user_add_token) (h.is_there);
    devices_are = h.devices_are;
    bots = h.bots;
    bots_are = h.bots_are;
  }

  swept-HasLists :
      (clock : ℕ → ℕ) (userid : String) (devices : List String) (db : Db tiny)
      → HasLists userid devices db
      → HasLists userid devices (user_revoke_expired_tokens clock userid db).1
  unfolding user_revoke_expired_tokens user_view user_get
  swept-HasLists clock userid devices db h = record {
    user = h.user;
    is_there =
        sweep_keeps (user_view userid) (λ i d. refl) clock 0 (user_get_tokens userid db) db
        ∙ h.is_there;
    devices_are = h.devices_are;
    bots = h.bots;
    bots_are = h.bots_are;
  }

  -- The login of a device that is no check of a token. Its user is the device's, else "tmpuser"; let it
  -- then have its lists, let the text of the new token be fresh and "fuid_" not stand in the user's id,
  -- let every stored token have an expiration and a token, and let the clock stay within the validity
  -- of the new one. The login answers with the details for that user and the new token, which
  -- `check_token` then accepts, and the device is one of the user's.
  pub login_lem :
      (env : WebEnv) (request : Request) (userid : String) (devices : List String) (s : Web tiny)
      → login_name (get_or "" request.devid) s.db ≡ some userid
      → HasLists userid devices (prepared (get_or "" request.devid) s.db)
      → has_sub "checkLogin" request.path ≡ false
      → user_get_token userid (env.hex s.drawn) s.db ≡ none
      → any_match lacks_key (tiny.all s.db.tokens) ≡ false
      → ((i : ℕ) → env.clock i < env.now + token_validity)
      → replace "fuid_" "" userid ≡ userid
      → (let after = login env request s in
          (after.0
            ≡ ok (
                login_body
                  (get_or "" request.apptype)
                  (get_or "us" request.country)
                  userid
                  (env.hex s.drawn)))
          × (check_token userid (env.hex s.drawn) after.1.db ≡ true)
          × HasLists userid (add_new (get_or "" request.devid) devices) after.1.db)
  unfolding login auth_any generate_token auth_any_body user_get_token
  login_lem env request userid devices s name_is lists no_check fresh keys in_time plain =
      rw (logged) (refl, swept.1, kept)
    where
      devid : String
      devid = get_or "" request.devid

      begun : Db tiny
      begun = prepared devid s.db

      token : String
      token = env.hex s.drawn

      fresh_now : user_get_token userid token begun ≡ none
      fresh_now = ap (λ t. tiny.get (is_pair userid token) t) (tokens-prepared devid s.db) ∙ fresh

      with_token : Db tiny
      with_token = user_add_token env.now userid token begun

      lists_token : HasLists userid devices with_token
      lists_token = generate_token_lem env userid devices (record s { db = begun }) fresh_now lists

      with_device : Db tiny
      with_device = (user_add_device userid devid with_token).1

      device :
          (user_add_device userid devid with_token ≡ (ok tt, with_device))
          × HasLists userid (add_new devid devices) with_device
          × (with_device.tokens ≡ with_token.tokens)
      device = user_add_device_lem userid devid devices with_token lists_token

      bots :
          (after : Db tiny) × (add_bots env userid (tiny.all s.db.bots) with_device
            ≡ (ok tt, after))
          × HasLists userid (add_new devid devices) after
          × (after.tokens ≡ with_device.tokens)
      bots =
          add_bots_lem env userid (tiny.all s.db.bots) (add_new devid devices) with_device device.1

      swept :
          ((user_revoke_expired_tokens env.clock userid bots.0).0 ≡ ok tt)
          × (check_token userid token (user_revoke_expired_tokens env.clock userid bots.0).1 ≡ true)
      swept =
          check_token-swept env.clock env.now userid token begun bots.0 fresh_now
            (ap (λ t. any_match lacks_key (tiny.all t)) (tokens-prepared devid s.db) ∙ keys) in_time
            plain (bots.3 ∙ device.2)

      final : Db tiny
      final = (user_revoke_expired_tokens env.clock userid bots.0).1

      kept : HasLists userid (add_new devid devices) final
      kept = swept-HasLists env.clock userid (add_new devid devices) bots.0 bots.2

      at : Db tiny → Web tiny
      at db = record { db = db; drawn = s.drawn + 1 }

      user :
          (r : Document UserDoc) × (device_user env devid s ≡ (ok r, record s { db = begun }))
          × (r.fields.userid ≡ some userid)
      user = device_user_lem env devid userid lists.user s name_is lists.is_there

      logged : login env request s ≡ (
        ok (login_body (get_or "" request.apptype) (get_or "us" request.country) userid token),
        at final,
      )
      logged =
          bind_ok (device_user env devid) _ s (record s { db = begun }) user.0 user.1
          ∙ bind_ok (need key_error user.0.fields.userid) _ (record s { db = begun })
              (record s { db = begun }) userid (rw (user.2) refl)
          ∙ bind_ok (lift env (user_add_device userid devid)) _ (at with_token) (at with_device) tt
              (ap (λ (x : Result (Unit {0}) × Db tiny). (x.0, at x.1)) device.0)
          ∙ bind_ok (lift env (add_bots env userid (tiny.all s.db.bots))) _ (at with_device)
              (at bots.0) tt (ap (λ (x : Result (Unit {0}) × Db tiny). (x.0, at x.1)) bots.1)
          ∙ rw (no_check) (
              bind_ok (lift env (user_revoke_expired_tokens env.clock userid)) _ (at bots.0)
                (at final) tt (ap (λ (x : Result (Unit {0})). (x, at final)) swept.0))
