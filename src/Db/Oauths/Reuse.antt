-- ===== src/Db/Oauths/Reuse.antt =====
-- `user_add_oauth` of bumper/db.py asks for the key `userid`, while `OAuth.create_new` of
-- bumper/models.py stores `userId`.
use bumper.Prelude.{
  String, ◌≡◌, refl, sym, ◌∙◌, ap, false, none, List, [], ◌∷◌, ◌++◌, map, arith, is_some,
  append-nil, append_assoc,
}
use bumper.Prelude.Exec.{ok}
use bumper.Tiny.{TinyDb}
use bumper.Tiny.Rows.{Document, first, matching, any_match}
use bumper.Tiny.Rows.Laws.{any_match-append}
use bumper.Db.{Db, empty_db}
use bumper.Db.Documents.{OauthDoc}
use bumper.Db.Oauths.{
  LocalClock, Fresh, create_new, oauth_of, sweep_oauths, find_or_create, user_add_oauth,
}

-- One call of `user_add_oauth`, with what it reads.
pub record Call : Type 0 where
  pub clock : LocalClock
  pub fresh : Fresh
  pub user : String

abbrev pub created : Call → OauthDoc
created c = create_new c.fresh c.user

unmatched :
    (u : String) (l : List (Document OauthDoc))
    → any_match (λ d. is_some d.userid) l ≡ false
    → (first (oauth_of u) l ≡ none) × (matching (oauth_of u) l ≡ [])
unfolding any_match first matching
unmatched u [] h = (refl, refl)
unmatched u (r ∷ l) h =
    let ih = unmatched u l (ground arith) in (ground (arith, ih.0), ground (arith, ih.1))

fields-append :
    (l m : List (Document OauthDoc))
    → map (λ r. r.fields) (l ++ m) ≡ map (λ r. r.fields) l ++ map (λ r. r.fields) m
fields-append [] m = refl
fields-append (r ∷ l) m = ap (λ t. r.fields ∷ t) (fields-append l m)

module _ {tiny : TinyDb} where
  -- No stored entry has the key `userid`.
  abbrev pub HasNoUserid : Db tiny → Type 0
  HasNoUserid db = any_match (λ d. is_some d.userid) (tiny.all db.oauth) ≡ false

  find_missing :
      (fresh : Fresh) (u : String) (db : Db tiny)
      → tiny.get (oauth_of u) db.oauth ≡ none
      → find_or_create fresh u db ≡ (
        ok (create_new fresh u),
        record db { oauth = (tiny.insert (create_new fresh u) db.oauth).1 },
      )
  find_missing fresh u db e = rw (e, find_or_create)

  -- Where no stored entry has the key `userid`, `user_add_oauth` stores and returns a new entry,
  -- whatever is stored for that user.
  pub user_add_oauth_lem :
      (clock : LocalClock) (fresh : Fresh) (u : String) (db : Db tiny)
      → HasNoUserid db
      → user_add_oauth clock fresh u db ≡ (
        ok (create_new fresh u),
        record db { oauth = (tiny.insert (create_new fresh u) db.oauth).1 },
      )
  unfolding user_add_oauth sweep_oauths
  user_add_oauth_lem clock fresh u db h =
      let none_found = unmatched u (tiny.all db.oauth) h in
      rw (tiny.search_matching, none_found.1, sweep_oauths)
        (find_missing fresh u db (tiny.get_first (oauth_of u) db.oauth ∙ none_found.0))

  unfoldable pub add_all : List Call → Db tiny → Db tiny
  add_all [] db = db
  add_all (c ∷ calls) db = add_all calls (user_add_oauth c.clock c.fresh c.user db).1

  add-HasNoUserid :
      (c : Call) (db : Db tiny)
      → HasNoUserid db
      → HasNoUserid (user_add_oauth c.clock c.fresh c.user db).1
  add-HasNoUserid c db h =
      rw (user_add_oauth_lem c.clock c.fresh c.user db h, tiny.all-insert, any_match-append, h)
        (unfold any_match in refl)

  add_all_from :
      (calls : List Call) (db : Db tiny)
      → HasNoUserid db
      → map (λ r. r.fields) (tiny.all (add_all calls db).oauth)
        ≡ map (λ r. r.fields) (tiny.all db.oauth) ++ map created calls
  unfolding add_all
  add_all_from [] db h = sym (append-nil _)
  add_all_from (c ∷ calls) db h =
      add_all_from calls (user_add_oauth c.clock c.fresh c.user db).1 (add-HasNoUserid c db h)
      ∙ rw (
        user_add_oauth_lem c.clock c.fresh c.user db h,
        tiny.all-insert,
        fields-append,
        append_assoc,
      )

-- Calls of `user_add_oauth` from the empty database store one new entry each, in their order,
-- also where several calls are for one user.
pub add_all_lem :
    (tiny : TinyDb) (calls : List Call)
    → map (λ r. r.fields) (tiny.all (add_all calls (empty_db tiny)).oauth) ≡ map created calls
add_all_lem tiny calls =
    add_all_from calls (empty_db tiny) (rw tiny.all-empty (unfold any_match in refl))
    ∙ rw tiny.all-empty
