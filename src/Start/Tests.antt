-- ===== src/Start/Tests.antt =====
-- The theorem about the maintenance at a concrete input.
use bumper.Prelude.{◌+◌, ◌≡◌, refl, true, All, arith}
use bumper.Prelude.Exec.{ok}
use bumper.Tiny.Slots.{slots, rows_from, next_from, slot_insert}
use bumper.Tiny.Rows.{any_match, first}
use bumper.Db.{Db, empty_db}
use bumper.Db.Oauths.Sweep.{remaining, IsAfter}
use bumper.Db.Oauths.{LocalClock}
use bumper.Db.Tokens
use bumper.Db.Tokens.Sweep.{survivors}
use bumper.Start.{maintenance}
use bumper.Start.Expiry.{maintenance_lem}

abbrev tokens_two : Db slots
tokens_two =
    Tokens.user_add_token 4000000000 "user" "new"
      (Tokens.user_add_token 5 "user" "old" (empty_db slots))

-- A zone that is an hour ahead of UTC
abbrev later : LocalClock
later = record { utc = λ k. 7; local = λ u. u + 3600000000 }

maintenance_lem_example :
    (let after = maintenance (λ k. 3600000006) later tokens_two in
      (after.0 ≡ ok tt)
      × (slots.all after.1.tokens
          ≡ survivors (λ k. 3600000006) 0 (λ d. true) (slots.all tokens_two.tokens))
      × (slots.all after.1.oauth ≡ remaining later 0 (slots.all tokens_two.oauth))
      × All (λ r. IsAfter 3600000006 r.fields.expiration) (slots.all after.1.tokens)
      × All (λ r. IsAfter 3600000006 r.fields.expire_at) (slots.all after.1.oauth))
unfolding rows_from next_from slot_insert first any_match Tokens.user_add_token
    Tokens.user_get_token
maintenance_lem_example =
    maintenance_lem (λ k. 3600000006) later 3600000006 tokens_two (λ i. omega arith)
      (λ i. omega arith) refl refl
