-- ===== src/Db/Bots/Refines.antt =====
-- The table `bots` as a finite map from dids to bots: what the operations of bumper/db.py do to the map,
-- with no order of the documents and no ids.
use mathlib.Core.Option
use mathlib.Core.Path.{fun_ext}
use bumper.Prelude.{
  ◌≡◌, refl, ◌∙◌, ap, String, ◌==◌, Bool, true, false, ◌&&◌, Option, none, some, List, [], ◌∷◌,
  if◌then◌else◌, All, all_nil, all_cons,
}
use bumper.Tiny.{TinyDb}
use bumper.Tiny.Rows.Laws.{or_else}
use bumper.Tiny.Laws.{or_else-none}
use bumper.Db.{Db}
use bumper.Db.Documents.{BotDoc, bot_asdict}
use bumper.Db.Bots.{is_acceptable}
use bumper.Db.Bots.Views.{bot_view, view-bot_add, view-bot_set}
use bumper.Db.Bots.Unique.{
  BotOp, add, remove, set_nick, set_mqtt, set_xmpp, reset, run_op, run_ops, OneEachBot,
  run_op-OneEachBot, view-bot_remove,
}

-- A map from dids to bots
abbrev pub Fleet : Type 0
Fleet = String → Option BotDoc

-- The value of one key changed, and no other
abbrev pub alter : String → (Option BotDoc → Option BotDoc) → Fleet → Fleet
alter did f m j = if did == j then f (m j) else m j

-- What each operation does to the map; the reset is left out (see `is_reset`).
unfoldable pub fleet_op : BotOp → Fleet → Fleet
fleet_op (add sn did dev_class resource company) m = λ j.
    if is_acceptable sn dev_class
    then alter did (λ o. or_else o (some (bot_asdict sn did dev_class resource company))) m j
    else m j
fleet_op (remove did) m = alter did (λ o. none) m
fleet_op (set_nick did nick) m =
    alter did (Option.map {A = BotDoc} (λ b. record b { nick = some nick })) m
fleet_op (set_mqtt did flag) m =
    alter did (Option.map {A = BotDoc} (λ b. record b { mqtt_connection = some flag })) m
fleet_op (set_xmpp did flag) m =
    alter did (Option.map {A = BotDoc} (λ b. record b { xmpp_connection = some flag })) m
fleet_op reset m = m

unfoldable pub fleet_ops : List BotOp → Fleet → Fleet
unfolding fleet_op
fleet_ops [] m = m
fleet_ops (op ∷ ops) m = fleet_ops ops (fleet_op op m)

-- The reset raises part of the way where a document lacks its did, so the map does not tell what it does.
abbrev pub is_reset : BotOp → Bool
is_reset reset = true
is_reset _ = false

module _ {tiny : TinyDb} where
  -- The map that a table stands for.
  abbrev pub fleet_of : Db tiny → Fleet
  fleet_of db j = bot_view j db

  add_refines :
      (sn did dev_class resource company j : String) (db : Db tiny)
      → fleet_of (run_op (add sn did dev_class resource company) db) j
        ≡ fleet_op (add sn did dev_class resource company) (fleet_of db) j
  unfolding run_op fleet_op
  add_refines sn did dev_class resource company j db =
      view-bot_add sn did dev_class resource company j db
      ∙ at (is_acceptable sn dev_class) (did == j)
    where
      at :
          (acceptable is_did : Bool)
          → or_else (bot_view j db) (
              if is_did && acceptable
              then some (bot_asdict sn did dev_class resource company)
              else none)
            ≡ (if acceptable
                then (if is_did
                    then or_else
                        (bot_view j db)
                        (some (bot_asdict sn did dev_class resource company))
                    else bot_view j db)
                else bot_view j db)
      at true true = refl
      at true false = or_else-none (bot_view j db)
      at false true = or_else-none (bot_view j db)
      at false false = or_else-none (bot_view j db)

  op_refines :
      (op : BotOp) (db : Db tiny) (j : String)
      → is_reset op ≡ false
      → OneEachBot db
      → fleet_of (run_op op db) j ≡ fleet_op op (fleet_of db) j
  unfolding run_op fleet_op
  op_refines (add sn did dev_class resource company) db j h one =
      add_refines sn did dev_class resource company j db
  op_refines (remove did) db j h one = view-bot_remove did j db one
  op_refines (set_nick did nick) db j h one = (view-bot_set did j nick true db).0
  op_refines (set_mqtt did flag) db j h one = (view-bot_set did j "" flag db).1
  op_refines (set_xmpp did flag) db j h one = (view-bot_set did j "" flag db).2
  op_refines reset db j h one = cc

  -- Any sequence of the operations on bots other than the reset, on a table with at most one document
  -- for each did, does to the map of the bots that are found what the operations on the map do.
  pub run_ops_refines :
      (ops : List BotOp) (db : Db tiny)
      → All (λ op. is_reset op ≡ false) ops
      → OneEachBot db
      → fleet_of (run_ops ops db) ≡ fleet_ops ops (fleet_of db)
  unfolding run_ops fleet_ops
  run_ops_refines [] db all_nil one = refl
  run_ops_refines (op ∷ ops) db (all_cons h rest) one =
      run_ops_refines ops (run_op op db) rest (run_op-OneEachBot op db one)
      ∙ ap (λ m. fleet_ops ops m) (fun_ext (λ j. op_refines op db j h one))
