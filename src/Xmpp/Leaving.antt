-- ===== src/Xmpp/Leaving.antt =====
-- How a connection of bumper/xmppserver.py leaves, with the effect on the database.
use mathlib.Core.Option
use bumper.Prelude.{
  ℕ, ◌≡◌, refl, ap, sym, ◌∙◌, field_is_sound, String, ◌==◌, Bool, true, false, Option, none, some,
  inl, inr, if◌then◌else◌, Option-cases, ltb, field_is,
}
use bumper.Prelude.Exec.{Error, Result, Exec, continue, modify, ok, err}
use bumper.Tiny.{TinyDb}
use bumper.Tiny.Rows.{Document}
use bumper.Tiny.Rows.Laws.{first_sound}
use bumper.Db.{Db}
use bumper.Db.Documents.{BotDoc, ClientDoc}
use bumper.Db.Bots.{bot_get, bot_set_xmpp}
use bumper.Db.Bots.Views.{bot_view, bot_view_did, view-bot_set, document_of_view, map_of_view}
use bumper.Db.Clients.{resource_is, client_get, client_set_xmpp}
use bumper.Xmpp.{Server}
use bumper.Xmpp.State
use bumper.Xmpp.Xml.{Element, get, tag, first_child}
use bumper.Xmpp.Conn.{set_state, disconnect, mark, mark_client, on_db, change}
use bumper.Xmpp.Stream.{handle_presence}
use bumper.Xmpp.Follows.{nat_eq_same}

err-ok : {e : Error} → Path (Result (Unit {0})) (err e) (ok tt) → ⊥
err-ok h = cc

module _ {tiny : TinyDb} where
  -- What `_disconnect` does behind its two steps on the database.
  abbrev pub close : ℕ → Unit {0} → Exec (Server tiny) (Unit {0})
  close self _ = modify (change (λ c. record c { closed = true }) self)

  state-close :
      (self : ℕ) (r : Result (Unit {0}) × Server tiny)
      → ((continue (close self) r).1.conn self).state ≡ (r.1.conn self).state
  state-close self (ok a, t) = rw (nat_eq_same self) refl
  state-close self (err e, t) = refl

  closed-close :
      (self : ℕ) (r : Result (Unit {0}) × Server tiny)
      → r.0 ≡ ok tt
      → ((continue (close self) r).1.conn self).closed ≡ true
  closed-close self (ok a, t) h = rw (nat_eq_same self) refl
  closed-close self (err e, t) h = elim (err-ok h) [ ]

  db-close :
      (self : ℕ) (r : Result (Unit {0}) × Server tiny) → (continue (close self) r).1.db ≡ r.1.db
  db-close self (ok a, t) = refl
  db-close self (err e, t) = refl

  conn-mark_client :
      (flag : Bool) (o : Option (Document ClientDoc)) (t : Server tiny)
      → (mark_client flag o t).1.conn ≡ t.conn
  conn-mark_client flag none t = refl
  conn-mark_client flag (some r) t = elim (Option-cases r.fields.resource) [
    | inl e ↦ rw e refl
    | inr (k, e) ↦ rw e refl
  ]

  -- A client that is found by its resource has one, so no exception is raised.
  result-mark_client :
      (flag : Bool) (k : String) (db : Db tiny) (t : Server tiny)
      → (mark_client flag (client_get k db) t).0 ≡ ok tt
  unfolding client_get
  result-mark_client flag k db t = elim (Option-cases (client_get k db)) [
    | inl e ↦ rw e refl
    | inr (r, e) ↦
        let there = field_is_sound r.fields.resource k (
          first_sound (resource_is k) (tiny.all db.clients) r
            (sym (tiny.get_first (resource_is k) db.clients) ∙ e)) in
        rw (e) (rw there refl)
  ]

  bot_view-mark_client :
      (flag : Bool) (o : Option (Document ClientDoc)) (j : String) (t : Server tiny)
      → bot_view j (mark_client flag o t).1.db ≡ bot_view j t.db
  unfolding bot_view bot_get client_set_xmpp
  bot_view-mark_client flag none j t = refl
  bot_view-mark_client flag (some r) j t = elim (Option-cases r.fields.resource) [
    | inl e ↦ rw e refl
    | inr (k, e) ↦ rw e refl
  ]

  mark_known :
      (self : ℕ) (flag : Bool) (r : Document BotDoc) (s : Server tiny)
      → bot_get (s.conn self).uid s.db ≡ some r
      → r.fields.did ≡ some (s.conn self).uid
      → mark flag self s ≡ (
          let marked = on_db (bot_set_xmpp (s.conn self).uid flag) s in
          mark_client flag (client_get (s.conn self).clientresource marked.db) marked)
  unfolding mark
  mark_known self flag r s e did = rw (e, mark) (rw did refl)

  -- Where the uid of the connection is that of a bot, the steps on the database set its flag.
  mark_lem :
      (self : ℕ) (flag : Bool) (b : BotDoc) (j : String) (s : Server tiny)
      → bot_view (s.conn self).uid s.db ≡ some b
      → ((mark flag self s).0 ≡ ok tt)
        × ((mark flag self s).1.conn ≡ s.conn)
        × (bot_view j (mark flag self s).1.db ≡ (
            if (s.conn self).uid == j
            then some (record b { xmpp_connection = some flag })
            else bot_view j s.db))
  mark_lem self flag b j s known =
      let (r, e, h) = document_of_view (s.conn self).uid b s.db known in
      let did = ap BotDoc.did h ∙ bot_view_did (s.conn self).uid s.db b known in
      let marked = on_db (bot_set_xmpp (s.conn self).uid flag) s in
      let o = client_get (s.conn self).clientresource marked.db in
      rw (mark_known self flag r s e did) (
        result-mark_client flag (s.conn self).clientresource marked.db marked,
        conn-mark_client flag o marked,
        bot_view-mark_client flag o j marked
            ∙ (view-bot_set (s.conn self).uid j "" flag s.db).2
            ∙ map_of_view (s.conn self).uid j (λ b. record b { xmpp_connection = some flag }) b s.db
                known,
      )

  disconnect_lem :
      (self : ℕ) (b : BotDoc) (j : String) (t : Server tiny)
      → bot_view (t.conn self).uid t.db ≡ some b
      → (((disconnect self t).conn self).state ≡ (t.conn self).state)
        × (((disconnect self t).conn self).closed ≡ true)
        × (bot_view j (disconnect self t).db ≡ (
            if (t.conn self).uid == j
            then some (record b { xmpp_connection = some false })
            else bot_view j t.db))
  unfolding disconnect
  disconnect_lem self b j t known =
      let (result, conn, db) = mark_lem self false b j t known in
      (
        state-close self (mark false self t) ∙ ap (λ f. (f self).state) conn,
        closed-close self (mark false self t) result,
        ap (bot_view j) (db-close self (mark false self t)) ∙ db,
      )

  -- A presence of type "unavailable", with no status as its first child, from a connection whose state
  -- is not beyond `DISCONNECT` and whose uid is the did of a bot: the connection is in the state
  -- `DISCONNECT`, its transport is closed, that bot is marked as offline on XMPP, and what `bot_get` finds for every other did
  -- stays as it was.
  pub handle_presence_unavailable :
      (self : ℕ) (xml : Element) (j : String) (b : BotDoc) (s : Server tiny)
      → field_is (Option.map (λ e. tag e) (first_child xml)) "status" ≡ false
      → field_is (get "type" xml) "unavailable" ≡ true
      → ltb State.disconnect (s.conn self).state ≡ false
      → bot_view (s.conn self).uid s.db ≡ some b
      → (((handle_presence self xml s).conn self).state ≡ State.disconnect)
        × (((handle_presence self xml s).conn self).closed ≡ true)
        × (bot_view j (handle_presence self xml s).db ≡ (
            if (s.conn self).uid == j
            then some (record b { xmpp_connection = some false })
            else bot_view j s.db))
  unfolding handle_presence set_state
  handle_presence_unavailable self xml j b s no_status leaving early known =
      let left = change (λ c. record c { state = State.disconnect }) self s in
      let (state, closed, db) = disconnect_lem self b j left (rw (nat_eq_same self) known) in
      rw (no_status, leaving, handle_presence, set_state, early)
        (state ∙ rw (nat_eq_same self) refl, closed, db ∙ rw (nat_eq_same self) refl)
