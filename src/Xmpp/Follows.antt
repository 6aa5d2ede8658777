-- ===== src/Xmpp/Follows.antt =====
-- How the connections of bumper/xmppserver.py may change while the input of one of them is handled.
pub mod Forward
pub mod Auth
pub mod Stream
use bumper.Prelude.{
  ℕ, ◌≤◌, ◌≡◌, refl, sym, ◌∙◌, String, Bool, true, false, Option, none, some, List, [], ◌∷◌, ◌++◌,
  if◌then◌else◌, ltb, nat_eq, arith, inl, inr, Bool-cases, Option-cases, ◌||◌,
}
use bumper.Prelude.Exec.{Exec, Result, ok, err, continue, gets, modify, ◌>>=◌}
use bumper.Tiny.{TinyDb}
use bumper.Tiny.Rows.{Document}
use bumper.Db.{Db}
use bumper.Db.Documents.{BotDoc, ClientDoc}
use bumper.Db.Bots.{bot_get, bot_set_xmpp}
use bumper.Db.Clients.{client_get, client_set_xmpp}
use bumper.Xmpp.{Client, Server}
use bumper.Xmpp.State
use bumper.Xmpp.Conn.{change, send, on_db, mark_bot, mark_client, mark, disconnect, set_state}

-- A connection but for what it was sent.
abbrev pub unsent : Client → Client
unsent c = record c { sent = [] }

pub nat_eq_sound : (a b : ℕ) → nat_eq a b ≡ true → a ≡ b
nat_eq_sound a b h = ground (arith)

pub nat_eq_same : (a : ℕ) → nat_eq a a ≡ true
nat_eq_same a = ground (arith)

module _ {tiny : TinyDb} where
  -- No state is lowered, the connections other than `self` are sent things at most, and the list of
  -- the connections stays.
  pub record Follows (self : ℕ) (s t : Server tiny) : Type 0 where
    pub grows : (i : ℕ) → (s.conn i).state ≤ (t.conn i).state
    pub others : (i : ℕ) → nat_eq i self ≡ false → unsent (t.conn i) ≡ unsent (s.conn i)
    pub listed : t.clients ≡ s.clients

  pub Follows-refl : (self : ℕ) (s : Server tiny) → Follows self s s
  Follows-refl self s = record { grows = λ i. omega arith; others = λ i h. refl; listed = refl }

  pub follow_on :
      (self : ℕ) (s t u : Server tiny) → Follows self s t → Follows self t u → Follows self s u
  follow_on self s t u p q = record {
    grows = λ i. omega (arith, p.grows i, q.grows i);
    others = λ i h. q.others i h ∙ p.others i h;
    listed = q.listed ∙ p.listed;
  }

  -- A change of `self` that does not lower its state.
  pub change-Follows :
      (self : ℕ) (f : Client → Client) (s : Server tiny)
      → (s.conn self).state ≤ (f (s.conn self)).state
      → Follows self s (change f self s)
  change-Follows self f s h = record {
    grows = λ i. elim (Bool-cases (nat_eq i self)) [
      | inl e ↦ rw (nat_eq_sound i self e, nat_eq_same self) h
      | inr e ↦ rw e (omega arith)
    ];
    others = λ i e. rw e;
    listed = refl;
  }

  pub send-Follows :
      (self i : ℕ) (command : String) (s : Server tiny) → Follows self s (send i command s)
  unfolding send
  send-Follows self i command s = record {
    grows = λ j. elim (Bool-cases (nat_eq j i)) [
      | inl e ↦ rw (nat_eq_sound j i e, nat_eq_same i) (omega arith)
      | inr e ↦ rw e (omega arith)
    ];
    others = λ j h. elim (Bool-cases (nat_eq j i)) [
      | inl e ↦ rw (nat_eq_sound j i e, nat_eq_same i) refl
      | inr e ↦ rw e refl
    ];
    listed = refl;
  }

  pub on_db-Follows :
      (self : ℕ) (f : Db tiny → Db tiny) (s : Server tiny) → Follows self s (on_db f s)
  on_db-Follows self f s = record { grows = λ i. omega arith; others = λ i h. refl; listed = refl }

  pub if-Follows :
      (self : ℕ) (b : Bool) (s x y : Server tiny)
      → Follows self s x
      → Follows self s y
      → Follows self s (if b then x else y)
  if-Follows self true s x y p q = p
  if-Follows self false s x y p q = q

  -- What follows a state, and so does each continuation, makes a run that follows it.
  pub continue-Follows :
      {A B : Type 0} (self : ℕ) (s : Server tiny) (k : A → Exec (Server tiny) B)
      → (r : Result A × Server tiny) → Follows self s r.1
      → ((a : A) (t : Server tiny) → Follows self t (k a t).1)
      → Follows self s (continue k r).1
  continue-Follows self s k (ok a, t) p q = follow_on self s t (k a t).1 p (q a t)
  continue-Follows self s k (err e, t) p q = p

  mark_bot-Follows :
      (self : ℕ) (flag : Bool) (b : Option (Document BotDoc)) (s : Server tiny)
      → Follows self s (mark_bot flag b s).1
  mark_bot-Follows self flag none s = Follows-refl self s
  mark_bot-Follows self flag (some r) s = elim (Option-cases r.fields.did) [
    | inl e ↦ rw e (Follows-refl self s)
    | inr (did, e) ↦ rw e (on_db-Follows self (bot_set_xmpp did flag) s)
  ]

  mark_client-Follows :
      (self : ℕ) (flag : Bool) (b : Option (Document ClientDoc)) (s : Server tiny)
      → Follows self s (mark_client flag b s).1
  mark_client-Follows self flag none s = Follows-refl self s
  mark_client-Follows self flag (some r) s = elim (Option-cases r.fields.resource) [
    | inl e ↦ rw e (Follows-refl self s)
    | inr (resource, e) ↦ rw e (on_db-Follows self (client_set_xmpp resource flag) s)
  ]

  pub mark-Follows : (self i : ℕ) (flag : Bool) (s : Server tiny) → Follows self s (mark flag i s).1
  unfolding mark
  mark-Follows self i flag s =
      continue-Follows self s
        (λ _. gets (λ s. client_get (s.conn i).clientresource s.db) >>= mark_client flag)
        (mark_bot flag (bot_get (s.conn i).uid s.db) s)
        (mark_bot-Follows self flag (bot_get (s.conn i).uid s.db) s)
        (λ _ t. mark_client-Follows self flag (client_get (t.conn i).clientresource t.db) t)

  pub disconnect-Follows : (self : ℕ) (s : Server tiny) → Follows self s (disconnect self s)
  unfolding disconnect
  disconnect-Follows self s =
      continue-Follows self s (λ _. modify (change (λ c. record c { closed = true }) self))
        (mark false self s) (mark-Follows self self false s)
        (λ _ t. change-Follows self (λ c. record c { closed = true }) t (omega arith))

  set-Follows :
      (self new : ℕ) (s : Server tiny)
      → ltb new (s.conn self).state ≡ false
      → Follows self s (change (λ c. record c { state = new }) self s)
  set-Follows self new s h = change-Follows self (λ c. record c { state = new }) s (ground (arith))

  pub set_state-Follows : (self new : ℕ) (s : Server tiny) → Follows self s (set_state self new s)
  unfolding set_state
  set_state-Follows self new s = elim (Bool-cases (ltb new (s.conn self).state)) [
    | inl e ↦ rw e (Follows-refl self s)
    | inr e ↦ rw e (
        if-Follows self (nat_eq new State.disconnect) s
          (disconnect self (change (λ c. record c { state = new }) self s))
          (change (λ c. record c { state = new }) self s)
          (follow_on self s (change (λ c. record c { state = new }) self s)
            (disconnect self (change (λ c. record c { state = new }) self s))
            (set-Follows self new s e)
            (disconnect-Follows self (change (λ c. record c { state = new }) self s)))
          (set-Follows self new s e))
  ]
