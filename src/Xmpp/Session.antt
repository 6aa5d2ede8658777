-- ===== src/Xmpp/Session.antt =====
-- How a connection of bumper/xmppserver.py logs in, opens its session and leaves, with its effect on
-- the database.
use bumper.Prelude.{
  ℕ, ◌≡◌, refl, ◌∙◌, String, ◌==◌, Bool, false, not, ◌||◌, Option, none, some, [], ◌∷◌, ◌++◌, inl,
  inr, if◌then◌else◌, Bool-cases, nat_eq, ltb,
}
use bumper.Prelude.Text.{split}
use bumper.Prelude.Exec.{Error, Exec, need, assertion_error, value_error, index_error, ◌>>=◌}
use bumper.Tiny.{TinyDb}
use bumper.Db.{Db}
use bumper.Db.Bots.{bot_add}
use bumper.Db.Tokens.{check_authcode}
use bumper.Db.Clients.{client_add}
use bumper.Xmpp.{Env, Kind, bot, controller, Client, Server}
use bumper.Xmpp.State
use bumper.Xmpp.Xml.{Element, text}
use bumper.Xmpp.Conn.{set_state, connection_made, send, change, caught}
use bumper.Xmpp.Auth.{
  set_resource, item, truthy, or_empty, authenticate, authenticate_bot, authenticate_client,
  handle_sasl_auth, resource_of, handle_session,
}
use bumper.Xmpp.Stream.{child_tag, handle_iq}
use bumper.Xmpp.Follows.{nat_eq_same}

-- The kind of a connection that was accepted.
abbrev pub accepted_kind : Client → Kind
accepted_kind c = if c.devclass == "" then controller else bot

-- The connection after a login that was accepted, or not: its state, its kind, and the reply.
abbrev pub logged_in : Bool → Client → Client
logged_in accepted c =
    if accepted
    then record c {
      state = State.init;
      kind = accepted_kind c;
      sent = c.sent ++ "<success xmlns=\"urn:ietf:params:xml:ns:xmpp-sasl\"/>" ∷ [];
    }
    else record c { sent = c.sent ++ "<response xmlns=\"urn:ietf:params:xml:ns:xmpp-sasl\"/>" ∷ [] }

module _ {tiny : TinyDb} where
  -- A change to a state that is not below the present one, other than `DISCONNECT`, is made.
  state-set_state :
      (self new : ℕ) (s : Server tiny)
      → ltb new (s.conn self).state ≡ false
      → nat_eq new State.disconnect ≡ false
      → ((set_state self new s).conn self).state ≡ new
  unfolding set_state
  state-set_state self new s h live = rw (h, live, set_state, nat_eq_same self) refl

  -- A new connection that sends an iq with a session in it, and nothing before, is `READY`, whether
  -- authentication is on or off, and the database stays as it was.
  pub handle_iq_unauthenticated :
      (env : Env) (self : ℕ) (xml : Element) (input : String) (s : Server tiny)
      → child_tag xml ≡ some "session"
      → (((handle_iq env self xml input (connection_made self s)).conn self).state ≡ State.ready)
        × ((handle_iq env self xml input (connection_made self s)).db ≡ s.db)
  unfolding handle_iq handle_session connection_made send set_state
  handle_iq_unauthenticated env self xml input s child =
      rw (child, handle_iq, nat_eq_same self) (rw (nat_eq_same self) (refl, refl))

  -- Whether a connection with a user's name and an auth code is accepted.
  abbrev pub is_accepted : Env → Client → String → Db tiny → Bool
  is_accepted env c authcode db =
      not (c.devclass == "") || (check_authcode c.uid authcode db || not env.use_auth)

  -- What the database is, if a connection was accepted as `c`.
  abbrev pub accepted_db : Client → Db tiny → Db tiny
  accepted_db c db =
      if c.devclass == ""
      then client_add c.uid "bumper" c.clientresource db
      else bot_add c.uid c.uid c.devclass "atom" "eco-legacy" db

  authenticate_lem :
      (env : Env) (self : ℕ) (authcode : String) (s : Server tiny)
      → ltb State.init (s.conn self).state ≡ false
      → (let c = s.conn self in
          let t = authenticate env self authcode s in
          let accepted = is_accepted env c authcode s.db in
          (t.conn self ≡ logged_in accepted c)
          × (t.db ≡ (if accepted then accepted_db c s.db else s.db)))
  unfolding authenticate authenticate_bot authenticate_client send set_state
  authenticate_lem env self authcode s early = elim (Bool-cases ((s.conn self).devclass == "")) [
    | inl e ↦
        elim (Bool-cases (check_authcode (s.conn self).uid authcode s.db || not env.use_auth)) [
          | inl h ↦
              rw
                (
                  e,
                  h,
                  authenticate,
                  accepted_kind,
                  authenticate_client,
                  set_state,
                  nat_eq_same self,
                  early,
                )
                (rw (nat_eq_same self) (refl, refl))
          | inr h ↦ rw (e, h, authenticate, authenticate_client, nat_eq_same self) (refl, refl)
        ]
    | inr e ↦
        rw (e, authenticate, accepted_kind, authenticate_bot, set_state, nat_eq_same self, early)
          (rw (nat_eq_same self) (refl, refl))
  ]

  -- The connection as `_handle_sasl_auth` names it before it decides.
  abbrev pub named : Env → ℕ → String → Option String → Server tiny → Server tiny
  named env self username resource s =
      set_resource env self resource (change (λ c. record c { uid = username }) self s)

  conn-named :
      (env : Env) (self : ℕ) (username : String) (resource : Option String) (s : Server tiny)
      → (let c = s.conn self in
          let t = (named env self username resource s).conn self in
          (t ≡ record c {
            uid = username;
            clientresource = elim resource [ none ↦ c.clientresource | some r ↦ r ];
          }))
  conn-named env self username none s = rw (nat_eq_same self) refl
  conn-named env self username (some r) s = rw (nat_eq_same self) refl

  db-named :
      (env : Env) (self : ℕ) (username : String) (resource : Option String) (s : Server tiny)
      → (named env self username resource s).db ≡ s.db
  db-named env self username none s = refl
  db-named env self username (some r) s = refl

  authenticate_as :
      (env : Env) (self : ℕ) (authcode : String) (t : Server tiny) (c : Client) (db : Db tiny)
      → t.conn self ≡ c
      → t.db ≡ db
      → ltb State.init c.state ≡ false
      → (let u = authenticate env self authcode t in
          let accepted = is_accepted env c authcode db in
          (u.conn self ≡ logged_in accepted c)
          × (u.db ≡ (if accepted then accepted_db c db else db)))
  authenticate_as env self authcode t c db is_c is_db early =
      rw (← is_c, ← is_db) (authenticate_lem env self authcode t (rw is_c early))

  caught-need :
      {A : Type 0} (e : Error) (o : Option A) (a : A) (k : A → Exec (Server tiny) (Unit {0}))
      → (s : Server tiny) → o ≡ some a
      → caught (need e o >>= k) s ≡ caught (k a) s
  caught-need e o a k s h = rw h refl

  handle_sasl_auth-named :
      (env : Env) (self : ℕ) (xml : Element) (raw decoded head username : String) (s : Server tiny)
      → truthy (text xml) ≡ some raw
      → env.b64decode raw ≡ some decoded
      → item 0 (split b'/' decoded) ≡ some head
      → item 1 (split 0 head) ≡ some username
      → handle_sasl_auth env self xml s
        ≡ authenticate env self
            (or_empty (item 2 (split b'/' decoded)))
            (named env self username (resource_of (split b'/' decoded) (split 0 head)) s)
  unfolding handle_sasl_auth
  handle_sasl_auth-named env self xml raw decoded head username s raw_is decoded_is head_is
        username_is =
      caught-need assertion_error (truthy (text xml)) raw _ s raw_is
      ∙ caught-need value_error (env.b64decode raw) decoded _ s decoded_is
      ∙ caught-need index_error (item 0 (split b'/' decoded)) head _ s head_is
      ∙ caught-need index_error (item 1 (split 0 head)) username _ s username_is

  -- Where the text of the element decodes to parts that name a user, and the connection is not beyond
  -- `INIT`: it takes that name, and the resource if there is one. It is accepted if it has a device
  -- class, if the third part is an auth code of that user, or if authentication is off. It then is in
  -- the state `INIT`, is a bot exactly if it has a device class, and is added to the bots or to the
  -- clients of the database; else its state, its kind and the database stay. The reply tells which.
  -- Nothing else of the connection changes.
  pub handle_sasl_auth_lem :
      (env : Env) (self : ℕ) (xml : Element) (raw decoded head username : String) (s : Server tiny)
      → truthy (text xml) ≡ some raw
      → env.b64decode raw ≡ some decoded
      → item 0 (split b'/' decoded) ≡ some head
      → item 1 (split 0 head) ≡ some username
      → ltb State.init (s.conn self).state ≡ false
      → (let old = s.conn self in
          let resource = resource_of (split b'/' decoded) (split 0 head) in
          let c = record old {
            uid = username;
            clientresource = elim resource [ none ↦ old.clientresource | some r ↦ r ];
          } in
          let t = handle_sasl_auth env self xml s in
          let accepted = is_accepted env c (or_empty (item 2 (split b'/' decoded))) s.db in
          (t.conn self ≡ logged_in accepted c)
          × (t.db ≡ (if accepted then accepted_db c s.db else s.db)))
  unfolding handle_sasl_auth
  handle_sasl_auth_lem env self xml raw decoded head username s raw_is decoded_is head_is
        username_is early =
      let resource = resource_of (split b'/' decoded) (split 0 head) in
      let old = s.conn self in
      rw
        (handle_sasl_auth-named env self xml raw decoded head username s raw_is decoded_is head_is
          username_is)
        (authenticate_as env self (or_empty (item 2 (split b'/' decoded)))
          (named env self username resource s)
          (record old {
            uid = username;
            clientresource = elim resource [ none ↦ old.clientresource | some r ↦ r ];
          })
          s.db (conn-named env self username resource s) (db-named env self username resource s)
          early)
