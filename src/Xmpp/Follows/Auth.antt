-- ===== src/Xmpp/Follows/Auth.antt =====
-- `_handle_sasl_auth`, `_handle_bind` and `_handle_session` of bumper/xmppserver.py leave the
-- connections other than their own as they are.
use bumper.Prelude.{ℕ, String, ◌==◌, true, Option, none, some, [], ◌∷◌, inl, inr, Bool-cases, arith}
use bumper.Prelude.Exec.{Error, need, assertion_error, index_error, value_error, Exec, ◌>>=◌}
use bumper.Prelude.Text.{split, concat}
use bumper.Tiny.{TinyDb}
use bumper.Db.Bots.{bot_add}
use bumper.Db.Clients.{client_add}
use bumper.Xmpp.{Env, bot, controller, Server}
use bumper.Xmpp.State
use bumper.Xmpp.Xml.{Element, Elements, nil, cons, text}
use bumper.Xmpp.Conn.{server_id, on_db, mark}
use bumper.Xmpp.Auth.{
  item, truthy, set_resource, success, failure, authenticate_bot, authenticate_client, authenticate,
  handle_sasl_auth, bind_children, bind_resource, bind_client, bind_address, set_jid, handle_bind,
  handle_session,
}
use bumper.Xmpp.Follows.{
  Follows, Follows-refl, follow_on, change-Follows, send-Follows, on_db-Follows, if-Follows,
  continue-Follows, mark-Follows, set_state-Follows,
}

module _ {tiny : TinyDb} where
  -- A value that must be there, and what then follows.
  need-Follows :
      {A B : Type 0} (self : ℕ) (e : Error) (o : Option A) (k : A → Exec (Server tiny) B)
      → (s : Server tiny) → ((a : A) → Follows self s (k a s).1)
      → Follows self s ((need e o >>= k) s).1
  need-Follows self e none k s h = Follows-refl self s
  need-Follows self e (some a) k s h = h a

  authenticate_bot-Follows :
      (env : Env) (self : ℕ) (s : Server tiny) → Follows self s (authenticate_bot env self s)
  unfolding authenticate_bot
  authenticate_bot-Follows env self s =
      let c = s.conn self in
      let added = on_db (bot_add c.uid c.uid c.devclass "atom" "eco-legacy") s in
      follow_on self s _ _
        (follow_on self s _ _
          (follow_on self s added _
            (on_db-Follows self (bot_add c.uid c.uid c.devclass "atom" "eco-legacy") s)
            (change-Follows self (λ d. record d { kind = bot }) added (omega arith)))
          (send-Follows self self success _))
        (set_state-Follows self State.init _)

  authenticate_client-Follows :
      (env : Env) (self : ℕ) (authcode : String) (s : Server tiny)
      → Follows self s (authenticate_client env self authcode s)
  unfolding authenticate_client
  authenticate_client-Follows env self authcode s =
      if-Follows self _ s _ _
        (follow_on self s _ _
          (follow_on self s _ _
            (follow_on self s _ _
              (change-Follows self (λ d. record d { kind = controller }) s (omega arith))
              (on_db-Follows self
                (client_add (s.conn self).uid "bumper" (s.conn self).clientresource) _))
            (set_state-Follows self State.init _))
          (send-Follows self self success _))
        (send-Follows self self failure s)

  authenticate-Follows :
      (env : Env) (self : ℕ) (authcode : String) (s : Server tiny)
      → Follows self s (authenticate env self authcode s)
  unfolding authenticate
  authenticate-Follows env self authcode s =
      if-Follows self _ s _ _ (authenticate_client-Follows env self authcode s)
        (authenticate_bot-Follows env self s)

  set_resource-Follows :
      (env : Env) (self : ℕ) (r : Option String) (s : Server tiny)
      → Follows self s (set_resource env self r s)
  set_resource-Follows env self none s = Follows-refl self s
  set_resource-Follows env self (some r) s =
      change-Follows self (λ c. record c { clientresource = r }) s (omega arith)

  pub handle_sasl_auth-Follows :
      (env : Env) (self : ℕ) (xml : Element) (s : Server tiny)
      → Follows self s (handle_sasl_auth env self xml s)
  unfolding handle_sasl_auth
  handle_sasl_auth-Follows env self xml s =
      need-Follows self assertion_error (truthy (text xml)) _ s (λ raw.
        need-Follows self value_error (env.b64decode raw) _ s (λ decoded.
          need-Follows self index_error (item 0 (split b'/' decoded)) _ s (λ head.
            need-Follows self index_error (item 1 (split 0 head)) _ s (λ username.
              follow_on self s _ _
                (follow_on self s _ _
                  (change-Follows self (λ c. record c { uid = username }) s (omega arith))
                  (set_resource-Follows env self _ _))
                (authenticate-Follows env self _ _)))))

  set_jid-Follows :
      (self : ℕ) (jid : String) (s : Server tiny) → Follows self s (set_jid self jid s)
  set_jid-Follows self jid s =
      change-Follows self (λ c. record c { bumper_jid = jid }) s (omega arith)

  bind_resource-Follows :
      (self : ℕ) (r : Option String) (s : Server tiny) → Follows self s (bind_resource self r s).1
  bind_resource-Follows self none s = Follows-refl self s
  bind_resource-Follows self (some r) s =
      change-Follows self
        (λ c. record c {
          clientresource = r;
          bumper_jid = concat (c.uid ∷ "@" ∷ server_id ∷ "/" ∷ r ∷ []);
        })
        s (omega arith)

  bind_client-Follows :
      (self : ℕ) (l : Elements) (s : Server tiny) → Follows self s (bind_client self l s).1
  bind_client-Follows self nil s =
      set_jid-Follows self (concat ((s.conn self).uid ∷ "@" ∷ server_id ∷ [])) s
  bind_client-Follows self (cons e rest) s = bind_resource-Follows self (truthy (text e)) s

  bind_address-Follows :
      (self : ℕ) (l : Elements) (s : Server tiny) → Follows self s (bind_address self l s).1
  unfolding bind_address
  bind_address-Follows self l s = elim (Bool-cases ((s.conn self).devclass == "")) [
    | inl e ↦ rw (e, bind_address) (bind_client-Follows self l s)
    | inr e ↦ rw (e, bind_address) (set_jid-Follows self _ s)
  ]

  pub handle_bind-Follows :
      (self : ℕ) (xml : Element) (s : Server tiny) → Follows self s (handle_bind self xml s)
  unfolding handle_bind
  handle_bind-Follows self xml s =
      continue-Follows self s _ (mark true self s) (mark-Follows self self true s) (λ _ t.
        need-Follows self index_error (bind_children xml) _ t (λ l.
          continue-Follows self t _ (bind_address self l t) (bind_address-Follows self l t) (λ _ u.
            follow_on self u _ _ (set_state-Follows self State.bind u)
              (send-Follows self self _ _))))

  pub handle_session-Follows :
      (self : ℕ) (xml : Element) (s : Server tiny) → Follows self s (handle_session self xml s)
  unfolding handle_session
  handle_session-Follows self xml s =
      let p =
        follow_on self s _ _ (set_state-Follows self State.ready s) (send-Follows self self _ _) in
      record { grows = p.grows; others = p.others; listed = p.listed }
