-- ===== src/Xmpp/Auth.antt =====
-- bumper/xmppserver.py: `_handle_sasl_auth`, `_handle_bind` and `_handle_session`.
use mathlib.Core.Option
use bumper.Prelude.{
  ℕ, zero, suc, String, ◌==◌, true, not, ◌||◌, Option, none, some, List, [], ◌∷◌, ◌++◌,
  if◌then◌else◌,
}
use bumper.Prelude.Exec.{
  Exec, ok, err, assertion_error, index_error, value_error, need, gets, modify, ◌>>=◌, ◌>>◌,
}
use bumper.Prelude.Text.{split, concat}
use bumper.Tiny.{TinyDb}
use bumper.Db.Bots.{bot_add}
use bumper.Db.Tokens.{check_authcode}
use bumper.Db.Clients.{client_add}
use bumper.Xmpp.{Env, bot, controller, ping, Server}
use bumper.Xmpp.State
use bumper.Xmpp.Xml.{Element, Elements, nil, cons, children, first_child, get, text}
use bumper.Xmpp.Conn.{server_id, change, send, on_db, caught, mark, set_state}

-- `"{}".format(x)` of a text or `None`
abbrev pub show : Option String → String
show none = "None"
show (some s) = s

-- `l[i]`
abbrev pub item : {A : Type 0} → ℕ → List A → Option A
item i [] = none
item zero (x ∷ l) = some x
item (suc i) (x ∷ l) = item i l

-- `assert text`: neither `None` nor empty
abbrev pub truthy : Option String → Option String
truthy none = none
truthy (some s) = if s == "" then none else some s

abbrev pub success : String
success = "<success xmlns=\"urn:ietf:params:xml:ns:xmpp-sasl\"/>"

abbrev pub failure : String
failure = "<response xmlns=\"urn:ietf:params:xml:ns:xmpp-sasl\"/>"

-- The resource that the decoded text names: its second part, or the third field of its first.
abbrev pub resource_of : List String → List String → Option String
resource_of saslauth parts = elim (item 1 saslauth) [ some r ↦ some r | none ↦ item 2 parts ]

abbrev pub or_empty : Option String → String
or_empty none = ""
or_empty (some s) = s

abbrev pub bind_result : Element → String → String
bind_result xml jid = concat (
    "<iq type=\"result\" id=\""
    ∷ show (get "id" xml)
    ∷ "\"><bind xmlns=\"urn:ietf:params:xml:ns:xmpp-bind\"><jid>"
    ∷ jid
    ∷ "</jid></bind></iq>"
    ∷ [])

-- The children of `xml[0]`; without `xml[0]` an IndexError.
abbrev pub bind_children : Element → Option Elements
bind_children xml = Option.map children (first_child xml)

module _ {tiny : TinyDb} (env : Env) where
  abbrev pub set_resource : ℕ → Option String → Server tiny → Server tiny
  set_resource self none s = s
  set_resource self (some r) s = change (λ c. record c { clientresource = r }) self s

  -- A connection with a device class is a bot, and needs no auth code.
  unfoldable pub authenticate_bot : ℕ → Server tiny → Server tiny
  authenticate_bot self s =
      let c = s.conn self in
      let added = on_db (bot_add c.uid c.uid c.devclass "atom" "eco-legacy") s in
      let typed = change (λ d. record d { kind = bot }) self added in
      set_state self State.init (send self success typed)

  unfoldable pub authenticate_client : ℕ → String → Server tiny → Server tiny
  authenticate_client self authcode s =
      let c = s.conn self in
      let typed = change (λ d. record d { kind = controller }) self s in
      let added = on_db (client_add c.uid "bumper" c.clientresource) typed in
      if check_authcode c.uid authcode s.db || not env.use_auth
      then send self success (set_state self State.init added)
      else send self failure s

  unfoldable pub authenticate : ℕ → String → Server tiny → Server tiny
  unfolding authenticate_bot authenticate_client
  authenticate self authcode s =
      if (s.conn self).devclass == ""
      then authenticate_client self authcode s
      else authenticate_bot self s

  unfoldable pub handle_sasl_auth : ℕ → Element → Server tiny → Server tiny
  unfolding authenticate
  handle_sasl_auth self xml = caught (do
    raw ← need assertion_error (truthy (text xml))
    decoded ← need value_error (env.b64decode raw)
    head ← need index_error (item 0 (split b'/' decoded))
    username ← need index_error (item 1 (split 0 head))
    modify (change (λ c. record c { uid = username }) self)
    modify (set_resource self (resource_of (split b'/' decoded) (split 0 head)))
    modify (authenticate self (or_empty (item 2 (split b'/' decoded)))))

module _ {tiny : TinyDb} where
  abbrev pub set_jid : ℕ → String → Server tiny → Server tiny
  set_jid self jid = change (λ c. record c { bumper_jid = jid }) self

  -- A client that asks for a resource: the resource is taken over.
  abbrev pub bind_resource : ℕ → Option String → Exec (Server tiny) (Unit {0})
  bind_resource self none s = (err assertion_error, s)
  bind_resource self (some r) s = (
    ok tt,
    change
        (λ c. record c {
          clientresource = r;
          bumper_jid = concat (c.uid ∷ "@" ∷ server_id ∷ "/" ∷ r ∷ []);
        })
        self s,
  )

  abbrev pub bind_client : ℕ → Elements → Exec (Server tiny) (Unit {0})
  bind_client self nil s =
      (ok tt, set_jid self (concat ((s.conn self).uid ∷ "@" ∷ server_id ∷ [])) s)
  bind_client self (cons e rest) s = bind_resource self (truthy (text e)) s

  -- The address of a bot, of a client that asks for a resource, and of any other client.
  unfoldable pub bind_address : ℕ → Elements → Exec (Server tiny) (Unit {0})
  bind_address self resources s =
      let c = s.conn self in
      if c.devclass == ""
      then bind_client self resources s
      else (ok tt, set_jid self (concat (c.uid ∷ "@" ∷ c.devclass ∷ ".ecorobot.net/atom" ∷ [])) s)

  unfoldable pub handle_bind : ℕ → Element → Server tiny → Server tiny
  unfolding mark bind_address
  handle_bind self xml = caught (do
    mark true self
    resources ← need index_error (bind_children xml)
    bind_address self resources
    modify (set_state self State.bind)
    jid ← gets (λ s. (s.conn self).bumper_jid)
    modify (send self (bind_result xml jid)))

  unfoldable pub handle_session : ℕ → Element → Server tiny → Server tiny
  handle_session self xml s =
      let answer = concat ("<iq type=\"result\" id=\"" ∷ show (get "id" xml) ∷ "\" />" ∷ []) in
      let sent = send self answer (set_state self State.ready s) in
      record sent { tasks = sent.tasks ++ ping self ∷ [] }
