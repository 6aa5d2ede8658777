-- ===== src/Xmpp/Conn.antt =====
-- bumper/xmppserver.py: `send`, `_disconnect`, `set_state`, and the callbacks of the protocol.
use bumper.Prelude.{
  ℕ, String, Bool, true, false, ◌||◌, Option, none, some, List, [], ◌∷◌, ◌++◌, if◌then◌else◌, ltb,
  nat_eq,
}
use bumper.Prelude.Exec.{Exec, ok, err, key_error, value_error, gets, modify, ◌>>=◌, ◌>>◌}
use bumper.Tiny.{TinyDb}
use bumper.Tiny.Rows.{Document}
use bumper.Db.{Db}
use bumper.Db.Documents.{BotDoc, ClientDoc}
use bumper.Db.Bots.{bot_get, bot_set_xmpp}
use bumper.Db.Clients.{client_get, client_set_xmpp}
use bumper.Xmpp.{unknown, Client, Server}
use bumper.Xmpp.State

-- `XMPPServer.server_id`
abbrev pub server_id : String
server_id = "ecouser.net"

-- `XMPPAsyncClient.__init__`
abbrev pub new_client : Client
new_client = record {
  kind = unknown;
  state = State.idle;
  clientresource = "";
  devclass = "";
  bumper_jid = "";
  uid = "";
  tls_upgraded = false;
  transport = 0;
  closed = false;
  sent = [];
}

-- `xs.remove(x)` on numbers
unfoldable pub remove_number : ℕ → List ℕ → List ℕ
remove_number x [] = []
remove_number x (y ∷ l) = if nat_eq y x then l else y ∷ remove_number x l

unfoldable pub is_listed : ℕ → List ℕ → Bool
is_listed x [] = false
is_listed x (y ∷ l) = nat_eq y x || is_listed x l

module _ {tiny : TinyDb} where
  -- A change of the object `self`.
  abbrev pub change : (Client → Client) → ℕ → Server tiny → Server tiny
  change f self s = record s { conn = λ i. if nat_eq i self then f (s.conn self) else s.conn i }

  -- `self.transport.write(command.encode())`
  unfoldable pub send : ℕ → String → Server tiny → Server tiny
  send self command = change (λ c. record c { sent = c.sent ++ command ∷ [] }) self

  abbrev pub on_db : (Db tiny → Db tiny) → Server tiny → Server tiny
  on_db f s = record s { db = f s.db }

  -- `if bot: bot_set_xmpp(bot["did"], flag)`
  abbrev pub mark_bot : Bool → Option (Document BotDoc) → Exec (Server tiny) (Unit {0})
  mark_bot flag none s = (ok tt, s)
  mark_bot flag (some r) s = elim r.fields.did [
    | none ↦ (err key_error, s)
    | some did ↦ (ok tt, on_db (bot_set_xmpp did flag) s)
  ]

  -- `if client: client_set_xmpp(client["resource"], flag)`
  abbrev pub mark_client : Bool → Option (Document ClientDoc) → Exec (Server tiny) (Unit {0})
  mark_client flag none s = (ok tt, s)
  mark_client flag (some r) s = elim r.fields.resource [
    | none ↦ (err key_error, s)
    | some resource ↦ (ok tt, on_db (client_set_xmpp resource flag) s)
  ]

  -- The two steps with which `_disconnect` and `_handle_bind` begin.
  unfoldable pub mark : Bool → ℕ → Exec (Server tiny) (Unit {0})
  mark flag self = do
    bot ← gets (λ s. bot_get (s.conn self).uid s.db)
    mark_bot flag bot
    client ← gets (λ s. client_get (s.conn self).clientresource s.db)
    mark_client flag client

  -- `try: … except Exception: log`
  abbrev pub caught : Exec (Server tiny) (Unit {0}) → Server tiny → Server tiny
  caught m s = (m s).1

  unfoldable pub disconnect : ℕ → Server tiny → Server tiny
  unfolding mark
  disconnect self =
      caught (do mark false self; modify (change (λ c. record c { closed = true }) self))

  -- A state below the present one is refused: the exception is logged.
  unfoldable pub set_state : ℕ → ℕ → Server tiny → Server tiny
  unfolding disconnect
  set_state self new s =
      if ltb new (s.conn self).state
      then s
      else if nat_eq new State.disconnect
      then disconnect self (change (λ c. record c { state = new }) self s)
      else change (λ c. record c { state = new }) self s

  -- `connection_made` of a new protocol: `self` is a number that no object has.
  unfoldable pub connection_made : ℕ → Server tiny → Server tiny
  connection_made self s = record s {
    conn = λ i. if nat_eq i self then record new_client { state = State.connect } else s.conn i;
    clients = s.clients ++ self ∷ [];
  }

  -- `connection_made` of a protocol that has its client: the upgrade to TLS
  unfoldable pub connection_upgraded : ℕ → Server tiny → Server tiny
  connection_upgraded self = change (λ c. record c { transport = 1 }) self

  -- `list.remove` raises where the object is not listed.
  unfoldable pub connection_lost : ℕ → Exec (Server tiny) (Unit {0})
  unfolding set_state
  connection_lost self s =
      if is_listed self s.clients
      then (
        ok tt,
        set_state self State.disconnect (record s { clients = remove_number self s.clients }),
      )
      else (err value_error, s)

  -- The loop of `XMPPServer.disconnect`.
  unfoldable pub disconnect_all : List ℕ → Server tiny → Server tiny
  unfolding disconnect
  disconnect_all [] s = s
  disconnect_all (c ∷ l) s = disconnect_all l (disconnect c s)
