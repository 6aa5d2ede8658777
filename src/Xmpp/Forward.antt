-- ===== src/Xmpp/Forward.antt =====
-- bumper/xmppserver.py: `_handle_ctl`, `_handle_ping` and `_handle_result`, which answer a stanza
-- or forward it to other connections.
use bumper.Prelude.{
  ℕ, ◌+◌, String, ◌==◌, Bool, true, false, not, ◌&&◌, ◌||◌, Option, none, some, List, [], ◌∷◌,
  if◌then◌else◌, nat_eq, field_is, is_some,
}
use bumper.Prelude.Text.{split, concat, has_sub, replace}
use text.Mathlib.Text.{starts_with}
use bumper.Tiny.{TinyDb}
use bumper.Xmpp.{Env, Kind, bot, Client, Server}
use bumper.Xmpp.State
use bumper.Xmpp.Xml.{Element, first_child, get, with_from}
use bumper.Xmpp.Conn.{server_id, send}
use bumper.Xmpp.Auth.{show, item, truthy, or_empty}

abbrev pub is_bot : Kind → Bool
is_bot bot = true
is_bot k = false

abbrev pub is_ready : Client → Bool
is_ready c = nat_eq c.state State.ready

-- `client.uid.lower() in to.lower()`
abbrev pub is_named : Env → String → Client → Bool
is_named env to c = has_sub (env.lower c.uid) (env.lower to)

-- A connection with another address than the sender's, that is ready.
abbrev pub is_peer : String → Client → Bool
is_peer jid c = not (c.bumper_jid == jid) && is_ready c

abbrev pub not_implemented : Element → String
not_implemented xml = concat (
    "<iq type=\"error\" id=\""
    ∷ show (get "id" xml)
    ∷ "\"><error type=\"cancel\" code=\"501\"><feature-not-implemented xmlns=\"urn:ietf:params:xml:ns:xmpp-stanzas\"/></error></iq>"
    ∷ [])

-- The namespaces that `ET.tostring` adds are taken out again.
abbrev pub clean_ctl : String → String
clean_ctl s =
    replace "<query" "<query xmlns=\"com:ctl\""
      (replace "iq xmlns=\"com:ctl\"" "iq" (replace "ns0:" "" (replace "xmlns:ns0=" "xmlns=" s)))

abbrev pub clean_ping : String → String
clean_ping s = replace "<ping" "<ping xmlns=\"urn:xmpp:ping\"" (
    replace "iq xmlns=\"urn:xmpp:ping\"" "iq" (replace "ns0:" "" (replace "xmlns:ns0=" "xmlns=" s)))

-- `ctl.get("admin")`, from a bot
abbrev pub reports_admin : Kind → Element → Bool
reports_admin k query = elim (first_child query) [
  | none ↦ false
  | some ctl ↦ is_bot k && is_some (truthy (get "admin" ctl))
]

-- The user that a bot names with its error; `none` where the variable stays unbound.
abbrev pub admin_user : Element → Option String
admin_user ctl = elim (get "error" ctl) [
  | some e ↦ some (replace " " "" (replace "permission denied, please contact " "" e))
  | none ↦ get "admin" ctl
]

-- The answer to a ping of the server.
abbrev pub pong : Element → String
pong xml = concat (
    "<iq type=\"result\" id=\""
    ∷ show (get "id" xml)
    ∷ "\" from=\""
    ∷ show (get "to" xml)
    ∷ "\" />"
    ∷ [])

-- The address that a result goes to: without an "@" as it is, else the user at "ecouser.net".
abbrev pub result_to : String → String
result_to to =
    if has_sub "@" to then concat (or_empty (item 0 (split b'@' to)) ∷ "@ecouser.net" ∷ []) else to

module _ {tiny : TinyDb} where
  -- `for client in XMPPServer.clients: if …: client.send(command)`
  unfoldable pub send_where : (Client → Bool) → String → List ℕ → Server tiny → Server tiny
  send_where p command [] s = s
  send_where p command (c ∷ l) s =
      send_where p command l (if p (s.conn c) then send c command s else s)

  -- The answer to the bind of an Android app.
  abbrev pub answer_sf : ℕ → Element → String → Server tiny → Server tiny
  answer_sf self xml input s =
      if field_is (get "type" xml) "set"
        && has_sub "com:sf" input
        && field_is (get "to" xml) "rl.ecorobot.net"
      then send self
          (concat (
            "<iq id=\""
            ∷ show (get "id" xml)
            ∷ "\" to=\""
            ∷ (s.conn self).uid
            ∷ "@"
            ∷ server_id
            ∷ "/"
            ∷ (s.conn self).clientresource
            ∷ "\" from=\"rl.ecorobot.net\" type=\"result\"/>"
            ∷ []))
          s
      else s

  -- A command is forwarded to the bots that `to` names.
  unfoldable pub forward_ctl : Env → ℕ → Element → Server tiny → Server tiny
  forward_ctl env self xml s =
      let jid = (s.conn self).bumper_jid in
      elim (truthy (get "to" xml)) [
        | none ↦ s
        | some to ↦
            send_where (λ c. is_peer jid c && is_bot c.kind && is_named env to c)
              (clean_ctl (env.tostring (with_from jid xml))) s.clients s
      ]

  unfoldable pub handle_ctl : Env → ℕ → Element → String → Server tiny → Server tiny
  unfolding forward_ctl
  handle_ctl env self xml input s =
      if has_sub "roster" input || has_sub "disco#items" input || has_sub "disco#info" input
      then send self (not_implemented xml) s
      else elim (first_child xml) [
        | none ↦ answer_sf self xml input s
        | some query ↦
            if reports_admin (s.conn self).kind query
            then answer_sf self xml input s
            else forward_ctl env self xml (answer_sf self xml input s)
      ]

  unfoldable pub handle_ping : Env → ℕ → Element → Server tiny → Server tiny
  handle_ping env self xml s =
      let jid = (s.conn self).bumper_jid in
      elim (truthy (get "to" xml)) [
        | none ↦ s
        | some to ↦
            if has_sub "@" to
            then send_where (λ c. is_peer jid c && is_named env to c)
                (clean_ping (env.tostring (with_from jid xml))) s.clients s
            else send self (pong xml) s
      ]

  -- What a bot is sent that reports no permissions, with the next three results of `uuid4`.
  abbrev pub grant : Env → ℕ → String → String → Server tiny → Server tiny
  grant env self admin user s =
      let jid = (s.conn self).bumper_jid in
      let head = λ (n : ℕ). concat (
        "<iq type=\"set\" id=\""
        ∷ env.uuid4 n
        ∷ "\" from=\""
        ∷ admin
        ∷ "\" to=\""
        ∷ jid
        ∷ "\"><query xmlns=\"com:ctl\">"
        ∷ []) in
      let add = concat (
        head s.drawn
        ∷ "<ctl td=\"AddUser\" id=\"0000\" jid=\""
        ∷ user
        ∷ "\" /></query></iq>"
        ∷ []) in
      let acs = concat (
        head (s.drawn + 1)
        ∷ "<ctl td=\"SetAC\" id=\"1111\" jid=\""
        ∷ user
        ∷ "\"><acs><ac name=\"userman\" allow=\"1\"/><ac name=\"setting\" allow=\"1\"/><ac name=\"clean\" allow=\"1\"/></acs></ctl></query></iq>"
        ∷ []) in
      let info = concat (
        head (s.drawn + 2)
        ∷ "<ctl td=\"GetUserInfo\" id=\"4444\" /><UserInfos/></query></iq>"
        ∷ []) in
      let done = send self info (send self acs (send self add s)) in
      record done { drawn = s.drawn + 3 }

  -- `errno='103'` from a bot: the user that the stanza is for is added, unless the bot names a user
  -- of the server or authentication is on. Each exception on the way leaves the state as it is.
  unfoldable pub handle_no_permission : Env → ℕ → Element → Server tiny → Server tiny
  handle_no_permission env self xml s = elim (first_child xml) [
    | none ↦ s
    | some query ↦ elim (first_child query) [
      | none ↦ s
      | some ctl ↦ elim (truthy (get "to" xml)) [
        | none ↦ s
        | some to ↦ elim (admin_user ctl) [
          | none ↦ s
          | some admin ↦
              if starts_with admin "fuid_" || starts_with admin "fusername_" || env.use_auth
              then s
              else grant env self admin (or_empty (item 0 (split b'/' to))) s
        ]
      ]
    ]
  ]

  unfoldable pub forward_result : Env → ℕ → Element → Server tiny → Server tiny
  forward_result env self xml s =
      let jid = (s.conn self).bumper_jid in
      let message = clean_ctl (env.tostring (with_from jid xml)) in
      elim (truthy (get "to" xml)) [
        | none ↦ s
        | some to ↦
            send_where
              (λ c.
                is_peer jid c
                && (not (has_sub "@" (result_to to)) || is_named env (result_to to) c))
              message s.clients
              (if is_bot (s.conn self).kind && to == "de.ecorobot.net"
                then send_where (λ c. true) message s.clients s
                else s)
      ]

  unfoldable pub handle_result : Env → ℕ → Element → String → Server tiny → Server tiny
  unfolding handle_no_permission forward_result
  handle_result env self xml input s =
      if has_sub "errno='103'" input
      then (if is_bot (s.conn self).kind then handle_no_permission env self xml s else s)
      else forward_result env self xml s
