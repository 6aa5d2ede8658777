-- ===== src/Xmpp/Stream.antt =====
-- bumper/xmppserver.py: the start of a stream, presences, and `parse_data`, which hands each
-- element of the input to its handler.
use Prim.Native.Char.{code}
use mathlib.Core.Option
use text.Mathlib.Text.{starts_with}
use bumper.Prelude.{
  ℕ, ◌+◌, String, ◌==◌, Bool, true, false, ◌&&◌, ◌||◌, Option, none, some, [], ◌∷◌, ◌++◌,
  if◌then◌else◌, nat_eq, field_is,
}
use bumper.Prelude.Text.{concat, has_sub, find, slice}
use bumper.Tiny.{TinyDb}
use bumper.Xmpp.{Env, starttls, ping, Server}
use bumper.Xmpp.State
use bumper.Xmpp.Xml.{
  Element, element, Elements, nil, cons, Parsed, root, no_element_found, invalid_token, other_error,
  tag, first_child, get,
}
use bumper.Xmpp.Conn.{server_id, change, send, set_state}
use bumper.Xmpp.Auth.{handle_sasl_auth, handle_bind, handle_session}
use bumper.Xmpp.Forward.{is_bot, handle_ctl, handle_ping, handle_result}

-- The part behind the first "}".
abbrev pub after_brace : String → String
after_brace String.[] = ""
after_brace (String.◌∷◌ c s) = elim (nat_eq (code c) b'}') [ true ↦ s | false ↦ after_brace s ]

-- `_tag_strip_uri`
unfoldable pub strip_uri : String → String
strip_uri String.[] = ""
strip_uri (String.◌∷◌ c s) = if nat_eq (code c) b'{' then after_brace s else String.◌∷◌ c s

-- The tag of `xml[0]` without its URI.
abbrev pub child_tag : Element → Option String
child_tag xml = Option.map (λ e. strip_uri (tag e)) (first_child xml)

abbrev pub stream_open : String
stream_open = concat (
    "<stream:stream xmlns:stream=\"http://etherx.jabber.org/streams\" xmlns=\"jabber:client\" version=\"1.0\" id=\"1\" from=\""
    ∷ server_id ∷ "\">" ∷ [])

abbrev pub features_starttls : String
features_starttls =
    "<stream:features><starttls xmlns=\"urn:ietf:params:xml:ns:xmpp-tls\"><required/></starttls><mechanisms xmlns=\"urn:ietf:params:xml:ns:xmpp-sasl\"><mechanism>PLAIN</mechanism></mechanisms></stream:features>"

abbrev pub features_sasl : String
features_sasl =
    "<stream:features><mechanisms xmlns=\"urn:ietf:params:xml:ns:xmpp-sasl\"><mechanism>PLAIN</mechanism></mechanisms></stream:features>"

abbrev pub features_bind : String
features_bind =
    "<stream:features><bind xmlns=\"urn:ietf:params:xml:ns:xmpp-bind\"/><session xmlns=\"urn:ietf:params:xml:ns:xmpp-session\"/></stream:features>"

-- `data[sc + 4 : ec]`, where `sc` is -1 if "to=" is missing
abbrev pub devclass_of : String → Option String
devclass_of input = elim (find ".ecorobot.net" input) [
  | none ↦ none
  | some ec ↦ elim (find "to=" input) [
    | none ↦ some (slice 3 ec input)
    | some sc ↦ some (slice (sc + 4) ec input)
  ]
]

module _ {tiny : TinyDb} where
  abbrev pub set_devclass : ℕ → Option String → Server tiny → Server tiny
  set_devclass self none s = s
  set_devclass self (some d) s = change (λ c. record c { devclass = d }) self s

  -- `_handle_connect` with no element, as `parse_data` calls it.
  unfoldable pub handle_connect : ℕ → String → Server tiny → Server tiny
  handle_connect self input s =
      if nat_eq (s.conn self).state State.connect
      then (if has_sub "jabber:client" input
          then send self (if (s.conn self).tls_upgraded then features_sasl else features_starttls)
              (send self stream_open (set_devclass self (devclass_of input) s))
          else send self "</stream>" s)
      else if nat_eq (s.conn self).state State.init && has_sub "jabber:client" input
      then send self features_bind (send self stream_open s)
      else s

  -- `_handle_starttls` up to its wait; the upgrade then calls `connection_made` again.
  unfoldable pub handle_starttls : ℕ → Server tiny → Server tiny
  handle_starttls self s =
      if (s.conn self).tls_upgraded
      then s
      else send self "<proceed xmlns='urn:ietf:params:xml:ns:xmpp-tls'/>"
          (change (λ c. record c { tls_upgraded = true }) self s)

  -- One round of `schedule_ping`: a connection that is not closed is sent a ping and another round
  -- is scheduled.
  unfoldable pub schedule_ping : ℕ → Server tiny → Server tiny
  schedule_ping self s =
      if nat_eq (s.conn self).state State.disconnect
      then s
      else let sent =
          send self
            (concat (
              "<iq from='"
              ∷ server_id
              ∷ "' to='"
              ∷ (s.conn self).bumper_jid
              ∷ "' id='s2c1' type='get'><ping xmlns='urn:xmpp:ping'/></iq>"
              ∷ []))
            s in
        record sent { tasks = sent.tasks ++ ping self ∷ [] }

  abbrev pub dummy : ℕ → Server tiny → Server tiny
  dummy self s =
      send self
        (concat ("<presence to=\"" ∷ (s.conn self).bumper_jid ∷ "\"> dummy </presence>" ∷ [])) s

  abbrev pub ask_device_info : ℕ → Server tiny → Server tiny
  ask_device_info self s =
      send self
        (concat (
          "<iq type=\"set\" id=\"14\" to=\""
          ∷ (s.conn self).bumper_jid
          ∷ "\" from=\""
          ∷ server_id
          ∷ "\"><query xmlns=\"com:ctl\"><ctl td=\"GetDeviceInfo\"/></query></iq>"
          ∷ []))
        s

  unfoldable pub handle_presence : ℕ → Element → Server tiny → Server tiny
  handle_presence self xml s =
      if field_is (Option.map (λ e. tag e) (first_child xml)) "status"
      then (if is_bot (s.conn self).kind then ask_device_info self (dummy self s) else dummy self s)
      else if field_is (get "type" xml) "unavailable"
      then set_state self State.disconnect s
      else dummy self s

  unfoldable pub handle_iq : Env → ℕ → Element → String → Server tiny → Server tiny
  unfolding handle_bind handle_session handle_ping handle_ctl handle_result
  handle_iq env self xml input s =
      let child = child_tag xml in
      if field_is child "bind"
      then handle_bind self xml s
      else if field_is child "session"
      then handle_session self xml s
      else if field_is child "ping"
      then handle_ping env self xml s
      else if field_is child "query"
      then (if is_bot (s.conn self).kind
          then handle_result env self xml input s
          else handle_ctl env self xml input s)
      else if field_is (get "type" xml) "result" || field_is (get "type" xml) "set"
      then handle_result env self xml input s
      else s

  -- The handler of one element, and whether the element is then cleared of its children.
  unfoldable pub handle_item : Env → ℕ → Element → String → Server tiny → Bool × Server tiny
  unfolding handle_iq handle_sasl_auth handle_presence
  handle_item env self xml input s =
      if tag xml == "root"
      then (false, s)
      else if tag xml == "iq"
      then (true, handle_iq env self xml input s)
      else if has_sub "auth" (tag xml)
      then (if has_sub "urn:ietf:params:xml:ns:xmpp-sasl" (tag xml)
          then (true, handle_sasl_auth env self xml s)
          else (false, s))
      else if has_sub "-tls" (tag xml)
      then (
        false,
        if (s.conn self).tls_upgraded
            then s
            else record s { tasks = s.tasks ++ starttls self ∷ [] },
      )
      else if has_sub "presence" (tag xml)
      then (true, handle_presence self xml s)
      else (false, s)

-- `for item in root.iter()`: in document order, a cleared element's children left out.
unfoldable mutual
  pub visit : {tiny : TinyDb} → Env → ℕ → String → Element → Server tiny → Server tiny
  visit env self input (element t a x c) s =
      let rest = visit_all env self input c (handle_item env self (element t a x c) input s).1 in
      if (handle_item env self (element t a x c) input s).0
      then (handle_item env self (element t a x c) input s).1
      else rest

  pub visit_all : {tiny : TinyDb} → Env → ℕ → String → Elements → Server tiny → Server tiny
  visit_all env self input nil s = s
  visit_all env self input (cons e es) s = visit_all env self input es (visit env self input e s)

-- The input with an artificial root; an XML declaration gives its place to the root's tag.
abbrev pub with_root : Env → String → String
with_root env input =
    if starts_with input "<?xml"
    then concat (env.replace_declaration "<root>" input ∷ "</root>" ∷ [])
    else concat ("<root>" ∷ input ∷ "</root>" ∷ [])

module _ {tiny : TinyDb} (env : Env) where
  -- A stream's start is handled in the states `CONNECT` and `INIT` only.
  abbrev pub start_stream : ℕ → String → Server tiny → Server tiny
  start_stream self newdata s =
      if nat_eq (s.conn self).state State.connect || nat_eq (s.conn self).state State.init
      then handle_connect self newdata s
      else s

  -- What is done with the outcome of the parser.
  unfoldable pub handle_parsed : ℕ → String → Parsed → Server tiny → Server tiny
  unfolding visit
  handle_parsed self newdata (root e) s = visit env self newdata e s
  handle_parsed self newdata no_element_found s =
      if has_sub "<stream:stream " newdata then start_stream self newdata s else s
  handle_parsed self newdata invalid_token s =
      if has_sub "</stream:stream>" newdata then send self "</stream:stream>" s else s
  handle_parsed self newdata other_error s =
      if has_sub "<stream:stream" newdata
      then start_stream self newdata s
      else if has_sub "</stream:stream>" newdata
      then set_state self State.disconnect (send self "</stream:stream>" s)
      else s

  unfoldable pub parse_data : ℕ → String → Server tiny → Server tiny
  unfolding handle_parsed
  parse_data self input s =
      handle_parsed self (with_root env input) (env.fromstring (with_root env input)) s
