-- ===== src/Xmpp/Delivery.antt =====
-- Which connections of bumper/xmppserver.py a forwarded stanza reaches, and how often.
use bumper.Prelude.{
  ℕ, ◌≡◌, refl, ap, ◌∙◌, String, ◌==◌, Bool, true, false, not, ◌&&◌, ◌||◌, some, [], ◌++◌, inl, inr,
  if◌then◌else◌, Option-cases, Bool-cases, nat_eq, field_is,
}
use bumper.Prelude.Text.{has_sub}
use bumper.Tiny.{TinyDb}
use bumper.Xmpp.{Env, Kind, Client, Server}
use bumper.Xmpp.Xml.{Element, first_child, get, with_from}
use bumper.Xmpp.Conn.{send}
use bumper.Xmpp.Auth.{truthy}
use bumper.Xmpp.Forward.{
  send_where, answer_sf, forward_ctl, handle_ctl, forward_result, is_bot, is_ready, is_peer,
  is_named, clean_ctl, result_to, not_implemented, reports_admin,
}
use bumper.Xmpp.Sending.{
  occurrences, times, sent_more, sent_more_append, sent_more_nil, conn-send_where,
}

-- The test by which a command is forwarded: a ready bot with another address, whose uid the text
-- `to` contains without regard to case.
abbrev pub takes_ctl : Env → String → String → Client → Bool
takes_ctl env jid to c = is_peer jid c && is_bot c.kind && is_named env to c

and_false : (a b c : Bool) → (b && c) ≡ false → (a && b && c) ≡ false
and_false true b c h = h
and_false false b c h = refl

and_true : (a : Bool) → (a && true) ≡ a
and_true true = refl
and_true false = refl

and_middle : (a b : Bool) → (a && false && b) ≡ false
and_middle true b = refl
and_middle false b = refl

takes_ctl_none :
    (env : Env) (jid to : String) (c : Client)
    → (is_ready c && is_bot c.kind && is_named env to c) ≡ false
    → takes_ctl env jid to c ≡ false
takes_ctl_none env jid to c h = elim (Bool-cases (c.bumper_jid == jid)) [
  | inl e ↦ rw e refl
  | inr e ↦ rw e h
]

reports_admin_none : (k : Kind) (query : Element) → is_bot k ≡ false → reports_admin k query ≡ false
reports_admin_none k query h = elim (Option-cases (first_child query)) [
  | inl e ↦ rw (e, reports_admin) refl
  | inr (c, e) ↦ rw (e, h, reports_admin) refl
]

module _ {tiny : TinyDb} where
  answer_sf_none :
      (self : ℕ) (xml : Element) (input : String) (s : Server tiny)
      → has_sub "com:sf" input ≡ false
      → answer_sf self xml input s ≡ s
  answer_sf_none self xml input s h =
      rw
        (
          h,
          and_middle (field_is (get "type" xml) "set") (field_is (get "to" xml) "rl.ecorobot.net"),
        )
        refl

  conn-send_other :
      (self i : ℕ) (command : String) (s : Server tiny)
      → nat_eq i self ≡ false
      → (send self command s).conn i ≡ s.conn i
  unfolding send
  conn-send_other self i command s h = rw h refl

  conn-answer_sf :
      (self i : ℕ) (xml : Element) (input : String) (s : Server tiny)
      → nat_eq i self ≡ false
      → (answer_sf self xml input s).conn i ≡ s.conn i
  conn-answer_sf self i xml input s h =
      elim (Bool-cases (
        field_is (get "type" xml) "set"
        && has_sub "com:sf" input
        && field_is (get "to" xml) "rl.ecorobot.net")) [
          | inl e ↦ rw e (conn-send_other self i _ s h)
          | inr e ↦ rw e refl
        ]

  conn-forward_ctl :
      (env : Env) (self i : ℕ) (xml : Element) (to : String) (s : Server tiny)
      → truthy (get "to" xml) ≡ some to
      → (forward_ctl env self xml s).conn i
        ≡ sent_more
            (if takes_ctl env (s.conn self).bumper_jid to (s.conn i)
              then times
                  (occurrences i s.clients)
                  (clean_ctl (env.tostring (with_from (s.conn self).bumper_jid xml)))
              else [])
            (s.conn i)
  unfolding forward_ctl
  conn-forward_ctl env self i xml to s named =
      rw (named, forward_ctl)
        (conn-send_where (takes_ctl env (s.conn self).bumper_jid to)
          (clean_ctl (env.tostring (with_from (s.conn self).bumper_jid xml))) s.clients i s
          (λ c m. refl))

  conn-forward_ctl_other :
      (env : Env) (self i : ℕ) (xml : Element) (s : Server tiny)
      → ((to : String)
          → truthy (get "to" xml) ≡ some to
          → (is_ready (s.conn i) && is_bot (s.conn i).kind && is_named env to (s.conn i)) ≡ false)
      → (forward_ctl env self xml s).conn i ≡ s.conn i
  unfolding forward_ctl
  conn-forward_ctl_other env self i xml s unnamed = elim (Option-cases (truthy (get "to" xml))) [
    | inl e ↦ rw (e, forward_ctl) refl
    | inr (to, e) ↦
        rw
          (
            conn-forward_ctl env self i xml to s e,
            takes_ctl_none env (s.conn self).bumper_jid to (s.conn i) (unnamed to e),
          )
          (sent_more_nil (s.conn i))
  ]

  -- A command that a connection other than a bot sends, which asks for no roster, no disco#items, no
  -- disco#info and no Android bind, and whose `to` is present and not empty: each connection is sent
  -- the cleaned stanza as often as it is listed if it is a ready bot of another address than the
  -- sender's whose uid stands in `to`, and else nothing; it keeps all else.
  pub handle_ctl_delivers :
      (env : Env) (self i : ℕ) (xml query : Element) (input to : String) (s : Server tiny)
      → (has_sub "roster" input || has_sub "disco#items" input || has_sub "disco#info" input)
        ≡ false
      → has_sub "com:sf" input ≡ false
      → first_child xml ≡ some query
      → is_bot (s.conn self).kind ≡ false
      → truthy (get "to" xml) ≡ some to
      → (handle_ctl env self xml input s).conn i
        ≡ sent_more
            (if takes_ctl env (s.conn self).bumper_jid to (s.conn i)
              then times
                  (occurrences i s.clients)
                  (clean_ctl (env.tostring (with_from (s.conn self).bumper_jid xml)))
              else [])
            (s.conn i)
  unfolding handle_ctl forward_ctl
  handle_ctl_delivers env self i xml query input to s refused sf child sender named =
      rw
        (
          refused,
          child,
          handle_ctl,
          reports_admin_none (s.conn self).kind query sender,
          answer_sf_none self xml input s sf,
        )
        (conn-forward_ctl env self i xml to s named)

  -- A command reaches nobody but its sender and the ready bots whose uid stands in its `to`: any
  -- other connection stays as it is, whatever the stanza and the input are.
  pub handle_ctl_confined :
      (env : Env) (self i : ℕ) (xml : Element) (input : String) (s : Server tiny)
      → nat_eq i self ≡ false
      → ((to : String)
          → truthy (get "to" xml) ≡ some to
          → (is_ready (s.conn i) && is_bot (s.conn i).kind && is_named env to (s.conn i)) ≡ false)
      → (handle_ctl env self xml input s).conn i ≡ s.conn i
  unfolding handle_ctl
  handle_ctl_confined env self i xml input s other unnamed =
      elim (Bool-cases
        (has_sub "roster" input || has_sub "disco#items" input || has_sub "disco#info" input)) [
          | inl e ↦ rw (e, handle_ctl) (conn-send_other self i (not_implemented xml) s other)
          | inr e ↦ elim (Option-cases (first_child xml)) [
            | inl e₁ ↦ rw (e, e₁, handle_ctl) (conn-answer_sf self i xml input s other)
            | inr (query, e₁) ↦ elim (Bool-cases (reports_admin (s.conn self).kind query)) [
              | inl e₂ ↦ rw (e, e₁, e₂, handle_ctl) (conn-answer_sf self i xml input s other)
              | inr e₂ ↦
                  rw (e, e₁, e₂, handle_ctl)
                    (conn-forward_ctl_other env self i xml (answer_sf self xml input s)
                        (λ to h. rw (conn-answer_sf self i xml input s other) (unnamed to h))
                      ∙ conn-answer_sf self i xml input s other)
            ]
          ]
        ]

  -- A result that a bot sends to "de.ecorobot.net" is written to every connection as often as it is
  -- listed, in any state, the bot's own included, and then once more to each ready connection of
  -- another address.
  pub forward_result_broadcast :
      (env : Env) (self i : ℕ) (xml : Element) (s : Server tiny)
      → is_bot (s.conn self).kind ≡ true
      → truthy (get "to" xml) ≡ some "de.ecorobot.net"
      → (forward_result env self xml s).conn i ≡ (
          let message = clean_ctl (env.tostring (with_from (s.conn self).bumper_jid xml)) in
          let once = times (occurrences i s.clients) message in
          sent_more
            (once ++ (if is_peer (s.conn self).bumper_jid (s.conn i) then once else []))
            (s.conn i))
  unfolding forward_result has_sub
  forward_result_broadcast env self i xml s sender to =
      let jid = (s.conn self).bumper_jid in
      let message = clean_ctl (env.tostring (with_from jid xml)) in
      let all = send_where (λ c. true) message s.clients s in
      let once = times (occurrences i s.clients) message in
      let peer = λ (c : Client).
        is_peer jid c
        && (not (has_sub "@" (result_to "de.ecorobot.net"))
            || is_named env (result_to "de.ecorobot.net") c) in
      rw (to, sender, forward_result)
        (conn-send_where peer message s.clients i all (λ c m. refl)
          ∙ ap (λ d. sent_more (if peer d then once else []) d)
              (conn-send_where (λ c. true) message s.clients i s (λ c m. refl))
          ∙ ap (λ b. sent_more (if b then once else []) (sent_more once (s.conn i)))
              (and_true (is_peer jid (s.conn i)))
          ∙ sent_more_append once (if is_peer jid (s.conn i) then once else []) (s.conn i))
