-- ===== src/Xmpp/Follows/Forward.antt =====
-- `_handle_ctl`, `_handle_ping` and `_handle_result` of bumper/xmppserver.py change other connections
-- by sending to them at most.
use bumper.Prelude.{ℕ, String, Bool, List, [], ◌∷◌, inl, inr, if◌then◌else◌, Option-cases}
use bumper.Prelude.Text.{has_sub}
use bumper.Tiny.{TinyDb}
use bumper.Xmpp.{Env, Client, Server}
use bumper.Xmpp.Xml.{Element, first_child, get}
use bumper.Xmpp.Conn.{send}
use bumper.Xmpp.Auth.{truthy}
use bumper.Xmpp.Forward.{
  send_where, answer_sf, forward_ctl, handle_ctl, pong, handle_ping, grant, handle_no_permission,
  forward_result, handle_result, is_bot, admin_user, not_implemented, reports_admin,
}
use bumper.Xmpp.Follows.{Follows, Follows-refl, follow_on, send-Follows, if-Follows}

module _ {tiny : TinyDb} where
  send_where-Follows :
      (self : ℕ) (p : Client → Bool) (command : String) (l : List ℕ) (s : Server tiny)
      → Follows self s (send_where p command l s)
  unfolding send_where
  send_where-Follows self p command [] s = Follows-refl self s
  send_where-Follows self p command (c ∷ l) s =
      let t = if p (s.conn c) then send c command s else s in
      follow_on self s t (send_where p command l t)
        (if-Follows self (p (s.conn c)) s (send c command s) s (send-Follows self c command s)
          (Follows-refl self s))
        (send_where-Follows self p command l t)

  answer_sf-Follows :
      (self : ℕ) (xml : Element) (input : String) (s : Server tiny)
      → Follows self s (answer_sf self xml input s)
  answer_sf-Follows self xml input s =
      if-Follows self _ s _ s (send-Follows self self _ s) (Follows-refl self s)

  forward_ctl-Follows :
      (env : Env) (self : ℕ) (xml : Element) (s : Server tiny)
      → Follows self s (forward_ctl env self xml s)
  unfolding forward_ctl
  forward_ctl-Follows env self xml s = elim (Option-cases (truthy (get "to" xml))) [
    | inl e ↦ rw (e, forward_ctl) (Follows-refl self s)
    | inr (to, e) ↦ rw (e, forward_ctl) (send_where-Follows self _ _ s.clients s)
  ]

  pub handle_ctl-Follows :
      (env : Env) (self : ℕ) (xml : Element) (input : String) (s : Server tiny)
      → Follows self s (handle_ctl env self xml input s)
  unfolding handle_ctl
  handle_ctl-Follows env self xml input s =
      let answered = answer_sf-Follows self xml input s in
      let refused = send-Follows self self (not_implemented xml) s in
      elim (Option-cases (first_child xml)) [
        | inl e ↦ rw (e, handle_ctl) (if-Follows self _ s _ _ refused answered)
        | inr (query, e) ↦
            rw (e, handle_ctl)
              (if-Follows self _ s _ _ refused (
                if-Follows self (reports_admin (s.conn self).kind query) s _ _ answered (
                  follow_on self s (answer_sf self xml input s) _ answered
                    (forward_ctl-Follows env self xml (answer_sf self xml input s)))))
      ]

  pub handle_ping-Follows :
      (env : Env) (self : ℕ) (xml : Element) (s : Server tiny)
      → Follows self s (handle_ping env self xml s)
  unfolding handle_ping
  handle_ping-Follows env self xml s = elim (Option-cases (truthy (get "to" xml))) [
    | inl e ↦ rw (e, handle_ping) (Follows-refl self s)
    | inr (to, e) ↦
        rw (e, handle_ping)
          (if-Follows self (has_sub "@" to) s _ _ (send_where-Follows self _ _ s.clients s)
            (send-Follows self self (pong xml) s))
  ]

  grant-Follows :
      (env : Env) (self : ℕ) (admin user : String) (s : Server tiny)
      → Follows self s (grant env self admin user s)
  grant-Follows env self admin user s =
      let p =
        follow_on self s _ _
          (follow_on self s _ _ (send-Follows self self _ s) (send-Follows self self _ _))
          (send-Follows self self _ _) in
      record { grows = p.grows; others = p.others; listed = p.listed }

  handle_no_permission-Follows :
      (env : Env) (self : ℕ) (xml : Element) (s : Server tiny)
      → Follows self s (handle_no_permission env self xml s)
  unfolding handle_no_permission
  handle_no_permission-Follows env self xml s = elim (Option-cases (first_child xml)) [
    | inl e ↦ rw (e, handle_no_permission) (Follows-refl self s)
    | inr (query, e) ↦ elim (Option-cases (first_child query)) [
      | inl e₁ ↦ rw (e, e₁, handle_no_permission) (Follows-refl self s)
      | inr (ctl, e₁) ↦ elim (Option-cases (truthy (get "to" xml))) [
        | inl e₂ ↦ rw (e, e₁, e₂, handle_no_permission) (Follows-refl self s)
        | inr (to, e₂) ↦ elim (Option-cases (admin_user ctl)) [
          | inl e₃ ↦ rw (e, e₁, e₂, e₃, handle_no_permission) (Follows-refl self s)
          | inr (admin, e₃) ↦
              rw (e, e₁, e₂, e₃, handle_no_permission)
                (if-Follows self _ s _ _ (Follows-refl self s) (grant-Follows env self admin _ s))
        ]
      ]
    ]
  ]

  forward_result-Follows :
      (env : Env) (self : ℕ) (xml : Element) (s : Server tiny)
      → Follows self s (forward_result env self xml s)
  unfolding forward_result
  forward_result-Follows env self xml s = elim (Option-cases (truthy (get "to" xml))) [
    | inl e ↦ rw (e, forward_result) (Follows-refl self s)
    | inr (to, e) ↦
        rw (e, forward_result)
          (follow_on self s _ _
            (if-Follows self _ s _ _ (send_where-Follows self _ _ s.clients s)
              (Follows-refl self s))
            (send_where-Follows self _ _ s.clients _))
  ]

  pub handle_result-Follows :
      (env : Env) (self : ℕ) (xml : Element) (input : String) (s : Server tiny)
      → Follows self s (handle_result env self xml input s)
  unfolding handle_result
  handle_result-Follows env self xml input s =
      if-Follows self (has_sub "errno='103'" input) s _ _
        (if-Follows self (is_bot (s.conn self).kind) s _ _
          (handle_no_permission-Follows env self xml s) (Follows-refl self s))
        (forward_result-Follows env self xml s)
