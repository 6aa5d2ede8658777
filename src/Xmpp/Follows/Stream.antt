-- ===== src/Xmpp/Follows/Stream.antt =====
-- `parse_data` of bumper/xmppserver.py, whatever it is given, lowers no connection's state and
-- changes the connections other than its own by sending to them at most.
use bumper.Prelude.{
  ℕ, ◌≤◌, ◌≡◌, String, ◌==◌, Bool, true, false, ◌||◌, Option, none, some, [], ◌∷◌, ◌++◌,
  if◌then◌else◌, arith, nat_eq, field_is,
}
use bumper.Prelude.Text.{has_sub}
use bumper.Tiny.{TinyDb}
use bumper.Xmpp.{Env, starttls, Server}
use bumper.Xmpp.State
use bumper.Xmpp.Xml.{
  Element, element, Elements, nil, cons, Parsed, root, no_element_found, invalid_token, other_error,
  tag, get,
}
use bumper.Xmpp.Auth.{handle_sasl_auth}
use bumper.Xmpp.Forward.{is_bot}
use bumper.Xmpp.Stream.{
  child_tag, devclass_of, set_devclass, handle_connect, stream_open, features_bind, dummy,
  handle_presence, handle_iq, handle_item, visit, visit_all, start_stream, handle_parsed,
  parse_data,
}
use bumper.Xmpp.Follows.{
  Follows, Follows-refl, follow_on, change-Follows, send-Follows, if-Follows, set_state-Follows,
  unsent,
}
use bumper.Xmpp.Follows.Forward.{handle_ctl-Follows, handle_ping-Follows, handle_result-Follows}
use bumper.Xmpp.Follows.Auth.{handle_sasl_auth-Follows, handle_bind-Follows, handle_session-Follows}

module _ {tiny : TinyDb} where
  set_devclass-Follows :
      (self : ℕ) (d : Option String) (s : Server tiny) → Follows self s (set_devclass self d s)
  set_devclass-Follows self none s = Follows-refl self s
  set_devclass-Follows self (some d) s =
      change-Follows self (λ c. record c { devclass = d }) s (omega arith)

  handle_connect-Follows :
      (self : ℕ) (input : String) (s : Server tiny) → Follows self s (handle_connect self input s)
  unfolding handle_connect
  handle_connect-Follows self input s =
      if-Follows self _ s _ _
        (if-Follows self _ s _ _
          (follow_on self s _ _
            (follow_on self s _ _ (set_devclass-Follows self (devclass_of input) s)
              (send-Follows self self stream_open _))
            (send-Follows self self _ _))
          (send-Follows self self "</stream>" s))
        (if-Follows self _ s _ _
          (follow_on self s _ _ (send-Follows self self stream_open s)
            (send-Follows self self features_bind _))
          (Follows-refl self s))

  start_stream-Follows :
      (env : Env) (self : ℕ) (input : String) (s : Server tiny)
      → Follows self s (start_stream env self input s)
  start_stream-Follows env self input s =
      if-Follows self _ s _ _ (handle_connect-Follows self input s) (Follows-refl self s)

  dummy-Follows : (self : ℕ) (s : Server tiny) → Follows self s (dummy self s)
  dummy-Follows self s = send-Follows self self _ s

  handle_presence-Follows :
      (self : ℕ) (xml : Element) (s : Server tiny) → Follows self s (handle_presence self xml s)
  unfolding handle_presence
  handle_presence-Follows self xml s =
      if-Follows self _ s _ _
        (if-Follows self _ s _ _
          (follow_on self s _ _ (dummy-Follows self s) (send-Follows self self _ _))
          (dummy-Follows self s))
        (if-Follows self _ s _ _ (set_state-Follows self State.disconnect s) (dummy-Follows self s))

  handle_iq-Follows :
      (env : Env) (self : ℕ) (xml : Element) (input : String) (s : Server tiny)
      → Follows self s (handle_iq env self xml input s)
  unfolding handle_iq
  handle_iq-Follows env self xml input s =
      if-Follows self (field_is (child_tag xml) "bind") s _ _ (handle_bind-Follows self xml s) (
        if-Follows self (field_is (child_tag xml) "session") s _ _
          (handle_session-Follows self xml s)
          (if-Follows self (field_is (child_tag xml) "ping") s _ _
            (handle_ping-Follows env self xml s)
            (if-Follows self (field_is (child_tag xml) "query") s _ _
              (if-Follows self (is_bot (s.conn self).kind) s _ _
                (handle_result-Follows env self xml input s)
                (handle_ctl-Follows env self xml input s))
              (if-Follows self
                (field_is (get "type" xml) "result" || field_is (get "type" xml) "set") s _ _
                (handle_result-Follows env self xml input s) (Follows-refl self s)))))

  schedule-Follows :
      (self : ℕ) (s : Server tiny)
      → Follows self s (record s { tasks = s.tasks ++ starttls self ∷ [] })
  schedule-Follows self s =
      let p = Follows-refl self s in
      record { grows = p.grows; others = p.others; listed = p.listed }

  -- The same for a handler that also tells whether the element is cleared.
  pair-Follows :
      (self : ℕ) (b : Bool) (s : Server tiny) (x y : Bool × Server tiny)
      → Follows self s x.1
      → Follows self s y.1
      → Follows self s (if b then x else y).1
  pair-Follows self true s x y p q = p
  pair-Follows self false s x y p q = q

  handle_item-Follows :
      (env : Env) (self : ℕ) (xml : Element) (input : String) (s : Server tiny)
      → Follows self s (handle_item env self xml input s).1
  unfolding handle_item
  handle_item-Follows env self xml input s =
      let same : Bool × Server tiny = (false, s) in
      let iq : Bool × Server tiny = (true, handle_iq env self xml input s) in
      let presence : Bool × Server tiny =
        if has_sub "presence" (tag xml) then (true, handle_presence self xml s) else same in
      let upgrade : Bool × Server tiny = (
        false,
        if (s.conn self).tls_upgraded
            then s
            else record s { tasks = s.tasks ++ starttls self ∷ [] },
      ) in
      let tls = if has_sub "-tls" (tag xml) then upgrade else presence in
      let sasl : Bool × Server tiny =
        if has_sub "urn:ietf:params:xml:ns:xmpp-sasl" (tag xml)
        then (true, handle_sasl_auth env self xml s)
        else same in
      let auth = if has_sub "auth" (tag xml) then sasl else tls in
      pair-Follows self (tag xml == "root") s same (if tag xml == "iq" then iq else auth)
        (Follows-refl self s)
        (pair-Follows self (tag xml == "iq") s iq auth (handle_iq-Follows env self xml input s) (
          pair-Follows self (has_sub "auth" (tag xml)) s sasl tls
            (pair-Follows self (has_sub "urn:ietf:params:xml:ns:xmpp-sasl" (tag xml)) s
              (true, handle_sasl_auth env self xml s) same (handle_sasl_auth-Follows env self xml s)
              (Follows-refl self s))
            (pair-Follows self (has_sub "-tls" (tag xml)) s upgrade presence
              (if-Follows self (s.conn self).tls_upgraded s _ _ (Follows-refl self s)
                (schedule-Follows self s))
              (pair-Follows self (has_sub "presence" (tag xml)) s (true, handle_presence self xml s)
                same (handle_presence-Follows self xml s) (Follows-refl self s)))))

mutual
  unfolding visit

  visit-Follows :
      {tiny : TinyDb} (env : Env) (self : ℕ) (input : String) (e : Element) (s : Server tiny)
      → Follows self s (visit env self input e s)
  visit-Follows env self input (element t a x c) s =
      let p = handle_item-Follows env self (element t a x c) input s in
      if-Follows self _ s _ _ p (follow_on self s _ _ p (visit_all-Follows env self input c _))

  visit_all-Follows :
      {tiny : TinyDb} (env : Env) (self : ℕ) (input : String) (l : Elements) (s : Server tiny)
      → Follows self s (visit_all env self input l s)
  visit_all-Follows env self input nil s = Follows-refl self s
  visit_all-Follows env self input (cons e l) s =
      follow_on self s _ _ (visit-Follows env self input e s) (visit_all-Follows env self input l _)

module _ {tiny : TinyDb} where
  handle_parsed-Follows :
      (env : Env) (self : ℕ) (input : String) (p : Parsed) (s : Server tiny)
      → Follows self s (handle_parsed env self input p s)
  unfolding handle_parsed
  handle_parsed-Follows env self input (root e) s = visit-Follows env self input e s
  handle_parsed-Follows env self input no_element_found s =
      if-Follows self _ s _ _ (start_stream-Follows env self input s) (Follows-refl self s)
  handle_parsed-Follows env self input invalid_token s =
      if-Follows self _ s _ _ (send-Follows self self _ s) (Follows-refl self s)
  handle_parsed-Follows env self input other_error s =
      if-Follows self _ s _ _ (start_stream-Follows env self input s) (
        if-Follows self _ s _ _
          (follow_on self s _ _ (send-Follows self self _ s)
            (set_state-Follows self State.disconnect _))
          (Follows-refl self s))

  pub parse_data-Follows :
      (env : Env) (self : ℕ) (input : String) (s : Server tiny)
      → Follows self s (parse_data env self input s)
  unfolding parse_data
  parse_data-Follows env self input s = handle_parsed-Follows env self _ _ s

  -- Whatever a connection sends, and however it is parsed, no connection goes back to an earlier
  -- state.
  pub parse_data_grows :
      (env : Env) (self i : ℕ) (input : String) (s : Server tiny)
      → (s.conn i).state ≤ ((parse_data env self input s).conn i).state
  parse_data_grows env self i input s = (parse_data-Follows env self input s).grows i

  -- Whatever a connection sends, every other connection keeps all that it has but for what it was
  -- sent (its kind, its state, its names, its address and its transport), and the list of the
  -- connections stays.
  pub parse_data_others :
      (env : Env) (self i : ℕ) (input : String) (s : Server tiny)
      → nat_eq i self ≡ false
      → (unsent ((parse_data env self input s).conn i) ≡ unsent (s.conn i))
        × ((parse_data env self input s).clients ≡ s.clients)
  parse_data_others env self i input s h = (
    (parse_data-Follows env self input s).others i h,
    (parse_data-Follows env self input s).listed,
  )
