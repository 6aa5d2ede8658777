-- ===== src/Xmpp/Sending.antt =====
-- What a loop of bumper/xmppserver.py over a list of connections sends to each of them.
use bumper.Prelude.{
  ℕ, zero, suc, ◌≡◌, refl, sym, ap, ◌∙◌, String, Bool, true, false, ◌&&◌, List, [], ◌∷◌, ◌++◌,
  append-nil, append_assoc, inl, inr, if◌then◌else◌, Bool-cases, nat_eq,
}
use bumper.Tiny.{TinyDb}
use bumper.Xmpp.{Client, Server}
use bumper.Xmpp.Conn.{send}
use bumper.Xmpp.Forward.{send_where}
use bumper.Xmpp.Follows.{nat_eq_sound, nat_eq_same}

-- How often a connection stands in a list.
unfoldable pub occurrences : ℕ → List ℕ → ℕ
occurrences i [] = 0
occurrences i (c ∷ l) = if nat_eq i c then suc (occurrences i l) else occurrences i l

unfoldable pub times : ℕ → String → List String
times zero command = []
times (suc n) command = command ∷ times n command

-- A connection that was sent more.
abbrev pub sent_more : List String → Client → Client
sent_more l c = record c { sent = c.sent ++ l }

pub sent_more_append :
    (l m : List String) (c : Client) → sent_more m (sent_more l c) ≡ sent_more (l ++ m) c
sent_more_append l m c = ap (λ x. record c { sent = x }) (append_assoc c.sent l m)

pub sent_more_nil : (c : Client) → sent_more [] c ≡ c
sent_more_nil c = ap (λ x. record c { sent = x }) (append-nil c.sent)

-- The connections that pass a test are sent the command once more for the head of the list.
lists-append :
    (a b : Bool) (n : ℕ) (command : String)
    → (if a && b then command ∷ [] else []) ++ (if b then times n command else [])
      ≡ (if b then times (if a then suc n else n) command else [])
unfolding times
lists-append true true n command = refl
lists-append true false n command = refl
lists-append false true n command = refl
lists-append false false n command = refl

abbrev pub IgnoresSent : (Client → Bool) → Type 0
IgnoresSent p = (c : Client) (m : List String) → p (record c { sent = m }) ≡ p c

module _ {tiny : TinyDb} where
  conn-send_if :
      (p : Client → Bool) (command : String) (c i : ℕ) (s : Server tiny)
      → (if p (s.conn c) then send c command s else s).conn i
        ≡ sent_more (if nat_eq i c && p (s.conn i) then command ∷ [] else []) (s.conn i)
  unfolding send
  conn-send_if p command c i s = elim (Bool-cases (nat_eq i c)) [
    | inl e ↦
        rw (nat_eq_sound i c e, nat_eq_same c)
          (elim (Bool-cases (p (s.conn c))) [
            | inl h ↦ rw (h, nat_eq_same c) refl
            | inr h ↦ rw h (sym (sent_more_nil (s.conn c)))
          ])
    | inr e ↦ elim (Bool-cases (p (s.conn c))) [
      | inl h ↦ rw (e, h, e) (sym (sent_more_nil (s.conn i)))
      | inr h ↦ rw (e, h) (sym (sent_more_nil (s.conn i)))
    ]
  ]

  -- What a loop over a list of connections does to each, where the test does not read what was sent.
  pub conn-send_where :
      (p : Client → Bool) (command : String) (l : List ℕ) (i : ℕ) (s : Server tiny)
      → IgnoresSent p
      → (send_where p command l s).conn i
        ≡ sent_more (if p (s.conn i) then times (occurrences i l) command else []) (s.conn i)
  unfolding send_where occurrences times
  conn-send_where p command [] i s h = elim (Bool-cases (p (s.conn i))) [
    | inl e ↦ rw e (sym (sent_more_nil (s.conn i)))
    | inr e ↦ rw e (sym (sent_more_nil (s.conn i)))
  ]
  conn-send_where p command (c ∷ l) i s h =
      let t = if p (s.conn c) then send c command s else s in
      let more = if nat_eq i c && p (s.conn i) then command ∷ [] else [] in
      conn-send_where p command l i t h
      ∙ ap (λ d. sent_more (if p d then times (occurrences i l) command else []) d)
          (conn-send_if p command c i s)
      ∙ ap
          (λ b.
            sent_more (if b then times (occurrences i l) command else [])
              (sent_more more (s.conn i)))
          (h (s.conn i) ((s.conn i).sent ++ more))
      ∙ sent_more_append more (if p (s.conn i) then times (occurrences i l) command else [])
          (s.conn i)
      ∙ ap (λ x. sent_more x (s.conn i))
          (lists-append (nat_eq i c) (p (s.conn i)) (occurrences i l) command)
