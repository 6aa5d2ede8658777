-- ===== src/Web/Plugins/Devmanager/Known.antt =====
-- The handlers of bumper/web/plugins/api/iot.py and dim.py send commands to known bots only.
use bumper.Prelude.{
  ◌≡◌, refl, sym, ◌∙◌, String, ◌==◌, Bool, true, false, Option, none, some, inl, inr, Bool-cases,
  Option-cases, ap, subst, ◌≢◌, eq_iff, some_inj,
}
use bumper.Tiny.{TinyDb}
use bumper.Db.{Db}
use bumper.Db.Documents.{BotDoc}
use bumper.Db.Bots.{bot_get}
use bumper.Db.Bots.Views.{bot_view}
use bumper.Json.{Json, Fields, text, field_of, is_text, nothing, boolean, number, array, object}
use bumper.Web.Plugins.Devmanager.{
  Decision, answers, sends, fails, dim_accepts, dim_error, without_receiver, to_receiver, decide,
  handle_dim_devmanager,
}

dim_accepts_lem :
    (b : BotDoc)
    → dim_accepts b ≡ some true
    → (b.company ≡ some "eco-ng") × (b.mqtt_connection ≡ some true)
unfolding dim_accepts
dim_accepts_lem b h = elim (Option-cases b.company) [
  | inl e ↦ elim (none-some (sym (no_company e) ∙ h)) [ ]
  | inr (company, e) ↦ elim (Bool-cases (company == "eco-ng")) [
    | inl f ↦ (e ∙ ap some ((eq_iff company "eco-ng").0 f), sym (known e f) ∙ h)
    | inr f ↦ elim (false_true (some_inj (sym (other e f) ∙ h))) [ ]
  ]
]
  where
    none-some : {x : Bool} → none ≢ some x
    none-some e = cc

    false_true : false ≢ true
    false_true e = cc

    no_company : b.company ≡ none → dim_accepts b ≡ none
    no_company e = rw (e, dim_accepts) refl

    known :
        {company : String}
        → b.company ≡ some company
        → (company == "eco-ng") ≡ true
        → dim_accepts b ≡ b.mqtt_connection
    known e f = rw (e, dim_accepts) (rw (f) refl)

    other :
        {company : String}
        → b.company ≡ some company
        → (company == "eco-ng") ≡ false
        → dim_accepts b ≡ some false
    other e f = rw (e, dim_accepts) (rw (f) refl)

module _ {tiny : TinyDb} where
  -- A decision that sends a command sends the body, under the id, to a known bot that is accepted.
  abbrev SendsTo : (BotDoc → Option Bool) → Option Fields → String → Db tiny → Decision → Type 0
  SendsTo accepts body id db (sends cmd k) =
      (did : String) × (b : BotDoc) × (body ≡ some cmd)
      × (k ≡ id)
      × (field_of "toId" cmd ≡ some (text did))
      × (bot_view did db ≡ some b)
      × (accepts b ≡ some true)
  SendsTo accepts body id db (answers reply) = Unit {0}
  SendsTo accepts body id db fails = Unit {0}

  without_receiver-SendsTo :
      (accepts : BotDoc → Option Bool) (third id : String) (body : Fields) (db : Db tiny)
      → SendsTo accepts (some body) id db (without_receiver third body)
  unfolding without_receiver
  without_receiver-SendsTo accepts third id body db = elim (Option-cases (field_of "td" body)) [
    | inl h ↦ rw (h, without_receiver) tt
    | inr (td, h) ↦ elim (Bool-cases (is_text "PollSCResult" td)) [
      | inl e ↦ rw (h, without_receiver) (rw (e) tt)
      | inr e ↦ elim (Bool-cases (is_text "HasUnreadMsg" td)) [
        | inl f ↦ rw (h, without_receiver) (rw (e) (rw (f) tt))
        | inr f ↦ elim (Bool-cases (is_text third td)) [
          | inl g ↦ rw (h, without_receiver) (rw (e) (rw (f) (rw (g) tt)))
          | inr g ↦ rw (h, without_receiver) (rw (e) (rw (f) (rw (g) tt)))
        ]
      ]
    ]
  ]

  to_text-SendsTo :
      (accepts : BotDoc → Option Bool) (error : Json) (id did : String) (body : Fields)
      (db : Db tiny)
      → field_of "toId" body ≡ some (text did)
      → SendsTo accepts (some body) id db (to_receiver accepts error body id (text did) db)
  unfolding to_receiver bot_view
  to_text-SendsTo accepts error id did body db to_is = elim (Option-cases (bot_get did db)) [
    | inl h ↦ rw (h, to_receiver) tt
    | inr (r, h) ↦ elim (Option-cases (accepts r.fields)) [
      | inl e ↦ rw (h, to_receiver) (rw (e) tt)
      | inr (accepted, e) ↦ elim (Bool-cases accepted) [
        | inr f ↦ rw (h, to_receiver) (rw (e) (rw (f) tt))
        | inl f ↦
            rw (h, to_receiver)
              (rw (e) (rw (f) (did, r.fields, refl, refl, to_is, rw h refl, e ∙ ap some f)))
      ]
    ]
  ]

  to_receiver-SendsTo :
      (accepts : BotDoc → Option Bool) (error : Json) (id : String) (body : Fields) (to_id : Json)
      → (db : Db tiny) → field_of "toId" body ≡ some to_id
      → SendsTo accepts (some body) id db (to_receiver accepts error body id to_id db)
  unfolding to_receiver
  to_receiver-SendsTo accepts error id body (text did) db to_is =
      to_text-SendsTo accepts error id did body db to_is
  to_receiver-SendsTo accepts error id body nothing db to_is = tt
  to_receiver-SendsTo accepts error id body (boolean b) db to_is = tt
  to_receiver-SendsTo accepts error id body (number n) db to_is = tt
  to_receiver-SendsTo accepts error id body (array l) db to_is = tt
  to_receiver-SendsTo accepts error id body (object d) db to_is = tt

  decide-SendsTo :
      (accepts : BotDoc → Option Bool) (error : Json) (third : String) (body : Option Fields)
      → (id : String) (db : Db tiny)
      → SendsTo accepts body id db (decide accepts error third body id db)
  unfolding decide
  decide-SendsTo accepts error third none id db = tt
  decide-SendsTo accepts error third (some body) id db =
      elim (Option-cases (field_of "toId" body)) [
        | inl h ↦ rw (h, decide) (without_receiver-SendsTo accepts third id body db)
        | inr (to_id, h) ↦ elim (Bool-cases (is_text "" to_id)) [
          | inl e ↦ rw (h, decide) (rw (e) (without_receiver-SendsTo accepts third id body db))
          | inr e ↦ rw (h, decide) (rw (e) (to_receiver-SendsTo accepts error id body to_id db h))
        ]
      ]

  -- Whenever dim.py hands a command to the helper bot, it is the body of the request under the random
  -- id, and its receiver is the did of a known bot of the company "eco-ng" that is marked as connected
  -- over MQTT.
  pub handle_dim_sends :
      (body : Option Fields) (id k : String) (cmd : Fields) (db : Db tiny)
      → handle_dim_devmanager body id db ≡ sends cmd k
      → ((did : String) × (b : BotDoc) × (body ≡ some cmd)
          × (k ≡ id)
          × (field_of "toId" cmd ≡ some (text did))
          × (bot_view did db ≡ some b)
          × (b.company ≡ some "eco-ng")
          × (b.mqtt_connection ≡ some true))
  unfolding handle_dim_devmanager
  handle_dim_sends body id k cmd db h =
      let (did, b, body_is, k_is, to_is, known, accepted) =
        subst (λ d. SendsTo dim_accepts body id db d) h
          (decide-SendsTo dim_accepts (dim_error id) "ReceiveShareDevice" body id db) in
      let (company_is, connected) = dim_accepts_lem b accepted in
      (did, b, body_is, k_is, to_is, known, company_is, connected)
