-- ===== src/Web/Plugins/Appsvr/Status.antt =====
-- The status of a device in the answer of bumper/web/plugins/api/appsvr.py.
use bumper.Prelude.{
  ℕ, ◌≡◌, refl, String, ◌==◌, Bool, true, false, ◌||◌, Option, some, List, [], ◌∷◌, if◌then◌else◌,
  none, ◌++◌, inl, inr, Bool-cases, Option-cases, All, all_nil, all_cons, is_some, arith,
}
use bumper.Db.Documents.{BotDoc}
use bumper.Json.{text, Json, Fields, number, fields, field_of, set_field}
use bumper.Json.Laws.{field_of-set_field}
use bumper.Web.Plugins.{text_entry, flag_entry, bot_entries}
use bumper.Web.Plugins.Appsvr.{
  Product, product_keys, copy_keys, category, flagged, any_session, status_of, with_product,
  include_product_iot_map_info,
}

flagged_lem :
    (b : BotDoc) (mqtt xmpp : Bool)
    → b.mqtt_connection ≡ some mqtt
    → b.xmpp_connection ≡ some xmpp
    → flagged b ≡ some (mqtt || xmpp)
unfolding flagged
flagged_lem b true xmpp m x = rw (m, flagged) refl
flagged_lem b false xmpp m x = rw (m, x, flagged) refl

or_status :
    (a b : Bool)
    → Path (Option ℕ) (some (if b then 1 else if a then 1 else 0)) (some (if a || b then 1 else 0))
or_status true true = refl
or_status true false = refl
or_status false true = refl
or_status false false = refl

status_lem :
    (b : BotDoc) (sessions : List (String × String)) (did : String) (on : Bool)
    → b.did ≡ some did
    → status_of b sessions (if on then 1 else 0)
      ≡ some (if on || any_session did sessions then 1 else 0)
unfolding status_of any_session
status_lem b [] did true h = refl
status_lem b [] did false h = refl
status_lem b (session ∷ rest) did on h =
    rw (h, status_of) (or_status on (any_session did (session ∷ rest)))

-- A product of the map that has the keys that are copied, and a text as its name.
pub record HasKeys (product : Fields) : Type 0 where
  pub copied : All (λ (k : String × String). is_some (field_of k.1 product) ≡ true) product_keys
  pub name : String
  pub name_is : field_of "name" product ≡ some (text name)

-- Whether a product of the map has the class.
unfoldable pub is_in_map : String → List Product → Bool
is_in_map bot_class [] = false
is_in_map bot_class (p ∷ rest) = p.classid == bot_class || is_in_map bot_class rest

copy_keys_lem :
    (keys : List (String × String)) (product device : Fields)
    → All (λ (k : String × String). is_some (field_of k.1 product) ≡ true) keys
    → ((copied : Fields) × (copy_keys keys product device ≡ some copied))
unfolding copy_keys
copy_keys_lem [] product device all_nil = (device, refl)
copy_keys_lem ((to, from) ∷ l) product device (all_cons there rest) =
    elim (Option-cases (field_of from product)) [
      | inl missing ↦ absurd (ground (arith, missing))
      | inr (v, h) ↦ rw (h, copy_keys) (copy_keys_lem l product (set_field to v device) rest)
    ]

category_lem :
    (product : Fields) (name : String)
    → field_of "name" product ≡ some (text name)
    → ((kind : Json) × (category product ≡ some kind))
unfolding category
category_lem product name h = rw (h, category) (_, refl)

-- The status of a device for a product that has the keys.
with_product_lem :
    (sessions : List (String × String)) (b : BotDoc) (product device : Fields) (did : String)
    (mqtt xmpp : Bool)
    → b.did ≡ some did
    → b.mqtt_connection ≡ some mqtt
    → b.xmpp_connection ≡ some xmpp
    → HasKeys product
    → ((after : Fields) × (with_product sessions b product device ≡ some after)
        × (field_of "status" after
            ≡ some (number (if (mqtt || xmpp) || any_session did sessions then 1 else 0))))
unfolding with_product
with_product_lem sessions b product device did mqtt xmpp did_is mqtt_is xmpp_is keys =
    let (copied, copied_is) = copy_keys_lem product_keys product device keys.copied in
    let (kind, kind_is) = category_lem product keys.name keys.name_is in
    let on = number (if (mqtt || xmpp) || any_session did sessions then 1 else 0) in
    (
      set_field "status" on (set_field "product_category" kind copied),
      rw (copied_is, with_product)
          (rw (kind_is) (
            rw (flagged_lem b mqtt xmpp mqtt_is xmpp_is)
              (rw (status_lem b sessions did (mqtt || xmpp) did_is) refl))),
      field_of-set_field "status" on (set_field "product_category" kind copied),
    )

HasNoStatus : List (String × Json) → Type 0
HasNoStatus l = field_of "status" (fields l) ≡ none

HasNoStatus-append :
    (l m : List (String × Json)) → HasNoStatus l → HasNoStatus m → HasNoStatus (l ++ m)
unfolding HasNoStatus fields field_of
HasNoStatus-append [] m h g = g
HasNoStatus-append ((k, v) ∷ l) m h g = elim (Bool-cases (k == "status")) [
  | inl e ↦ absurd (found (rw e at h))
  | inr e ↦ rw (e) (HasNoStatus-append l m (rw e at h) g)
]
  where
    found : {v : Json} → some v ≡ none → ⊥
    found h = cc

text_entry-HasNoStatus :
    (k : String) (o : Option String) → (k == "status") ≡ false → HasNoStatus (text_entry k o)
unfolding HasNoStatus fields field_of
text_entry-HasNoStatus k none other = refl
text_entry-HasNoStatus k (some s) other = rw (other) refl

flag_entry-HasNoStatus :
    (k : String) (o : Option Bool) → (k == "status") ≡ false → HasNoStatus (flag_entry k o)
unfolding HasNoStatus fields field_of
flag_entry-HasNoStatus k none other = refl
flag_entry-HasNoStatus k (some b) other = rw (other) refl

-- A stored bot has no status.
bot_entries-HasNoStatus : (b : BotDoc) → HasNoStatus (bot_entries b)
unfolding bot_entries
bot_entries-HasNoStatus b =
    HasNoStatus-append _ _
      (HasNoStatus-append _ _
        (HasNoStatus-append _ _
          (HasNoStatus-append _ _
            (HasNoStatus-append _ _
              (HasNoStatus-append _ _
                (HasNoStatus-append _ _ (text_entry-HasNoStatus "class" b.bot_class refl)
                  (text_entry-HasNoStatus "company" b.company refl))
                (text_entry-HasNoStatus "did" b.did refl))
              (text_entry-HasNoStatus "name" b.name refl))
            (text_entry-HasNoStatus "nick" b.nick refl))
          (text_entry-HasNoStatus "resource" b.resource refl))
        (flag_entry-HasNoStatus "mqtt_connection" b.mqtt_connection refl))
      (flag_entry-HasNoStatus "xmpp_connection" b.xmpp_connection refl)

-- A bot with a class, a did and both flags, where each product of the map has the keys that are
-- copied: its device is made. If a product of the map has the class, the device has the status 1 if a
-- flag is on or a connected session of the broker has its did before the "@", else the status 0; if
-- none has, the device has no status.
pub include_product_lem :
    (products : List Product) (sessions : List (String × String)) (b : BotDoc)
    (bot_class did : String) (mqtt xmpp : Bool)
    → b.bot_class ≡ some bot_class
    → b.did ≡ some did
    → b.mqtt_connection ≡ some mqtt
    → b.xmpp_connection ≡ some xmpp
    → All (λ p. HasKeys p.product) products
    → ((device : Fields) × (include_product_iot_map_info products sessions b ≡ some device)
        × (field_of "status" device ≡ (
            if is_in_map bot_class products
            then some (number (if (mqtt || xmpp) || any_session did sessions then 1 else 0))
            else none)))
unfolding include_product_iot_map_info is_in_map HasNoStatus
include_product_lem [] sessions b bot_class did mqtt xmpp class_is did_is mqtt_is xmpp_is all_nil =
    (fields (bot_entries b), refl, bot_entries-HasNoStatus b)
include_product_lem (p ∷ rest) sessions b bot_class did mqtt xmpp class_is did_is mqtt_is xmpp_is
      (all_cons keys more) =
    let later =
      include_product_lem rest sessions b bot_class did mqtt xmpp class_is did_is mqtt_is xmpp_is
        more in
    elim (Bool-cases (p.classid == bot_class)) [
      | inl listed ↦
          rw (class_is, include_product_iot_map_info)
            (rw (listed) (
              with_product_lem sessions b p.product (fields (bot_entries b)) did mqtt xmpp did_is
                mqtt_is xmpp_is keys))
      | inr other ↦ rw (class_is, include_product_iot_map_info) (rw (other) later)
    ]
