-- ===== src/Mqtt/Vendor/Confined.antt =====
-- The name "proxyhelper" does not reach the vendor's server (bumper/mqtt/proxy.py,
-- bumper/mqtt/server.py).
pub mod Steps
pub mod Runs
use bumper.Prelude.{
  ◌≡◌, ◌≢◌, ◌⊎◌, subst, some_inj, refl, sym, ap, ◌∙◌, String, ◌==◌, true, false, none, some, inl,
  inr, Bool-cases, if◌then◌else◌, List, [], ◌∷◌, ◌++◌, Option, Option-cases, All, all_nil, all_cons,
  All-snoc,
}
use bumper.Prelude.Exec.{Exec, Result, ok, err, need, index_error, ◌>>=◌}
use bumper.Prelude.Exec.Keeps.{Keeps, bind-Keeps, need-Keeps, if_Keeps, pure-Keeps}
use bumper.Prelude.Text.{split, join}
use bumper.Prelude.Text.Split.{has_code}
use bumper.Mqtt.{Proxy}
use bumper.Mqtt.Sessions.{set_entry}
use bumper.Mqtt.Messages.{set_item, remove_entry, find_proxy, converted}
use bumper.Mqtt.Vendor.{mapped, handle_parts, handle_message}
use bumper.Mqtt.Vendor.Entries.{split_replaced, part_free, item-set_item}
use bumper.Xmpp.Auth.{item, or_empty}
use bumper.Xmpp.Xml.{lookup}

-- A topic that names "proxyhelper" neither as its sender nor as its receiver
abbrev pub IsVendorTopic : String → Type 0
IsVendorTopic topic =
    ((or_empty (item 3 (split b'/' topic)) == "proxyhelper") ≡ false)
    × ((or_empty (item 6 (split b'/' topic)) == "proxyhelper") ≡ false)

-- A name that is a part of a topic, and not "proxyhelper"
abbrev pub IsName : String → Type 0
IsName x = ((x == "proxyhelper") ≡ false) × (has_code b'/' x ≡ false)

-- The names in a proxy's mapper, and the topics that it has published
pub record IsConfined (proxy : Proxy) : Type 0 where
  pub names : All (λ (e : String × String). IsName e.1) proxy.request_mapper
  pub topics_published : All (λ (e : String × String). IsVendorTopic e.0) proxy.published

abbrev pub AreConfined : List (String × Proxy) → Type 0
AreConfined proxies = All (λ (e : String × Proxy). IsConfined e.1) proxies

pub All-set_entry :
    {A : Type 0} (P : A → Type 0) (k : String) (v : A) (l : List (String × A))
    → All (λ (e : String × A). P e.1) l
    → P v
    → All (λ (e : String × A). P e.1) (set_entry k v l)
unfolding set_entry
All-set_entry P k v [] all_nil h = all_cons h all_nil
All-set_entry P k v ((j, w) ∷ l) (all_cons p rest) h = elim (Bool-cases (j == k)) [
  | inl e ↦ rw (e) (all_cons h rest)
  | inr e ↦ rw (e) (all_cons p (All-set_entry P k v l rest h))
]

pub All-remove_entry :
    {A : Type 0} (P : A → Type 0) (k : String) (l : List (String × A))
    → All (λ (e : String × A). P e.1) l
    → All (λ (e : String × A). P e.1) (remove_entry k l)
unfolding remove_entry
All-remove_entry P k [] all_nil = all_nil
All-remove_entry P k ((j, w) ∷ l) (all_cons p rest) = elim (Bool-cases (j == k)) [
  | inl e ↦ rw (e) (All-remove_entry P k l rest)
  | inr e ↦ rw (e) (all_cons p (All-remove_entry P k l rest))
]

pub lookup-all :
    (P : String → Type 0) (k v : String) (l : List (String × String))
    → All (λ (e : String × String). P e.1) l
    → lookup k l ≡ some v
    → P v
unfolding lookup
lookup-all P k v [] all_nil h = cc
lookup-all P k v ((j, w) ∷ l) (all_cons p rest) h = elim (Bool-cases (j == k)) [
  | inl e ↦ subst P (some_inj (sym (found e) ∙ h)) p
  | inr e ↦ lookup-all P k v l rest (sym (missed e) ∙ h)
]
  where
    found : (j == k) ≡ true → lookup k ((j, w) ∷ l) ≡ some w
    found e = rw (e, lookup) refl

    missed : (j == k) ≡ false → lookup k ((j, w) ∷ l) ≡ lookup k l
    missed e = rw (e, lookup) refl

pub find_proxy-all :
    (k : String) (proxy : Proxy) (l : List (String × Proxy))
    → AreConfined l
    → find_proxy k l ≡ some proxy
    → IsConfined proxy
find_proxy-all k proxy [] all_nil h = cc
find_proxy-all k proxy ((j, q) ∷ l) (all_cons p rest) h = elim (Bool-cases (j == k)) [
  | inl e ↦ subst IsConfined (some_inj (sym (found e) ∙ h)) p
  | inr e ↦ find_proxy-all k proxy l rest (sym (missed e) ∙ h)
]
  where
    found : (j == k) ≡ true → find_proxy k ((j, q) ∷ l) ≡ some q
    found e = rw (e) refl

    missed : (j == k) ≡ false → find_proxy k ((j, q) ∷ l) ≡ find_proxy k l
    missed e = rw (e) refl

-- The receiver of an answer is the name that was kept.
pub converted_topic :
    (parts : List String) (topic request : String) (proxy : Proxy)
    → IsConfined proxy
    → ((converted parts topic request proxy).0 ≡ none)
      ⊎ ((client : String) × IsName client
          × ((converted parts topic request proxy).0 ≡ some (join (set_item 6 client parts))))
unfolding converted
converted_topic parts topic request proxy confined =
    elim (Option-cases (lookup request proxy.request_mapper)) [
      | inl h ↦ inl (rw (h, converted) refl)
      | inr (client, h) ↦ elim (Bool-cases (client == "")) [
        | inl e ↦ inl (rw (h, converted) (rw (e) refl))
        | inr e ↦ inr (
          client,
          lookup-all IsName request client proxy.request_mapper confined.names h,
          rw (h, converted) (rw (e) refl),
        )
      ]
    ]

pub converted-IsConfined :
    (parts : List String) (topic request : String) (proxy : Proxy)
    → IsConfined proxy
    → IsConfined (converted parts topic request proxy).1
unfolding converted
converted-IsConfined parts topic request proxy confined = record {
  names = All-remove_entry IsName request proxy.request_mapper confined.names;
  topics_published = confined.topics_published;
}

pub item-set_item_other : (x : String) (l : List String) → item 3 (set_item 6 x l) ≡ item 3 l
unfolding set_item
item-set_item_other x [] = refl
item-set_item_other x (a ∷ []) = refl
item-set_item_other x (a ∷ b ∷ []) = refl
item-set_item_other x (a ∷ b ∷ c ∷ []) = refl
item-set_item_other x (a ∷ b ∷ c ∷ d ∷ l) = refl

true-false : true ≢ false
true-false h = cc

pub converted-IsVendorTopic :
    (topic client : String)
    → IsName client
    → ((or_empty (item 3 (split b'/' topic)) == "proxyhelper") ≡ false)
    → ((or_empty (item 6 (split b'/' topic)) == "proxyhelper") ≡ true)
    → IsVendorTopic (join (set_item 6 client (split b'/' topic)))
converted-IsVendorTopic topic client (other, free) sender receiver =
    elim (Option-cases (item 6 (split b'/' topic))) [
      | inl h ↦ elim (true-false (sym receiver ∙ missing h)) [ ]
      | inr (x, h) ↦
          rw (split_replaced 6 client topic free, item-set_item 6 client x (split b'/' topic) h)
            (rw (item-set_item_other client (split b'/' topic)) (sender, other))
    ]
  where
    missing :
        item 6 (split b'/' topic) ≡ none
        → (or_empty (item 6 (split b'/' topic)) == "proxyhelper") ≡ false
    missing h = rw h refl

mapped-IsConfined :
    (parts : List String) (sender message : String)
    → has_code b'/' sender ≡ false
    → Keeps IsConfined (mapped parts sender message)
unfolding Keeps mapped
mapped-IsConfined parts sender message free proxy confined =
    elim (Bool-cases (sender == "proxyhelper")) [
      | inl e ↦ rw (e, mapped) confined
      | inr e ↦ elim (Option-cases (item 10 parts)) [
        | inl h ↦ rw (e, mapped) (rw (h) confined)
        | inr (request, h) ↦
            rw (e, mapped)
              (rw (h) (record {
                names =
                    All-set_entry IsName request sender proxy.request_mapper confined.names
                      (e, free);
                topics_published = confined.topics_published;
              }))
      ]
    ]

requested-IsConfined :
    (topic message : String)
    → Keeps IsConfined (do
      sender ← need index_error (item 3 (split b'/' topic))
      mapped (split b'/' topic) sender message)
unfolding Keeps
requested-IsConfined topic message proxy confined =
    elim (Option-cases (item 3 (split b'/' topic))) [
      | inl h ↦ rw h confined
      | inr (sender, h) ↦ rw h (
          mapped-IsConfined (split b'/' topic) sender message (part_free 3 sender topic h) proxy
            confined)
    ]

pub handle_message-IsConfined :
    (topic message : String) → Keeps IsConfined (handle_message topic message)
unfolding handle_message handle_parts
handle_message-IsConfined topic message =
    bind-Keeps IsConfined (need index_error (item 1 (split b'/' topic))) _
      (need-Keeps IsConfined index_error (item 1 (split b'/' topic)))
      (λ kind.
        if_Keeps IsConfined (kind == "p2p") _ _ (requested-IsConfined topic message)
          (pure-Keeps IsConfined (some (topic, message))))
