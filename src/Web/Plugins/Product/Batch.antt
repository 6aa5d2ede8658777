-- ===== src/Web/Plugins/Product/Batch.antt =====
-- The configurations that bumper/web/plugins/api/pim/product.py answers, and those that its comment
-- promises.
use mathlib.Core.List.{Perm, perm_middle}
use mathlib.Core.List.Perm
use bumper.Prelude.{
  ◌≡◌, refl, String, ◌==◌, Bool, true, false, ◌||◌, List, [], ◌∷◌, ◌++◌, map, if◌then◌else◌, inl,
  inr, Bool-cases, append_assoc,
}
use bumper.Json.{Json, text, object, fields}
use bumper.Web.Plugins.Product.{configs_of, batch_data}

-- Whether the file has a configuration for the id.
unfoldable pub is_known : List (String × Json) → String → Bool
is_known [] pid = false
is_known ((k, config) ∷ rest) pid = pid == k || is_known rest pid

abbrev pub empty_config : String → Json
empty_config pid = object (fields (("cfg", object (fields [])) ∷ ("pid", text pid) ∷ []))

-- What the comment says: the empty configuration for an id that is not found.
unfoldable pub intended : List (String × Json) → List String → List Json
unfolding is_known
intended file [] = []
intended file (pid ∷ rest) =
    (if is_known file pid then configs_of pid file else empty_config pid ∷ []) ++ intended file rest

-- The ids that the file has
unfoldable pub known_ids : List (String × Json) → List String → List String
unfolding is_known
known_ids file [] = []
known_ids file (pid ∷ rest) =
    let more = known_ids file rest in if is_known file pid then pid ∷ more else more

no_configs :
    (file : List (String × Json)) (pid : String)
    → is_known file pid ≡ false
    → configs_of pid file ≡ []
unfolding is_known configs_of
no_configs [] pid h = refl
no_configs ((k, config) ∷ rest) pid h = elim (Bool-cases (pid == k)) [
  | inl e ↦ absurd (true-false (rw e at h))
  | inr e ↦ rw (e) (no_configs rest pid (rw e at h))
]
  where
    true-false : true ≡ false → ⊥
    true-false h = cc

-- The answer consists of the configurations that the comment describes and, for each id that the file
-- has, the empty configuration besides; only the order may differ.
pub batch_data_lem :
    (file : List (String × Json)) (pids : List String)
    → Perm (batch_data file pids) (intended file pids ++ map empty_config (known_ids file pids))
unfolding batch_data intended known_ids
batch_data_lem file [] = Perm.refl []
batch_data_lem file (pid ∷ rest) =
    let more = batch_data_lem file rest in
    elim (Bool-cases (is_known file pid)) [
      | inr e ↦ rw (e, no_configs file pid e) (Perm.cons _ more)
      | inl e ↦ rw (e) (
          rw (append_assoc (configs_of pid file) (intended file rest) _) (
            Perm.append_left (configs_of pid file) (
              Perm.trans (Perm.cons _ more) (
                Perm.symm
                  (perm_middle (intended file rest) (map empty_config (known_ids file rest)))))))
    ]
