-- ===== src/Web/Plugins/Product.antt =====
-- bumper/web/plugins/api/pim/product.py: the configurations of products.
pub mod Batch
use bumper.Prelude.{ℕ, String, ◌==◌, Option, none, some, List, [], ◌∷◌, ◌++◌, if◌then◌else◌}
use bumper.Json.{Json, text, number, array, object, fields, items}

-- The entries of the configuration file that have the product id, in their order
unfoldable pub configs_of : String → List (String × Json) → List Json
configs_of pid [] = []
configs_of pid ((k, config) ∷ rest) =
    let more = configs_of pid rest in if pid == k then config ∷ more else more

-- `{"cfg": {}, "pid": pid}`
abbrev pub no_config : String → Json
no_config pid = object (fields (("cfg", object (fields [])) ∷ ("pid", text pid) ∷ []))

-- The loop of `_handle_product_config_batch`; its `continue` goes on with the inner loop.
unfoldable pub batch_data : List (String × Json) → List String → List Json
unfolding configs_of
batch_data file [] = []
batch_data file (pid ∷ rest) = configs_of pid file ++ no_config pid ∷ batch_data file rest

-- From the file and the ids of the request
unfoldable pub handle_product_config_batch : List (String × Json) → List String → Json
unfolding batch_data
handle_product_config_batch file pids = object (
    fields (
      ("code", number 200)
      ∷ ("data", array (items (batch_data file pids)))
      ∷ ("message", text "success")
      ∷ []))
