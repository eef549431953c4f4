-- ===== src/Database/Modules/Listing.antt =====
-- plugin/database/module.go: the listings of modules by their type.
use baetyl_cloud.Common.{String, ◌&&◌, List, [], ◌∷◌, ◌++◌, ◌==◌, if◌then◌else◌}
use baetyl_cloud.Common.Action.{Action, pure, ◌>>=◌}
use baetyl_cloud.Models.Filter.{Filter, get_fuzzy_name}
use baetyl_cloud.Database.Modules.{Module, ModuleConn, ModuleFormat, limited, list_module_tx}

module _ (format : ModuleFormat) where
  -- listModulesByTypeTx: the latest versions of a type.
  unfoldable pub list_modules_by_type_tx : String → Filter → Action ModuleConn (List Module)
  list_modules_by_type_tx tp filter =
      list_module_tx format
        (λ r. format.like r.name (get_fuzzy_name filter) && r.module_type == tp && r.is_latest)
        (limited filter)

  -- ListModulesTx
  unfoldable pub list_modules_tx : Filter → Action ModuleConn (List Module)
  list_modules_tx filter =
      list_module_tx format (λ r. format.like r.name (get_fuzzy_name filter)) (limited filter)

  -- The listings of several types, one after the other, each with the same filter.
  abbrev list_types : List String → Filter → Action ModuleConn (List Module)
  list_types [] filter = pure []
  list_types (tp ∷ tps) filter = do
    ms ← list_modules_by_type_tx tp filter
    rest ← list_types tps filter
    pure (ms ++ rest)

  -- ListModules
  unfoldable pub list_modules : String → Filter → Action ModuleConn (List Module)
  list_modules tp filter =
      if tp == "runtime_user"
      then list_modules_by_type_tx tp filter
      else if tp == "opt_system"
      then list_types ("opt_system" ∷ "opt_system_kube" ∷ "opt_system_native" ∷ []) filter
      else if tp == "opt_system_kube"
      then list_types ("opt_system" ∷ "opt_system_kube" ∷ []) filter
      else if tp == "opt_system_native"
      then list_types ("opt_system" ∷ "opt_system_native" ∷ []) filter
      else list_modules_tx filter
