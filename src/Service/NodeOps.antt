-- ===== src/Service/NodeOps.antt =====
-- service/node.go: the operations of the node service that change the store.
pub mod Reporting
pub mod Reports
pub mod Matching
pub mod Properties
pub mod Stamps
use baetyl_cloud.Common.{
  ℕ, String, Bool, true, false, Option, none, some, List, [], ◌∷◌, ◌++◌, map, ◌==◌, if◌then◌else◌,
  is_some,
}
use baetyl_cloud.Common.Action.{
  Error, coded, Code, resource_not_found, Result, ok, err, panicked, Action, pure, raise, lift,
  panic, ◌>>=◌, ◌>>◌, attempt,
}
use baetyl_cloud.Common.Dict.{Dict, lookup, insert, erase}
use baetyl_cloud.Spec.{Application, Node, Value, props, times, time, other}
use baetyl_cloud.Spec.Desire.{DesireApi}
use baetyl_cloud.Database.Index.{node, application}
use baetyl_cloud.Plugin.{Shadow, AppPlugin, IndexPlugin, NodePlugin, ShadowPlugin}
use baetyl_cloud.Models.Shadow.{new_shadow, new_shadow_from_node}
use baetyl_cloud.Service.Index.{refresh_apps_index_by_node}
use baetyl_cloud.Service.App.{is_not_found}
use baetyl_cloud.Service.Node.{
  rematch_applications_for_node, refresh_node_desire_by_app, delete_node_desire_by_app,
}

-- The two hooks of Delete, where they are set.
pub record Hooks (S : Type 0) : Type 0 where
  pub check_resource_dependency : Option (String → String → Action S (Unit {0}))
  pub delete_core_ext_resource : Option (String → Node → Action S (Unit {0}))

-- models.NodePropertiesMetadata
pub record NodePropertiesMeta : Type 0 where
  pub report_meta : Dict ℕ
  pub desire_meta : Dict ℕ

-- models.NodeProperties, its state and its metadata.
pub record NodeProperties : Type 0 where
  pub report : Dict (Option String)
  pub desire : Dict (Option String)
  pub meta : NodePropertiesMeta

abbrev as_times : Option Value → Dict ℕ
as_times (some (times m)) = m
as_times _ = []

abbrev pub as_props : Option Value → Dict (Option String)
as_props (some (props m)) = m
as_props _ = []

abbrev pub at_key : String → Option (Dict Value) → Option Value
at_key k none = none
at_key k (some d) = lookup k d

-- getNodePropertiesMeta
unfoldable pub get_node_properties_meta : Node → NodePropertiesMeta
get_node_properties_meta n = record {
  report_meta = as_times (at_key "reportMeta" n.attributes);
  desire_meta = as_times (at_key "desireMeta" n.attributes);
}

abbrev pub attributes_of : Node → Dict Value
attributes_of n = elim n.attributes [ none ↦ [] | some d ↦ d ]

-- updateNodePropertiesMeta
unfoldable pub update_node_properties_meta : Node → NodePropertiesMeta → Node
update_node_properties_meta n meta = record n {
  attributes = some (
      insert "desireMeta" (times meta.desire_meta)
        (insert "reportMeta" (times meta.report_meta) (attributes_of n)));
}

-- The loops over a difference: a time for a value, none for nil.
unfoldable pub stamp : ℕ → Dict (Option String) → Dict ℕ → Dict ℕ
stamp now [] meta = meta
stamp now ((key, some v) ∷ diff) meta = stamp now diff (insert key now meta)
stamp now ((key, none) ∷ diff) meta = stamp now diff (erase key meta)

abbrev not_found : String → Error
not_found name = coded resource_not_found (("type", "node") ∷ ("name", name) ∷ [])

abbrev with_shadow : Node → Option Shadow → Node
with_shadow n none = n
with_shadow n (some sh) = record n { report = sh.report; desire = sh.desire }

module _ {S : Type 0} (api : DesireApi) (apps : AppPlugin S) (index : IndexPlugin S)
    (nodes : NodePlugin S) (shadows : ShadowPlugin S)
    (gen_apps : String → Node → Action S (Unit {0})) (hooks : Hooks S) (now : Action S ℕ) where
  -- GetNode with the error that the service gives for a missing node.
  abbrev pub find_node : String → String → Action S Node
  find_node ns name =
      attempt (nodes.get_node ns name) pure
        λ e. if is_not_found e then raise (not_found name) else raise e

  -- Get
  unfoldable pub get : String → String → Action S Node
  get ns name = do n ← find_node ns name; sh ← shadows.get_shadow ns name; pure (with_shadow n sh)

  abbrev merged : Option (Dict Value) → Dict Value → Result (Dict Value)
  merged none desire = ok desire
  merged (some d) desire = api.merge d desire

  -- updateDesire; a shadow that is not there is dereferenced.
  unfoldable pub update_desire_of : Option Shadow → Dict Value → Action S (Unit {0})
  update_desire_of none desire = panic
  update_desire_of (some sh) desire = do
    d ← lift (merged sh.desire desire)
    shadows.update_desire (record sh { desire = some d })

  abbrev store_desire : Bool → Option Shadow → Dict Value → Action S (Unit {0})
  store_desire false sh desire = update_desire_of sh desire
  store_desire true none desire = panic
  store_desire true (some sh) desire = do
    shadows.create_shadow (record sh { desire = some desire })
    pure tt

  -- InsertOrUpdateNodeAndAppIndex; the node's desire is set in place.
  unfoldable pub insert_or_update_node_and_app_index :
      String → Node → Option Shadow → Bool → Action S Node
  insert_or_update_node_and_app_index ns n sh flag = do
    all ← apps.list_application ns
    let m = rematch_applications_for_node api all n.labels
    store_desire flag sh m.0
    refresh_apps_index_by_node index ns n.name m.1
    pure (record n { desire = some m.0 })

  -- Create
  unfoldable pub create : String → Node → Action S Node
  create ns n = do
    res ← nodes.create_node ns n
    gen_apps ns n
    insert_or_update_node_and_app_index ns res (some (new_shadow_from_node res)) true

  abbrev updated : String → Node → List Node → Action S (Option Node)
  updated ns n [] = pure none
  updated ns n (res ∷ more) = do
    sh ← shadows.get_shadow ns n.name
    refresh_apps_index_by_node index ns res.name []
    r ← insert_or_update_node_and_app_index ns res sh false
    pure (some r)

  -- Update; a plugin that updates nothing gives a nil node and no error.
  unfoldable pub update : String → Node → Action S (Option Node)
  update ns n = do list ← nodes.update_node ns n; updated ns n list

  abbrev run_check :
      Option (String → String → Action S (Unit {0})) → String → String → Action S (Unit {0})
  run_check none ns name = pure tt
  run_check (some check) ns name = check ns name

  abbrev run_delete :
      Option (String → Node → Action S (Unit {0})) → String → Node → Action S (Unit {0})
  run_delete none ns n = pure tt
  run_delete (some delete) ns n = delete ns n

  -- Delete; errors of the shadow and of the index are logged only.
  unfoldable pub delete : String → Node → Action S (Unit {0})
  delete ns n = do
    run_check hooks.check_resource_dependency ns n.name
    run_delete hooks.delete_core_ext_resource ns n
    nodes.delete_node ns n.name
    attempt (shadows.delete_shadow ns n.name) pure (λ e. pure tt)
    attempt (refresh_apps_index_by_node index ns n.name []) pure (λ e. pure tt)

  -- UpdateDesire
  unfoldable pub update_desire :
      String → List String → Application → (Shadow → Application → Shadow) → Action S (Unit {0})
  update_desire ns names app f = do
    found ← shadows.list_shadow_by_names ns names
    shadows.update_desires (map (λ sh. f sh app) found)

  abbrev change_nodes :
      String → Application → (Shadow → Application → Shadow) → Action S (List String)
  change_nodes ns app f = if app.selector == "" then pure [] else do
    found ← nodes.list_node ns app.selector
    update_desire ns (map (λ (n : Node). n.name) found) app f
    pure (map (λ (n : Node). n.name) found)

  -- UpdateNodeAppVersion
  unfoldable pub update_node_app_version : String → Application → Action S (List String)
  update_node_app_version ns app = change_nodes ns app (refresh_node_desire_by_app api)

  -- DeleteNodeAppVersion
  unfoldable pub delete_node_app_version : String → Application → Action S (List String)
  delete_node_app_version ns app = change_nodes ns app (delete_node_desire_by_app api)
