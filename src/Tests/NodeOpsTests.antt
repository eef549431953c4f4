-- ===== src/Tests/NodeOpsTests.antt =====
-- service/node.go over a store with the database's index.
use baetyl_cloud.Common.{
  ℕ, String, true, ◌&&◌, Option, none, some, List, [], ◌∷◌, ◌==◌, if◌then◌else◌,
}
use baetyl_cloud.Common.Action.{Result, ok, err, panicked, Action, pure}
use baetyl_cloud.Common.Dict.{Dict}
use baetyl_cloud.Spec.{Value, apps, Node, props, times}
use baetyl_cloud.Plugin.{Shadow, AppPlugin, IndexPlugin, NodePlugin, ShadowPlugin}
use baetyl_cloud.Models.Shadow.{new_shadow}
use baetyl_cloud.Database.Index.{Resource, IndexStore}
use baetyl_cloud.Database.Index.Names.{CacheIsRight}
use baetyl_cloud.Database.Index.Contract.{db_index, db_related}
use baetyl_cloud.Service.NodeOps.{Hooks, create, get_node_properties_meta}
use baetyl_cloud.Service.NodeOps.Reporting.{update_report}
use baetyl_cloud.Tests.IndexTests.{empty_store}
use baetyl_cloud.Tests.DesireTests.{sample_api, web, db, info}

-- The index of the database, beside the desires of the shadows and one node.
record Edge : Type 0 where
  index : IndexStore
  desires : String → String → Option (Dict Value)
  node : Node

abbrev on_index : {A : Type 0} → Action IndexStore A → Action Edge A
on_index m s = let r = m s.index in (r.0, record s { index = r.1 })

abbrev edge_index : IndexPlugin Edge
edge_index = record {
  refresh = λ ns a b v vs. on_index (db_index.refresh ns a b v vs);
  list = λ ns a b v. on_index (db_index.list ns a b v);
}

abbrev IsRight : Edge → Type 0
IsRight s = CacheIsRight s.index.cache

abbrev edge_related : Edge → String → Resource → Resource → String → List String
edge_related s = db_related s.index

abbrev stored_times : Dict Value
stored_times = ("reportMeta", times (("power", 3) ∷ [])) ∷ ("desireMeta", times []) ∷ []

abbrev sample_node : Node
sample_node = record {
  name = "n1";
  namespace = "default";
  version = "1";
  labels = ("edge", "yes") ∷ [];
  cluster = true;
  attributes = some stored_times;
  report = none;
  desire = none;
  creation_timestamp = 0;
}

abbrev sample_apps : AppPlugin Edge
sample_apps = record {
  get_application = λ ns name v. pure web;
  create_application = λ ns a. pure a;
  update_application = λ ns a. pure a;
  delete_application = λ ns name. pure tt;
  list_application = λ ns. pure (web ∷ db ∷ []);
}

abbrev sample_nodes : NodePlugin Edge
sample_nodes = record {
  get_node = λ ns name s. (ok (record s.node { name = name }), s);
  create_node = λ ns n. pure n;
  update_node = λ ns n s. (ok (n ∷ []), record s { node = n });
  delete_node = λ ns name. pure tt;
  list_node = λ ns sel s. (ok (s.node ∷ []), s);
}

abbrev write_desire : Shadow → Edge → Edge
write_desire sh s = record s {
  desires =
      λ ns name. if sh.namespace == ns && sh.name == name then sh.desire else s.desires ns name;
}

abbrev sample_shadows : ShadowPlugin Edge
sample_shadows = record {
  get_shadow = λ ns name. pure (some (new_shadow ns name));
  list_shadow_by_names = λ ns names. pure [];
  create_shadow = λ sh s. (ok sh, write_desire sh s);
  delete_shadow = λ ns name. pure tt;
  update_desire = λ sh s. (ok tt, write_desire sh s);
  update_desires = λ shs. pure tt;
  update_report = λ sh. pure sh;
}

abbrev sample_gen_apps : String → Node → Action Edge (Unit {0})
sample_gen_apps ns n = pure tt

abbrev sample_hooks : Hooks Edge
sample_hooks = record { check_resource_dependency = none; delete_core_ext_resource = none }

abbrev sample_now : Action Edge ℕ
sample_now = pure 7

abbrev start : Edge
start = record { index = empty_store; desires = λ ns name. none; node = sample_node }

abbrev sample_create : Result Node × Edge
sample_create =
    create sample_api sample_apps edge_index sample_nodes sample_shadows sample_gen_apps
      sample_hooks sample_now "default" sample_node start

abbrev created_node : Node
created_node = record sample_node {
  desire = some (("apps", apps (info "web" "2" ∷ [])) ∷ ("sysapps", apps []) ∷ []);
}

abbrev stored_times_of : Edge → Dict ℕ
stored_times_of s = (get_node_properties_meta s.node).report_meta

abbrev some_report : Option (Dict Value)
some_report = some (("nodeprops", props (("power", some "on") ∷ [])) ∷ [])

abbrev reported : Result Shadow × Edge
reported =
    update_report sample_api sample_apps edge_index sample_nodes sample_shadows sample_gen_apps
      sample_hooks sample_now "default" "n1" some_report start

abbrev shadow_of : Result Shadow → Shadow
shadow_of (ok sh) = sh
shadow_of (err e) = new_shadow "" ""
shadow_of panicked = new_shadow "" ""
