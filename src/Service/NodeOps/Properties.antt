-- ===== src/Service/NodeOps/Properties.antt =====
-- service/node.go: GetNodeProperties, UpdateNodeProperties and UpdateNodeMode.
use baetyl_cloud.Common.{ℕ, String, Option, none, some}
use baetyl_cloud.Common.Action.{Result, ok, panicked, Action, pure, lift, panic, ◌>>=◌, ◌>>◌}
use baetyl_cloud.Common.Dict.{Dict, insert}
use baetyl_cloud.Spec.{Node, Value, props, str}
use baetyl_cloud.Spec.Desire.{DesireApi}
use baetyl_cloud.Plugin.{Shadow, AppPlugin, IndexPlugin, NodePlugin, ShadowPlugin}
use baetyl_cloud.Service.NodeOps.{
  Hooks, NodeProperties, get_node_properties_meta, update_node_properties_meta, attributes_of,
  as_props, at_key, stamp, find_node,
}

abbrev pub with_props : Dict (Option String) → Option (Dict Value) → Result (Option (Dict Value))
with_props p none = panicked
with_props p (some d) = ok (some (insert "nodeprops" (props p) d))

module _ {S : Type 0} (api : DesireApi) (apps : AppPlugin S) (index : IndexPlugin S)
    (nodes : NodePlugin S) (shadows : ShadowPlugin S)
    (gen_apps : String → Node → Action S (Unit {0})) (hooks : Hooks S) (now : Action S ℕ) where
  abbrev properties_of : Node → Option Shadow → Action S NodeProperties
  properties_of n none = panic
  properties_of n (some sh) = pure (record {
    report = as_props (at_key "nodeprops" sh.report);
    desire = as_props (at_key "nodeprops" sh.desire);
    meta = get_node_properties_meta n;
  })

  -- GetNodeProperties; a shadow that is not there is dereferenced.
  unfoldable pub get_node_properties : String → String → Action S NodeProperties
  get_node_properties ns name = do
    n ← find_node api apps index nodes shadows gen_apps hooks now ns name
    sh ← shadows.get_shadow ns name
    properties_of n sh

  abbrev desire_to : String → NodeProperties → Node → Option Shadow → Action S NodeProperties
  desire_to ns p n none = panic
  desire_to ns p n (some sh) = do
    diff ← lift (api.diff_props p.desire (as_props (at_key "nodeprops" sh.desire)))
    t ← now
    let old = get_node_properties_meta n
    let meta = record old { desire_meta = stamp t diff old.desire_meta }
    desire ← lift (with_props p.desire sh.desire)
    shadows.update_desire (record sh { desire = desire })
    nodes.update_node ns (update_node_properties_meta n meta)
    pure (record {
      report = as_props (at_key "nodeprops" sh.report);
      desire = p.desire;
      meta = meta;
    })

  -- UpdateNodeProperties
  unfoldable pub update_node_properties : String → String → NodeProperties → Action S NodeProperties
  update_node_properties ns name p = do
    n ← find_node api apps index nodes shadows gen_apps hooks now ns name
    sh ← shadows.get_shadow ns name
    desire_to ns p n sh

  -- UpdateNodeMode; `key` is specV1.KeySyncMode.
  unfoldable pub update_node_mode : String → String → String → String → Action S (Unit {0})
  update_node_mode key ns name mode = do
    n ← find_node api apps index nodes shadows gen_apps hooks now ns name
    nodes.update_node ns (record n { attributes = some (insert key (str mode) (attributes_of n)) })
    pure tt
