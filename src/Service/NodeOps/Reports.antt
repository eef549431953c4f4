-- ===== src/Service/NodeOps/Reports.antt =====
-- UpdateReport and the times of the node properties.
use baetyl_cloud.Common.{ℕ, String, ◌≡◌, Option, List, []}
use baetyl_cloud.Common.Action.{Result, ok, Action, Ensures}
use baetyl_cloud.Common.Dict.{Dict, lookup-insert}
use baetyl_cloud.Spec.{Node}
use baetyl_cloud.Spec.Desire.{DesireApi}
use baetyl_cloud.Plugin.{Shadow, AppPlugin, IndexPlugin, NodePlugin, ShadowPlugin}
use baetyl_cloud.Service.NodeOps.Reporting.{create_shadow, update_report}
use baetyl_cloud.Service.NodeOps.{
  Hooks, NodePropertiesMeta, get_node_properties_meta, update_node_properties_meta,
}

-- The times that are written are the times that are read.
pub get-update_node_properties_meta :
    (n : Node) (meta : NodePropertiesMeta)
    → get_node_properties_meta (update_node_properties_meta n meta) ≡ meta
unfolding get_node_properties_meta update_node_properties_meta
get-update_node_properties_meta n meta = simp lookup-insert

-- What the stores promise of the times of the reported properties of one node: a node that is read
-- has them, a node that is written leaves its own, and nothing else changes them.
pub record TimeLaws {S : Type 0} (nodes : NodePlugin S) (shadows : ShadowPlugin S)
    (now : Action S ℕ) (ns name : String) (times_of : S → Dict ℕ) : Type 0 where
  pub read_name : (s : S) {n : Node} {t : S} → nodes.get_node ns name s ≡ (ok n, t) → n.name ≡ name
  pub read_times :
      (s : S) {n : Node} {t : S}
      → nodes.get_node ns name s ≡ (ok n, t)
      → (get_node_properties_meta n).report_meta ≡ times_of t
  pub read_keeps : (s : S) → times_of (nodes.get_node ns name s).1 ≡ times_of s
  pub written :
      (n : Node) (s : S) {ns' : List Node} {t : S}
      → n.name ≡ name
      → nodes.update_node ns n s ≡ (ok ns', t)
      → times_of t ≡ (get_node_properties_meta n).report_meta
  pub now_keeps : (s : S) → times_of (now s).1 ≡ times_of s
  pub get_shadow_keeps : (s : S) → times_of (shadows.get_shadow ns name s).1 ≡ times_of s
  pub create_shadow_keeps :
      (sh : Shadow) (s : S) → times_of (shadows.create_shadow sh s).1 ≡ times_of s
  pub update_report_keeps :
      (sh : Shadow) (s : S) → times_of (shadows.update_report sh s).1 ≡ times_of s

module _ {S : Type 0} (api : DesireApi) (apps : AppPlugin S) (index : IndexPlugin S)
    (nodes : NodePlugin S) (shadows : ShadowPlugin S)
    (gen_apps : String → Node → Action S (Unit {0})) (hooks : Hooks S) (now : Action S ℕ)
    (ns name : String) (times_of : S → Dict ℕ) (laws : TimeLaws nodes shadows now ns name times_of)
    (same : (p : Dict (Option String)) → api.diff_props p p ≡ ok []) where
  -- An action after which the times are those of before.
  abbrev Stays : {A : Type 0} → S → Result A × S → Type 0
  Stays s r = Ensures (λ _ t. times_of t ≡ times_of s) r
