-- ===== src/Service/NodeOps/Matching.antt =====
-- Create leaves a node related to exactly the applications that match its labels, in its shadow and
-- in the index.
use baetyl_cloud.Common.{ℕ, String, ◌≡◌, Option, some, List}
use baetyl_cloud.Common.Action.{ok, Action}
use baetyl_cloud.Common.Dict.{Dict}
use baetyl_cloud.Spec.{Application, Node, Value}
use baetyl_cloud.Spec.Desire.{DesireApi}
use baetyl_cloud.Database.Index.{Resource, application, node}
use baetyl_cloud.Plugin.{Shadow, AppPlugin, IndexPlugin, NodePlugin, ShadowPlugin}
use baetyl_cloud.Plugin.Contract.{IndexContract, Keeps}
use baetyl_cloud.Service.Node.{rematch_applications_for_node}
use baetyl_cloud.Service.NodeOps.{Hooks}

-- What the stores promise, by two readings of them: the applications of a namespace in the order of
-- a listing, and the desire that the shadow of a node holds. The other plugins leave what the
-- index plugin keeps of itself.
pub record StoreLaws {S : Type 0} (Right : S → Type 0) (apps : AppPlugin S) (index : IndexPlugin S)
    (nodes : NodePlugin S) (shadows : ShadowPlugin S)
    (gen_apps : String → Node → Action S (Unit {0})) (listed : S → String → List Application)
    (desire_of : S → String → String → Option (Dict Value)) : Type 0 where
  pub list_keeps : (ns : String) → Keeps Right (apps.list_application ns)
  pub create_node_keeps : (ns : String) (n : Node) → Keeps Right (nodes.create_node ns n)
  pub gen_apps_keeps : (ns : String) (n : Node) → Keeps Right (gen_apps ns n)
  pub create_shadow_keeps : (sh : Shadow) → Keeps Right (shadows.create_shadow sh)
  pub lists :
      (ns : String) (s : S) {all : List Application} {t : S}
      → apps.list_application ns s ≡ (ok all, t)
      → all ≡ listed t ns
  pub listed_beside_shadow :
      (sh : Shadow) (s : S) (ns : String) → listed (shadows.create_shadow sh s).1 ns ≡ listed s ns
  pub listed_beside_index :
      (ns : String) (a b : Resource) (v : String) (vs : List String) (s : S) (ns' : String)
      → listed (index.refresh ns a b v vs s).1 ns' ≡ listed s ns'
  pub stores_desire :
      (sh : Shadow) (s : S) {r : Shadow} {t : S}
      → shadows.create_shadow sh s ≡ (ok r, t)
      → desire_of t sh.namespace sh.name ≡ sh.desire
  pub desire_beside_index :
      (ns : String) (a b : Resource) (v : String) (vs : List String) (s : S) (ns' name : String)
      → desire_of (index.refresh ns a b v vs s).1 ns' name ≡ desire_of s ns' name

module _ {S : Type 0} (api : DesireApi) (apps : AppPlugin S) (index : IndexPlugin S)
    (nodes : NodePlugin S) (shadows : ShadowPlugin S)
    (gen_apps : String → Node → Action S (Unit {0})) (hooks : Hooks S) (now : Action S ℕ)
    (Right : S → Type 0) (related : S → String → Resource → Resource → String → List String)
    (listed : S → String → List Application) (desire_of : S → String → String → Option (Dict Value))
    (contract : IndexContract index Right related)
    (laws : StoreLaws Right apps index nodes shadows gen_apps listed desire_of) where
  -- The node, its stored desire and the index agree with the applications that are stored.
  pub record Matched (ns : String) (r : Node) (t : S) : Type 0 where
    pub answered : r.desire ≡ some (rematch_applications_for_node api (listed t ns) r.labels).0
    pub stored :
        desire_of t r.namespace r.name
        ≡ some (rematch_applications_for_node api (listed t ns) r.labels).0
    pub indexed :
        related t ns application node r.name
        ≡ (rematch_applications_for_node api (listed t ns) r.labels).1

  -- What is true between the shadow and the index.
  abbrev Stored : String → Node → List Application → S → Type 0
  Stored ns n all t =
      Right t
      × (listed t ns ≡ all)
      × (desire_of t n.namespace n.name ≡ some (rematch_applications_for_node api all n.labels).0)
