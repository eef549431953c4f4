-- ===== src/Facade/Indexing.antt =====
-- facade/application.go: CreateApp keeps the index of nodes in step with their desires.
use baetyl_cloud.Common.{String, ◌≡◌, List}
use baetyl_cloud.Common.Action.{ok, Action}
use baetyl_cloud.Spec.{Application}
use baetyl_cloud.Facade.{TransactionFactory, Services}

module _ {S : Type 0} (factory : TransactionFactory S) (services : Services S)
    (related : S → String → String → List String)
    (refreshed : (ns name : String) (nodes : List String) (s t : S)
      → services.refresh_nodes_index_by_app ns name nodes s ≡ (ok tt, t)
      → related t ns name ≡ nodes)
    (committed : (s : S) → related (factory.commit s) ≡ related s) where
  -- The index names for the application the nodes whose desires were given it.
  pub record Indexed (ns : String) (made : Application) (t : S) : Type 0 where
    pub nodes : List String
    pub before : S
    pub then_state : S
    pub desired : services.update_node_app_version ns made before ≡ (ok nodes, then_state)
    pub indexed : related t ns made.name ≡ nodes
