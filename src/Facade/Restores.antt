-- ===== src/Facade/Restores.antt =====
-- facade/application.go: what CreateApp and DeleteApp leave behind. The cron is written outside the
-- transaction (plugin/database/cron.go executes without one), all else inside.
use baetyl_cloud.Common.{String, ◌≡◌, Option, List, []}
use baetyl_cloud.Common.Action.{Action, pure, ◌>>=◌, ◌>>◌}
use baetyl_cloud.Spec.{Application, Configuration}
use baetyl_cloud.Facade.{Cron, TransactionFactory, Services}
use baetyl_cloud.Facade.Apps.{
  update_node_and_app_index, delete_node_and_app_index, clean_gen_configs,
}
use baetyl_cloud.Facade.Transactions.{Preserves}

-- A part of the store that none of the services but those of crons changes.
pub record ServicesPreserve {S D : Type 0} (services : Services S) (part : S → D) : Type 0 where
  pub app_create_with_base :
      (ns : String) (app : Application) (base : Option Application)
      → Preserves part (services.app_create_with_base ns app base)
  pub app_delete : (ns name : String) → Preserves part (services.app_delete ns name)
  pub update_node_app_version :
      (ns : String) (app : Application) → Preserves part (services.update_node_app_version ns app)
  pub delete_node_app_version :
      (ns : String) (app : Application) → Preserves part (services.delete_node_app_version ns app)
  pub refresh_nodes_index_by_app :
      (ns name : String) (nodes : List String)
      → Preserves part (services.refresh_nodes_index_by_app ns name nodes)
  pub config_upsert :
      (ns : String) (c : Configuration) → Preserves part (services.config_upsert ns c)
  pub config_delete : (ns name : String) → Preserves part (services.config_delete ns name)

-- The crons stand beside the transaction: neither its begin nor its end changes them, and they
-- change nothing of what it will roll back to.
pub record CronLaws {S D K : Type 0} (factory : TransactionFactory S) (services : Services S)
    (saved : S → D) (crons : S → K) : Type 0 where
  pub commit_keeps : (s : S) → crons (factory.commit s) ≡ crons s
  pub rollback_keeps : (s : S) → crons (factory.rollback s) ≡ crons s
  pub create_cron_beside : (c : Cron) → Preserves saved (services.create_cron c)
  pub delete_cron_beside : (name ns : String) → Preserves saved (services.delete_cron name ns)

module _ {S D : Type 0} (factory : TransactionFactory S) (services : Services S) (saved : S → D)
    (keeps : ServicesPreserve services saved) where
  -- What is left of CreateApp when the cron is made.
  abbrev making : String → Option Application → Application → Action S Application
  making ns base waiting = services.app_create_with_base ns waiting base >>= λ made.
      update_node_and_app_index factory services ns made >> pure made

  -- What is left of DeleteApp when the cron is gone.
  abbrev unmaking : String → String → Application → Action S (Unit {0})
  unmaking ns name app =
      services.app_delete ns name
      >> (delete_node_and_app_index factory services ns app
          >> clean_gen_configs factory services [] app)
