-- ===== src/Facade.antt =====
-- facade/: the operations of the API that change several resources at once.
pub mod Apps
pub mod Versions
pub mod Transactions
pub mod Restores
pub mod Indexing
use baetyl_cloud.Common.{ℕ, String, Option, List}
use baetyl_cloud.Common.Action.{Result, ok, err, panicked, Action, and_then}
use baetyl_cloud.Spec.{Application, Configuration, Secret}

-- models/cron.go
pub record Cron : Type 0 where
  pub namespace : String
  pub name : String
  pub selector : String
  pub cron_time : ℕ

-- plugin/transaction.go; neither Commit nor Rollback answers.
pub record TransactionFactory (S : Type 0) : Type 0 where
  pub begin_tx : Action S (Unit {0})
  pub commit : S → S
  pub rollback : S → S

-- The services that the facade calls.
pub record Services (S : Type 0) : Type 0 where
  pub app_get : String → String → String → Action S Application
  pub app_create_with_base : String → Application → Option Application → Action S Application
  pub app_update : String → Application → Action S Application
  pub app_delete : String → String → Action S (Unit {0})
  pub update_node_app_version : String → Application → Action S (List String)
  pub delete_node_app_version : String → Application → Action S (List String)
  pub refresh_nodes_index_by_app : String → String → List String → Action S (Unit {0})
  pub list_app_index_by_config : String → String → Action S (List String)
  pub list_app_index_by_secret : String → String → Action S (List String)
  pub config_create : String → Configuration → Action S Configuration
  pub config_update : String → Configuration → Action S Configuration
  pub config_upsert : String → Configuration → Action S Configuration
  pub config_delete : String → String → Action S (Unit {0})
  pub secret_create : String → Secret → Action S Secret
  pub secret_update : String → Secret → Action S Secret
  pub secret_delete : String → String → Action S (Unit {0})
  pub get_cron : String → String → Action S Cron
  pub create_cron : Cron → Action S (Unit {0})
  pub update_cron : Cron → Action S (Unit {0})
  pub delete_cron : String → String → Action S (Unit {0})

module _ {S A : Type 0} where
  -- The deferred function: an error or a panic rolls back, else the transaction is committed.
  abbrev pub finish : TransactionFactory S → Result A × S → Result A × S
  finish f (ok a, s) = (ok a, f.commit s)
  finish f (err e, s) = (err e, f.rollback s)
  finish f (panicked, s) = (panicked, f.rollback s)

  -- BeginTx, the body, and the deferred function.
  unfoldable pub in_tx : TransactionFactory S → Action S A → Action S A
  in_tx f body s = and_then (f.begin_tx s) (λ _ t. finish f (body t))
