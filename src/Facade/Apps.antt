-- ===== src/Facade/Apps.antt =====
-- facade/application.go
use baetyl_cloud.Common.{
  String, Bool, true, false, not, ◌&&◌, ◌||◌, Option, none, some, List, [], ◌∷◌, map, ◌==◌,
  if◌then◌else◌, mem, has_prefix,
}
use baetyl_cloud.Common.Action.{Action, pure, panic, ◌>>=◌, ◌>>◌, attempt}
use baetyl_cloud.Spec.{
  Application, Configuration, ObjectReference, Volume, CronStatus, cron_not_set, cron_wait,
  cron_finished,
}
use baetyl_cloud.Facade.{Cron, TransactionFactory, Services, in_tx}

abbrev pub is_waiting : CronStatus → Bool
is_waiting cron_not_set = false
is_waiting cron_wait = true
is_waiting cron_finished = false

abbrev pub is_not_set : CronStatus → Bool
is_not_set cron_not_set = true
is_not_set cron_wait = false
is_not_set cron_finished = false

abbrev pub cron_of : Application → Cron
cron_of app = record {
  namespace = app.namespace;
  name = app.name;
  selector = app.selector;
  cron_time = app.cron_time;
}

-- FunctionConfigPrefix and FunctionProgramConfigPrefix
unfoldable pub is_function_config : String → Bool
is_function_config name =
    has_prefix name "baetyl-function-config" || has_prefix name "baetyl-function-program-config"

-- The test of cleanGenConfigsOfFunctionApp on the name of a mounted config.
unfoldable pub is_stale : List Configuration → String → Bool
is_stale configs name =
    not (mem name (map (λ (c : Configuration). c.name) configs)) && is_function_config name

module _ {S : Type 0} (factory : TransactionFactory S) (services : Services S) where
  -- The cron is looked up by the arguments.
  abbrev with_cron : String → String → Application → Action S Application
  with_cron ns name app =
      if is_waiting app.cron_status
      then attempt (services.get_cron name ns)
          (λ (c : Cron). pure (record app { selector = c.selector })) (λ e. pure app)
      else pure app

  -- GetApp
  unfoldable pub get_app : String → String → String → Action S Application
  get_app ns name version = do app ← services.app_get ns name version; with_cron ns name app

  -- updateGenConfigsOfFunctionApp
  unfoldable pub update_gen_configs : String → List Configuration → Action S (Unit {0})
  update_gen_configs ns [] = pure tt
  update_gen_configs ns (c ∷ cs) = do services.config_upsert ns c; update_gen_configs ns cs

  -- UpdateNodeAndAppIndex
  unfoldable pub update_node_and_app_index : String → Application → Action S (Unit {0})
  update_node_and_app_index ns app = do
    nodes ← services.update_node_app_version ns app
    services.refresh_nodes_index_by_app ns app.name nodes

  -- DeleteNodeAndAppIndex
  unfoldable pub delete_node_and_app_index : String → Application → Action S (Unit {0})
  delete_node_and_app_index ns app = do
    services.delete_node_app_version ns app
    services.refresh_nodes_index_by_app ns app.name []

  abbrev pub clean_volume :
      List Configuration → String → Option ObjectReference → Action S (Unit {0})
  clean_volume configs ns none = pure tt
  clean_volume configs ns (some r) =
      if is_stale configs r.name
      then attempt (services.config_delete ns r.name) pure (λ e. pure tt)
      else pure tt

  -- The second loop of cleanGenConfigsOfFunctionApp; errors are logged only.
  unfoldable pub clean_volumes : List Configuration → String → List Volume → Action S (Unit {0})
  clean_volumes configs ns [] = pure tt
  clean_volumes configs ns (v ∷ vs) = do
    clean_volume configs ns v.config
    clean_volumes configs ns vs

  -- cleanGenConfigsOfFunctionApp
  unfoldable pub clean_gen_configs : List Configuration → Application → Action S (Unit {0})
  clean_gen_configs configs old = clean_volumes configs old.namespace old.volumes

  -- A waiting application is kept from the nodes: its selector moves into a cron.
  abbrev pub wait_with : (Cron → Action S (Unit {0})) → Application → Action S Application
  wait_with f app =
      if is_waiting app.cron_status
      then f (cron_of app) >> pure (record app { selector = "" })
      else pure app

  abbrev pub creating :
      String → Option Application → Application → List Configuration → Action S Application
  creating ns base app configs = do
    update_gen_configs ns configs
    waiting ← wait_with services.create_cron app
    made ← services.app_create_with_base ns waiting base
    update_node_and_app_index ns made
    pure made

  -- CreateApp
  unfoldable pub create_app :
      String → Option Application → Application → List Configuration → Action S Application
  create_app ns base app configs = in_tx factory (creating ns base app configs)

  abbrev pub drop_cron : String → Application → Application → Action S (Unit {0})
  drop_cron ns old app =
      if is_waiting old.cron_status && is_not_set app.cron_status
      then services.delete_cron app.name ns
      else pure tt

  abbrev pub leave_old_nodes : String → Application → Application → Action S (Unit {0})
  leave_old_nodes ns old app =
      if not (old.selector == app.selector) then delete_node_and_app_index ns old else pure tt

  abbrev pub replacing :
      String → Application → Application → List Configuration → Action S Application
  replacing ns old app configs = do
    drop_cron ns old app
    made ← services.app_update ns app
    leave_old_nodes ns old made
    update_node_and_app_index ns made
    clean_gen_configs configs old
    pure made

  -- The old application is read before the code tests whether it is nil.
  abbrev pub over_old :
      String → Option Application → Application → List Configuration → Action S Application
  over_old ns none app configs = panic
  over_old ns (some old) app configs = replacing ns old app configs

  abbrev pub updating :
      String → Option Application → Application → List Configuration → Action S Application
  updating ns old app configs = do
    update_gen_configs ns configs
    waiting ← wait_with services.update_cron app
    over_old ns old waiting configs

  -- UpdateApp
  unfoldable pub update_app :
      String → Option Application → Application → List Configuration → Action S Application
  update_app ns old app configs = in_tx factory (updating ns old app configs)

  abbrev pub end_cron : String → String → Application → Action S (Unit {0})
  end_cron ns name app =
      if is_waiting app.cron_status then services.delete_cron name ns else pure tt

  abbrev pub deleting : String → String → Application → Action S (Unit {0})
  deleting ns name app = do
    end_cron ns name app
    services.app_delete ns name
    delete_node_and_app_index ns app
    clean_gen_configs [] app

  -- DeleteApp
  unfoldable pub delete_app : String → String → Application → Action S (Unit {0})
  delete_app ns name app = in_tx factory (deleting ns name app)
