-- ===== src/Service/Index.antt =====
-- service/index.go, over any index plugin.
use baetyl_cloud.Common.{String, List}
use baetyl_cloud.Common.Action.{Action}
use baetyl_cloud.Database.Index.{application, config, secret, node}
use baetyl_cloud.Plugin.{IndexPlugin}

module _ {S : Type 0} (index : IndexPlugin S) where
  unfoldable pub refresh_app_index_by_config : String → String → List String → Action S (Unit {0})
  refresh_app_index_by_config ns c apps = index.refresh ns config application c apps

  unfoldable pub refresh_config_index_by_app : String → String → List String → Action S (Unit {0})
  refresh_config_index_by_app ns app configs = index.refresh ns application config app configs

  unfoldable pub list_app_index_by_config : String → String → Action S (List String)
  list_app_index_by_config ns c = index.list ns application config c

  unfoldable pub list_config_index_by_app : String → String → Action S (List String)
  list_config_index_by_app ns app = index.list ns config application app

  unfoldable pub refresh_nodes_index_by_app : String → String → List String → Action S (Unit {0})
  refresh_nodes_index_by_app ns app nodes = index.refresh ns application node app nodes

  unfoldable pub refresh_apps_index_by_node : String → String → List String → Action S (Unit {0})
  refresh_apps_index_by_node ns n apps = index.refresh ns node application n apps

  unfoldable pub list_nodes_by_app : String → String → Action S (List String)
  list_nodes_by_app ns app = index.list ns node application app

  unfoldable pub list_apps_by_node : String → String → Action S (List String)
  list_apps_by_node ns n = index.list ns application node n

  unfoldable pub refresh_secret_index_by_app : String → String → List String → Action S (Unit {0})
  refresh_secret_index_by_app ns app secrets = index.refresh ns application secret app secrets

  unfoldable pub list_app_index_by_secret : String → String → Action S (List String)
  list_app_index_by_secret ns s = index.list ns application secret s

  unfoldable pub list_secret_index_by_app : String → String → Action S (List String)
  list_secret_index_by_app ns app = index.list ns secret application app
