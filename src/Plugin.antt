-- ===== src/Plugin.antt =====
-- The interfaces of plugin/: what the services ask of a store `S` that they do not implement
-- themselves. A transaction handle that is only passed on is part of the store.
pub mod Contract
use baetyl_cloud.Common.{ℕ, String, Option, List}
use baetyl_cloud.Common.Action.{Action}
use baetyl_cloud.Common.Dict.{Dict}
use baetyl_cloud.Spec.{Application, Configuration, Secret, Node, Value}
use baetyl_cloud.Database.Index.{Resource}

-- plugin/configuration.go
pub record ConfigPlugin (S : Type 0) : Type 0 where
  pub get_config : String → String → String → Action S Configuration
  pub create_config : String → Configuration → Action S Configuration
  pub update_config : String → Configuration → Action S Configuration
  pub delete_config : String → String → Action S (Unit {0})

-- plugin/secret.go
pub record SecretPlugin (S : Type 0) : Type 0 where
  pub get_secret : String → String → String → Action S Secret
  pub create_secret : String → Secret → Action S Secret
  pub update_secret : String → Secret → Action S Secret
  pub delete_secret : String → String → Action S (Unit {0})

-- plugin/application.go
pub record AppPlugin (S : Type 0) : Type 0 where
  pub get_application : String → String → String → Action S Application
  pub create_application : String → Application → Action S Application
  pub update_application : String → Application → Action S Application
  pub delete_application : String → String → Action S (Unit {0})
  pub list_application : String → Action S (List Application)

-- plugin/index.go
pub record IndexPlugin (S : Type 0) : Type 0 where
  pub refresh : String → Resource → Resource → String → List String → Action S (Unit {0})
  pub list : String → Resource → Resource → String → Action S (List String)

-- plugin/node.go; `list_node` takes the label selector of its options.
pub record NodePlugin (S : Type 0) : Type 0 where
  pub get_node : String → String → Action S Node
  pub create_node : String → Node → Action S Node
  pub update_node : String → Node → Action S (List Node)
  pub delete_node : String → String → Action S (Unit {0})
  pub list_node : String → String → Action S (List Node)

-- models/shadow.go
pub record Shadow : Type 0 where
  pub namespace : String
  pub name : String
  pub report : Option (Dict Value)
  pub desire : Option (Dict Value)
  pub report_meta : Option (Dict Value)
  pub desire_meta : Option (Dict Value)
  pub creation_timestamp : ℕ
  pub desire_version : String
  pub time : ℕ
  pub report_text : String

-- plugin/shadow.go; a shadow that is not there is `none`.
pub record ShadowPlugin (S : Type 0) : Type 0 where
  pub get_shadow : String → String → Action S (Option Shadow)
  pub list_shadow_by_names : String → List String → Action S (List Shadow)
  pub create_shadow : Shadow → Action S Shadow
  pub delete_shadow : String → String → Action S (Unit {0})
  pub update_desire : Shadow → Action S (Unit {0})
  pub update_desires : List Shadow → Action S (Unit {0})
  pub update_report : Shadow → Action S Shadow
