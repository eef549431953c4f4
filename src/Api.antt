-- ===== src/Api.antt =====
-- api/application.go and models/application.go: the requests on applications. The types of
-- specV1 stand here with the fields that api/ reads or writes.
pub mod Compatible
pub mod Ports
pub mod Native
pub mod Functions
pub mod Conversion
pub mod Secrets
pub mod Validation
pub mod Parsing
pub mod Handlers
use baetyl_cloud.Common.{ℕ, String, Bool, Option, List}
use baetyl_cloud.Common.Action.{Error, Result, Action}
use baetyl_cloud.Common.Dict.{Dict}
use baetyl_cloud.Common.Integers.{ℤ}
use baetyl_cloud.Spec.{ObjectReference, CronStatus, Configuration}

-- specV1.ContainerPort; the ports are int32.
pub record ContainerPort : Type 0 where
  pub container_port : ℤ
  pub host_port : ℤ
  pub node_port : ℤ
  pub protocol : String
  pub service_type : String

pub record VolumeMount : Type 0 where
  pub name : String
  pub mount_path : String
  pub read_only : Bool
  pub immutable : Bool

-- specV1.AppJobConfig and specV1.ServiceJobConfig
pub record JobConfig : Type 0 where
  pub completions : ℤ
  pub parallelism : ℤ
  pub backoff_limit : ℤ
  pub restart_policy : String

-- specV1.ServiceFunctionConfig
pub record FunctionConfig : Type 0 where
  pub runtime : String

-- specV1.Service; a function of `functions` stands by its text.
pub record Service : Type 0 where
  pub name : String
  pub image : String
  pub workload : String
  pub host_network : Bool
  pub replica : ℤ
  pub job_config : Option JobConfig
  pub volume_mounts : List VolumeMount
  pub ports : List ContainerPort
  pub function_config : Option FunctionConfig
  pub functions : Option (List String)

-- models.ServiceView, which embeds a service.
pub record ServiceView : Type 0 where
  pub service : Service
  pub program_config : String

-- specV1.Volume; the other sources of a volume stand by their texts.
pub record Volume : Type 0 where
  pub name : String
  pub host_path : Option String
  pub config : Option ObjectReference
  pub secret : Option ObjectReference
  pub empty_dir : Option String

-- models.VolumeView
pub record VolumeView : Type 0 where
  pub name : String
  pub host_path : Option String
  pub config : Option ObjectReference
  pub secret : Option ObjectReference
  pub empty_dir : Option String
  pub certificate : Option ObjectReference

-- models.RegistryView
pub record RegistryView : Type 0 where
  pub name : String
  pub address : String
  pub username : String

-- specV1.AutoScaleCfg; of a metric the name of its resource, if there is one.
pub record AutoScale : Type 0 where
  pub min_replicas : ℤ
  pub max_replicas : ℤ
  pub metrics : List (Option String)

-- specV1.Application
pub record Application : Type 0 where
  pub name : String
  pub namespace : String
  pub version : String
  pub mode : String
  pub app_type : String
  pub labels : Dict String
  pub selector : String
  pub system : Bool
  pub cron_status : CronStatus
  pub cron_time : ℕ
  pub creation_timestamp : ℕ
  pub services : List Service
  pub init_services : List Service
  pub volumes : List Volume
  pub host_network : Bool
  pub replica : ℤ
  pub workload : String
  pub job_config : Option JobConfig
  pub ota : String
  pub auto_scale : Option AutoScale

-- models.ApplicationView
pub record ApplicationView : Type 0 where
  pub name : String
  pub namespace : String
  pub version : String
  pub mode : String
  pub app_type : String
  pub labels : Dict String
  pub selector : String
  pub system : Bool
  pub cron_status : CronStatus
  pub cron_time : ℕ
  pub creation_timestamp : ℕ
  pub services : List ServiceView
  pub init_services : List ServiceView
  pub volumes : List VolumeView
  pub registries : List RegistryView
  pub host_network : Bool
  pub replica : ℤ
  pub workload : String
  pub job_config : Option JobConfig
  pub ota : String
  pub auto_scale : Option AutoScale

-- The part of specV1.Secret that api/ reads; its data stand in a registry by FromSecretToRegistry.
pub record SecretInfo : Type 0 where
  pub name : String
  pub labels : Dict String
  pub registry : RegistryView

-- What the handlers call: the services, the facade, the copies of github.com/jinzhu/copier
-- between an application and its view, json, the clock, and constants and the validator of
-- baetyl-go.
pub record AppServices (S : Type 0) : Type 0 where
  pub app_get : String → String → String → Action S Application
  pub config_get : String → String → Action S Configuration
  pub secret_get : String → String → Action S SecretInfo
  pub list_nodes_by_app : String → String → Action S (List String)
  pub list_runtimes : Action S (Dict String)
  pub unmarshal_template : String → Dict String → Action S Configuration
  pub facade_get_app : String → String → String → Action S Application
  pub facade_create_app :
      String → Option Application → Application → List Configuration → Action S Application
  pub facade_update_app :
      String → Application → Application → List Configuration → Action S Application
  pub facade_delete_app : String → String → Application → Action S (Unit {0})
  pub copy_view : ApplicationView → Application
  pub copy_app : Application → ApplicationView
  pub encode_functions : Option (List String) → Result String
  pub decode_functions : String → Result (Option (List String))
  pub rand_string : Action S String
  pub now : Action S ℕ
  pub to_lower : String → String
  pub trim_space : String → String
  pub byte_length : String → ℕ
  pub error_text : Error → String
  pub secret_label : String
  pub secret_registry : String
  pub secret_certificate : String
  pub custom_app_ns_label : String
  pub edge_system_namespace : String
  pub edge_namespace : String
  pub valid_svc_name : String → Result (Unit {0})
