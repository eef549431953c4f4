-- ===== src/Database/Apps.antt =====
-- plugin/database/entities/application.go: the rows of applications, their conversions and the
-- test of equality. A nil map or slice is taken for an empty one; values that are compared deeply
-- stand by their texts.
pub mod Equality
pub mod Store
pub mod Reading
use baetyl_cloud.Common.{
  ℕ, String, Bool, true, false, Option, none, some, List, [], ◌∷◌, ◌==◌, if◌then◌else◌, nat_eq,
}
use baetyl_cloud.Common.Action.{Error, Result, ok, err, panicked, Action, pure, lift, ◌>>=◌, ◌>>◌}
use baetyl_cloud.Common.Dict.{Dict}
use baetyl_cloud.Common.Integers.{ℤ}
use baetyl_cloud.Spec.{ObjectReference}

-- specV1.Volume; an empty directory by its medium and its size limit.
pub record Volume : Type 0 where
  pub name : String
  pub secret : Option ObjectReference
  pub config : Option ObjectReference
  pub host_path : Option String
  pub empty_dir : Option (String × String)

-- specV1.Resources
pub record Resources : Type 0 where
  pub limits : Dict String
  pub requests : Dict String

-- specV1.Service
pub record Service : Type 0 where
  pub name : String
  pub hostname : String
  pub image : String
  pub replica : ℤ
  pub host_network : Bool
  pub runtime : String
  pub security_context : Option String
  pub liveness_probe : Option String
  pub readiness_probe : Option String
  pub image_pull_policy : String
  pub job_config : Option String
  pub function_config : Option String
  pub volume_mounts : List String
  pub ports : List String
  pub devices : List String
  pub working_dir : String
  pub args : List String
  pub command : List String
  pub env : List String
  pub labels : Dict String
  pub functions : List String
  pub resources : Option Resources

-- specV1.Application, without the time of its last update; a time that is zero is not set.
pub record AppModel : Type 0 where
  pub namespace : String
  pub name : String
  pub version : String
  pub app_type : String
  pub mode : String
  pub system : Bool
  pub creation_timestamp : ℕ
  pub labels : Dict String
  pub selector : String
  pub node_selector : String
  pub description : String
  pub init_services : List Service
  pub services : List Service
  pub volumes : List Volume
  pub cron_status : ℤ
  pub cron_time : ℕ
  pub host_network : Bool
  pub dns_policy : String
  pub replica : ℤ
  pub workload : String
  pub job_config : Option String
  pub ota : String
  pub auto_scale : Option String
  pub preserve_updates : Bool

-- entities.Application
pub record AppRow : Type 0 where
  pub id : ℕ
  pub namespace : String
  pub name : String
  pub version : String
  pub app_type : String
  pub mode : String
  pub system : Bool
  pub labels : String
  pub selector : String
  pub node_selector : String
  pub description : String
  pub init_services : String
  pub services : String
  pub volumes : String
  pub cron_status : ℤ
  pub cron_time : ℕ
  pub create_time : ℕ
  pub host_network : Bool
  pub dns_policy : String
  pub replica : ℤ
  pub workload : String
  pub job_config : String
  pub ota : String
  pub auto_scale : String
  pub preserve_updates : Bool

-- models.AppItem, as its row and what is decoded of it.
pub record AppItem : Type 0 where
  pub row : AppRow
  pub labels : Dict String
  pub job_config : Option String
  pub ota : String
  pub auto_scale : Option String

-- json of the parts of an application.
pub record AppFormat : Type 0 where
  pub encode_labels : Dict String → Result String
  pub decode_labels : String → Result (Dict String)
  pub encode_services : List Service → Result String
  pub decode_services : String → Result (List Service)
  pub encode_volumes : List Volume → Result String
  pub decode_volumes : String → Result (List Volume)
  pub encode_job_config : Option String → Result String
  pub decode_job_config : String → Result (Option String)
  pub encode_ota : String → Result String
  pub decode_ota : String → Result String
  pub encode_auto_scale : Option String → Result String
  pub decode_auto_scale : String → Result (Option String)

module _ (format : AppFormat) {S : Type 0} where
  -- ToAppModel
  unfoldable pub to_app_model : AppRow → Action S AppModel
  to_app_model r = do
    labels ← lift (format.decode_labels r.labels)
    services ← lift (format.decode_services r.services)
    init_services ← lift (format.decode_services r.init_services)
    volumes ← lift (format.decode_volumes r.volumes)
    job_config ← lift (format.decode_job_config r.job_config)
    ota ← lift (format.decode_ota r.ota)
    auto_scale ← lift (format.decode_auto_scale r.auto_scale)
    pure (record {
      namespace = r.namespace;
      name = r.name;
      version = r.version;
      app_type = r.app_type;
      mode = r.mode;
      system = r.system;
      creation_timestamp = r.create_time;
      labels = labels;
      selector = r.selector;
      node_selector = r.node_selector;
      description = r.description;
      init_services = init_services;
      services = services;
      volumes = volumes;
      cron_status = r.cron_status;
      cron_time = r.cron_time;
      host_network = r.host_network;
      dns_policy = r.dns_policy;
      replica = r.replica;
      workload = r.workload;
      job_config = job_config;
      ota = ota;
      auto_scale = auto_scale;
      preserve_updates = r.preserve_updates;
    })

  -- ToAppListModel; where this fails, Go gives nil.
  unfoldable pub to_app_list_model : AppRow → Action S AppItem
  to_app_list_model r = do
    labels ← lift (format.decode_labels r.labels)
    lift (format.decode_services r.services)
    lift (format.decode_volumes r.volumes)
    job_config ← lift (format.decode_job_config r.job_config)
    ota ← lift (format.decode_ota r.ota)
    auto_scale ← lift (format.decode_auto_scale r.auto_scale)
    pure (record {
      row = r;
      labels = labels;
      job_config = job_config;
      ota = ota;
      auto_scale = auto_scale;
    })

  -- FromAppModel, with the clock and the generator of versions.
  unfoldable pub from_app_model : Action S ℕ → Action S String → String → AppModel → Action S AppRow
  from_app_model now gen_version ns a = do
    labels ← lift (format.encode_labels a.labels)
    services ← lift (format.encode_services a.services)
    init_services ← lift (format.encode_services a.init_services)
    volumes ← lift (format.encode_volumes a.volumes)
    job_config ← lift (format.encode_job_config a.job_config)
    cron_time ← (if nat_eq a.cron_time 0 then now else pure a.cron_time)
    ota ← lift (format.encode_ota a.ota)
    auto_scale ← lift (format.encode_auto_scale a.auto_scale)
    version ← gen_version
    pure (record {
      id = 0;
      namespace = ns;
      name = a.name;
      version = version;
      app_type = a.app_type;
      mode = a.mode;
      system = a.system;
      labels = labels;
      selector = a.selector;
      node_selector = a.node_selector;
      description = a.description;
      init_services = init_services;
      services = services;
      volumes = volumes;
      cron_status = a.cron_status;
      cron_time = cron_time;
      create_time = 0;
      host_network = a.host_network;
      dns_policy = a.dns_policy;
      replica = a.replica;
      workload = a.workload;
      job_config = job_config;
      ota = ota;
      auto_scale = auto_scale;
      preserve_updates = a.preserve_updates;
    })
