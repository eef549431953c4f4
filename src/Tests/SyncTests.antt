-- ===== src/Tests/SyncTests.antt =====
-- Tasks, quotas and the synchronisation at concrete values.
use baetyl_cloud.Common.{ℕ, ◌≡◌, refl, true, false, List, [], ◌∷◌, Bool}
use baetyl_cloud.Common.Action.{Result, ok, err, panicked, pure}
use baetyl_cloud.Common.Dict.{Dict, lookup}
use baetyl_cloud.Spec.{Value, other, Application, cron_not_set, Secret}
use baetyl_cloud.Spec.Desire.{DesireApi}
use baetyl_cloud.Models.Shadow.{new_shadow}
use baetyl_cloud.Database.{Conn}
use baetyl_cloud.Database.Tasks.{
  Task, TaskTable, TaskFormat, update_where, is_operated_success, from_task_model,
  acquire_task_lock,
}
use baetyl_cloud.Database.Tasks.Locking.{acquire-acquire}
use baetyl_cloud.Service.App.Names.{is_ok}
use baetyl_cloud.Service.Quota.{check_counts, is_ok-check_counts}
use baetyl_cloud.Service.Sync.{
  SyncServices, ResourceInfo, ResourceValue, an_app, a_secret, kind_app, kind_secret,
  extract_comparing_report, desire, resource_of,
}
use baetyl_cloud.Service.Sync.Answers.{Answers, lookup-extract_comparing_report, desire_lem}
use baetyl_cloud.Tests.ListingTests.{named}

abbrev task_format : TaskFormat
task_format = record { encode = λ d. ok "{}"; decode = λ s. ok [] }

abbrev a_task : Task
a_task = record {
  id = 3;
  name = "t";
  registration_name = "delete";
  namespace = "default";
  resource_name = "n1";
  resource_type = "namespace";
  version = 4;
  expire_time = 9;
  status = 0;
  processors_status = [];
}

abbrev task_table : Conn TaskTable
task_table = record {
  faults = [];
  tables = record {
    rows =
        record {
          id = 3;
          name = "t";
          registration_name = "delete";
          namespace = "default";
          resource_name = "n1";
          resource_type = "namespace";
          version = 4;
          expire_time = 0;
          status = 0;
          content = "{}";
          update_time = 0;
        }
        ∷ [];
    next_id = 4;
    clock = 0;
  };
}

abbrev first_run : Result Bool × Conn TaskTable
first_run = acquire_task_lock task_format a_task task_table

abbrev second_run : Result Bool × Conn TaskTable
second_run = acquire_task_lock task_format (record a_task { expire_time = 11 }) first_run.1

first_locks : first_run.0 ≡ ok true
unfolding acquire_task_lock from_task_model update_where is_operated_success
first_locks = refl

abbrev got : Result Bool → Bool
got (ok b) = b
got (err e) = true
got panicked = true

acquire-acquire_example : got second_run.0 ≡ false
unfolding acquire_task_lock from_task_model update_where is_operated_success
acquire-acquire_example =
    acquire-acquire task_format a_task (record a_task { expire_time = 11 }) task_table first_run.1
      second_run.1 true (got second_run.0) refl refl refl refl

is_ok-check_counts_example :
    is_ok (check_counts (("maxNodeCount", 10) ∷ []) (("maxNodeCount", 9) ∷ [])) ≡ true
unfolding lookup
is_ok-check_counts_example =
    is_ok-check_counts (("maxNodeCount", 10) ∷ []) (("maxNodeCount", 9) ∷ [])

abbrev full_report : Dict Value
full_report = ("apps", other "a") ∷ ("node", other "n") ∷ []

lookup-extract_comparing_report_example :
    lookup "apps" (extract_comparing_report full_report) ≡ lookup "apps" full_report
lookup-extract_comparing_report_example = lookup-extract_comparing_report full_report "apps"

abbrev no_api : DesireApi
no_api = record {
  app_infos = λ d s. [];
  set_app_infos = λ d s xs. d;
  merge = λ d e. ok e;
  diff_with_nil = λ d r. ok [];
  diff_props = λ p q. ok [];
  is_label_match = λ s l. ok true;
}

abbrev an_application : Application
an_application = record {
  name = "web";
  namespace = "default";
  version = "2";
  selector = "edge";
  system = false;
  cron_status = cron_not_set;
  cron_time = 0;
  services = [];
  volumes = [];
}

abbrev one_secret : Secret
one_secret = record { name = "s1"; namespace = "default"; version = "1" }

abbrev sync_services : SyncServices ℕ
sync_services = record {
  update_init_report = λ ns name r. pure (new_shadow ns name);
  update_report = λ ns name r. pure (new_shadow ns name);
  node_get = λ ns name. pure (named name true);
  app_get = λ ns name v. pure an_application;
  config_get = λ ns name v. pure (record {
    name = name;
    namespace = ns;
    version = v;
    labels = [];
    entries = [];
    description = "";
    update_timestamp = 0;
    creation_timestamp = 0;
    system = false;
  });
  secret_get = λ ns name v. pure one_secret;
  populate_config = λ c m. pure c;
  init_source = "init";
  sync_mode_key = "syncMode";
  local_mode = "local";
}

abbrev asked : List ResourceInfo
asked =
    record { kind = kind_app; name = "web"; version = "2" }
    ∷ record { kind = kind_secret; name = "s1"; version = "1" }
    ∷ []

abbrev answered : List ResourceValue
answered =
    record {
      info = record { kind = kind_app; name = "web"; version = "2" };
      value = an_app an_application;
    }
    ∷ record {
      info = record { kind = kind_secret; name = "s1"; version = "1" };
      value = a_secret one_secret;
    }
    ∷ []

desire_lem_example : Answers asked answered
unfolding desire resource_of
desire_lem_example = desire_lem no_api sync_services "default" [] asked answered 0 0 refl
