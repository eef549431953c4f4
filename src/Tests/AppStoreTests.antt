-- ===== src/Tests/AppStoreTests.antt =====
-- The application store at a concrete table.
use baetyl_cloud.Common.{String, ◌≡◌, refl, true, false, none, some, List, [], ◌∷◌}
use baetyl_cloud.Common.Action.{plain, Result, ok, pure}
use baetyl_cloud.Common.Integers.{pos}
use baetyl_cloud.Database.Keyed.{Table, find}
use baetyl_cloud.Database.Apps.{Service, Volume, AppModel, AppRow, AppFormat, to_app_model}
use baetyl_cloud.Database.Apps.Store.{AppConn, AppLibrary, get_application, update_application}
use baetyl_cloud.Database.Apps.Reading.{update_application-get_application}

abbrev a_service : Service
a_service = record {
  name = "s";
  hostname = "";
  image = "nginx";
  replica = pos 1;
  host_network = false;
  runtime = "";
  security_context = none;
  liveness_probe = none;
  readiness_probe = none;
  image_pull_policy = "";
  job_config = none;
  function_config = none;
  volume_mounts = "conf" ∷ [];
  ports = "80" ∷ [];
  devices = [];
  working_dir = "";
  args = [];
  command = [];
  env = [];
  labels = ("a", "b") ∷ [];
  functions = [];
  resources = some (record { limits = ("cpu", "1") ∷ []; requests = [] });
}

abbrev a_volume : Volume
a_volume = record {
  name = "conf";
  secret = none;
  config = some (record { name = "c"; version = "1" });
  host_path = none;
  empty_dir = none;
}

abbrev decode_services : String → Result (List Service)
decode_services t = ok (a_service ∷ [])

abbrev a_format : AppFormat
a_format = record {
  encode_labels = λ d. ok "{}";
  decode_labels = λ s. ok [];
  encode_services = λ ss. ok "[]";
  decode_services = decode_services;
  encode_volumes = λ vs. ok "[]";
  decode_volumes = λ s. ok (a_volume ∷ []);
  encode_job_config = λ o. ok "{}";
  decode_job_config = λ s. ok (some s);
  encode_ota = λ s. ok s;
  decode_ota = λ s. ok s;
  encode_auto_scale = λ o. ok "{}";
  decode_auto_scale = λ s. ok (some s);
}

abbrev a_library : AppLibrary
a_library = record {
  now = pure 9;
  gen_version = pure "new";
  like = λ a b. true;
  newest_first = λ rs. rs;
  is_label_match = λ a b. ok true;
  empty_in = plain "empty slice";
  unique = true;
}

abbrev a_row : AppRow
a_row = record {
  id = 1;
  namespace = "default";
  name = "web";
  version = "3";
  app_type = "container";
  mode = "kube";
  system = false;
  labels = "{}";
  selector = "a=b";
  node_selector = "";
  description = "";
  init_services = "[]";
  services = "[]";
  volumes = "[]";
  cron_status = pos 0;
  cron_time = 5;
  create_time = 1;
  host_network = false;
  dns_policy = "ClusterFirst";
  replica = pos 1;
  workload = "deployment";
  job_config = "{}";
  ota = "{}";
  auto_scale = "{}";
  preserve_updates = false;
}

abbrev a_table : Table AppRow
a_table = record { rows = a_row ∷ []; next_id = 2; clock = 0 }

abbrev on_table : AppConn
on_table = record { faults = []; tables = a_table }

-- What the store reads from the row.
abbrev web : AppModel
web = record {
  namespace = "default";
  name = "web";
  version = "3";
  app_type = "container";
  mode = "kube";
  system = false;
  creation_timestamp = 1;
  labels = [];
  selector = "a=b";
  node_selector = "";
  description = "";
  init_services = a_service ∷ [];
  services = a_service ∷ [];
  volumes = a_volume ∷ [];
  cron_status = pos 0;
  cron_time = 5;
  host_network = false;
  dns_policy = "ClusterFirst";
  replica = pos 1;
  workload = "deployment";
  job_config = some "{}";
  ota = "{}";
  auto_scale = some "{}";
  preserve_updates = false;
}

update_application-get_application_example :
    update_application a_format a_library false "default" web on_table ≡ (ok web, on_table)
unfolding get_application to_app_model find
update_application-get_application_example =
    update_application-get_application a_format a_library "default" web a_table false refl
      (((refl, refl, refl, (refl, refl)), tt), ((refl, refl, refl, (refl, refl)), tt), refl)
