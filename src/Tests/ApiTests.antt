-- ===== src/Tests/ApiTests.antt =====
-- Requests on applications at concrete values.
use baetyl_cloud.Common.{ℕ, String, ◌≡◌, refl, false, none, List, [], ◌∷◌, map}
use baetyl_cloud.Common.Action.{plain, Result, ok, err, panicked, Action, pure, raise}
use baetyl_cloud.Common.Dict.{lookup, insert}
use baetyl_cloud.Common.Integers.{pos}
use baetyl_cloud.Spec.{Configuration, cron_not_set}
use baetyl_cloud.Api.{
  ContainerPort, VolumeMount, Service, ServiceView, Volume, Application, ApplicationView,
  AppServices,
}
use baetyl_cloud.Api.Ports.{is_valid_port, check_port, check_duplicate_port}
use baetyl_cloud.Api.Native.{
  translate_native_app, translate_services, get_name_of_native_program_volume_mount,
  generate_vm_and_mount, put_first, is_program_config,
}
use baetyl_cloud.Api.Validation.{
  valid_application, valid_volumes, valid_registries, valid_services, valid_service_ports,
  valid_init_services, valid_cron, valid_auto_scale, valid_custom_namespace,
}
use baetyl_cloud.Api.Validation.Accepted.{IsBoundOnce, valid_application-IsBoundOnce}

abbrev a_config : Configuration
a_config = record {
  name = "c";
  namespace = "default";
  version = "1";
  labels = [];
  entries = [];
  description = "";
  update_timestamp = 0;
  creation_timestamp = 0;
  system = false;
}

abbrev a_service : String → List ContainerPort → Service
a_service name ports = record {
  name = name;
  image = "nginx";
  workload = "";
  host_network = false;
  replica = pos 0;
  job_config = none;
  volume_mounts = [];
  ports = ports;
  function_config = none;
  functions = none;
}

abbrev an_application : List Service → Application
an_application services = record {
  name = "a";
  namespace = "default";
  version = "1";
  mode = "native";
  app_type = "container";
  labels = [];
  selector = "";
  system = false;
  cron_status = cron_not_set;
  cron_time = 0;
  creation_timestamp = 0;
  services = services;
  init_services = [];
  volumes = [];
  host_network = false;
  replica = pos 1;
  workload = "deployment";
  job_config = none;
  ota = "";
  auto_scale = none;
}

abbrev a_view : List ServiceView → ApplicationView
a_view services = record {
  name = "a";
  namespace = "default";
  version = "1";
  mode = "native";
  app_type = "container";
  labels = [];
  selector = "";
  system = false;
  cron_status = cron_not_set;
  cron_time = 0;
  creation_timestamp = 0;
  services = services;
  init_services = [];
  volumes = [];
  registries = [];
  host_network = false;
  replica = pos 1;
  workload = "deployment";
  job_config = none;
  ota = "";
  auto_scale = none;
}

-- The store is the next random text.
abbrev rand_string : Action (List String) String
rand_string [] = (ok "z", [])
rand_string (x ∷ xs) = (ok x, xs)

abbrev services : AppServices (List String)
services = record {
  app_get = λ ns name v. pure (an_application []);
  config_get = λ ns name. pure a_config;
  secret_get = λ ns name. raise (plain "none");
  list_nodes_by_app = λ ns name. pure [];
  list_runtimes = pure [];
  unmarshal_template = λ name params. pure a_config;
  facade_get_app = λ ns name v. pure (an_application []);
  facade_create_app = λ ns base app cs. pure app;
  facade_update_app = λ ns old app cs. pure app;
  facade_delete_app = λ ns name app. pure tt;
  copy_view = λ v. an_application (map (λ (x : ServiceView). x.service) v.services);
  copy_app = λ a. a_view (map (λ s. record { service = s; program_config = "" }) a.services);
  encode_functions = λ fs. ok "{}";
  decode_functions = λ s. ok none;
  rand_string = rand_string;
  now = pure 5;
  to_lower = λ s. s;
  trim_space = λ s. s;
  byte_length = λ s. 1;
  error_text = λ e. "error";
  secret_label = "secret-type";
  secret_registry = "registry";
  secret_certificate = "certificate";
  custom_app_ns_label = "namespace";
  edge_system_namespace = "baetyl-edge-system";
  edge_namespace = "baetyl-edge";
  valid_svc_name = λ s. ok tt;
}

abbrev on_host : ℕ → String → ContainerPort
on_host n protocol = record {
  container_port = pos 80;
  host_port = pos n;
  node_port = pos 0;
  protocol = protocol;
  service_type = "ClusterIP";
}

abbrev a_program : String → List ContainerPort → ServiceView
a_program name ports = record { service = a_service name ports; program_config = name }

abbrev two_programs : ApplicationView
two_programs =
    a_view
      (a_program "s1" (on_host 8080 "TCP" ∷ []) ∷ a_program "s2" (on_host 8080 "UDP" ∷ []) ∷ [])

valid_application-IsBoundOnce_example : IsBoundOnce false (pos 8080) two_programs
unfolding valid_application valid_volumes valid_registries valid_services valid_service_ports
    valid_init_services valid_cron valid_auto_scale valid_custom_namespace is_valid_port check_port
    check_duplicate_port insert lookup
valid_application-IsBoundOnce_example =
    valid_application-IsBoundOnce services "default" two_programs
      (record two_programs { labels = ("baetyl-app-mode", "native") ∷ [] }) [] [] refl false
      (pos 8080)

abbrev names_of : Result Application → List String
names_of (ok app) = map (λ (v : Volume). v.name) app.volumes
names_of (err e) = []
names_of panicked = []

abbrev mounts_of : Result Application → List (List String)
mounts_of (ok app) =
    map (λ (s : Service). map (λ (m : VolumeMount). m.name) s.volume_mounts) app.services
mounts_of (err e) = []
mounts_of panicked = []

abbrev translated : Result Application
translated =
    (translate_native_app services two_programs (services.copy_view two_programs)
      ("x" ∷ "y" ∷ [])).0

-- Of two native services, the volume of the first is replaced by that of the second, and the mount
-- of the first stays without one.
first_program_lost :
    (names_of translated ≡ "baetyl-program-config-y" ∷ [])
    × (mounts_of translated
        ≡ ("baetyl-program-config-x" ∷ []) ∷ ("baetyl-program-config-y" ∷ []) ∷ [])
unfolding translate_native_app translate_services get_name_of_native_program_volume_mount
    generate_vm_and_mount put_first is_program_config
first_program_lost = (refl, refl)
