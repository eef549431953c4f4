-- ===== src/Api/Conversion.antt =====
-- ToApplication and ToApplicationView: the conversions between an application and its view.
use baetyl_cloud.Common.{
  String, Bool, true, false, not, ◌&&◌, ◌||◌, Option, none, some, List, [], ◌∷◌, ◌++◌, map, ◌==◌,
  if◌then◌else◌, mem, has_prefix, keep,
}
use baetyl_cloud.Common.Action.{coded, resource_not_found, Action, pure, raise, lift, ◌>>=◌, ◌>>◌}
use baetyl_cloud.Common.Dict.{lookup, erase}
use baetyl_cloud.Common.Integers.{pos}
use baetyl_cloud.Spec.{Configuration}
use baetyl_cloud.Api.{
  VolumeMount, Service, ServiceView, Volume, VolumeView, Application, ApplicationView, AppServices,
}
use baetyl_cloud.Api.Compatible.{compatible_app_deprecated_field}
use baetyl_cloud.Api.Native.{
  generate_vm_and_mount, program_config_dir, translate_native_app, translate_to_native_app_view,
}
use baetyl_cloud.Api.Secrets.{
  translate_secret_liked_models_to_secrets, translate_secrets_to_secret_liked_resources,
}
use baetyl_cloud.Api.Functions.{
  label_app_mode, get_name_of_function_config_volume_mount, get_name_of_function_program_vm_mount,
  get_name_of_function_code_volume_mount, runtime_of, get_gen_config_name_of_function_service,
  get_gen_program_name_of_function_service, generate_config_of_function_service, programs_of,
}

-- populateFunctionVolumeMount
unfoldable pub populate_function_volume_mount : Service → Service
populate_function_volume_mount s =
    let freeze : VolumeMount → VolumeMount = λ m.
      if m.name == get_name_of_function_code_volume_mount s.name
        || m.name == get_name_of_function_config_volume_mount s.name
        || m.name == get_name_of_function_program_vm_mount s.name
      then record m { immutable = true }
      else m in
    record s { volume_mounts = map freeze s.volume_mounts }

-- populateAppDefaultField
unfoldable pub populate_app_default_field : ApplicationView → ApplicationView
populate_app_default_field view = record view {
  mode = if view.mode == "" then "kube" else view.mode;
  workload = if view.workload == "" then "deployment" else view.workload;
}

abbrev is_function_program : String → Bool
is_function_program name = has_prefix name "baetyl-function-program-config"

abbrev without_program : ServiceView → ServiceView
without_program v = record v {
  service = record v.service {
    volume_mounts =
        keep (λ (m : VolumeMount). not (is_function_program m.name)) v.service.volume_mounts;
  };
}

-- The end of ToApplicationView: a function in Kubernetes shows no program.
unfoldable pub hide_programs : ApplicationView → ApplicationView
hide_programs view =
    if view.app_type == "function" && view.mode == "kube"
    then record view {
      volumes = keep (λ (v : VolumeView). not (is_function_program v.name)) view.volumes;
      services = map without_program view.services;
    }
    else view

abbrev without_mode : ApplicationView → ApplicationView
without_mode view = record view { labels = erase label_app_mode view.labels }

module _ {S : Type 0} (api : AppServices S) where
  -- A volume for a config and its mount, unless there was a volume of this name.
  abbrev mount_new :
      List String → String → String → String → Service × List Volume → Service × List Volume
  mount_new had config_name vm_name dir (s, vols) =
      if mem vm_name had
      then (s, vols)
      else (let made = generate_vm_and_mount config_name vm_name dir in
          (record s { volume_mounts = s.volume_mounts ++ made.0 ∷ [] }, vols ++ made.1 ∷ []))

  abbrev mount_programs :
      List String → List Configuration → Service × List Volume → Service × List Volume
  mount_programs had [] made = made
  mount_programs had (c ∷ cs) (s, vols) =
      mount_new had c.name (get_name_of_function_program_vm_mount s.name) program_config_dir
        (s, vols)

  abbrev mounted :
      List String
      → List String
      → Configuration
      → List Configuration
      → Service × List Volume
      → Service × List Volume
  mounted old had config programs (s, vols) =
      if mem s.name old
      then (s, vols)
      else mount_programs had programs (
          mount_new had config.name (get_name_of_function_config_volume_mount s.name) "/etc/baetyl"
            (s, vols))

  abbrev image_of : String → Option String → Action S String
  image_of runtime (some image) = pure image
  image_of runtime none =
      raise (coded resource_not_found (("type", "runtime") ∷ ("name", runtime) ∷ []))

  -- The loop of ToApplication over the services, with the names of the old services and of the
  -- volumes before it; the volumes grow in the application.
  unfoldable pub function_services :
      List String
      → List String
      → List Service
      → Application
      → Action S ((List Service × List Volume) × List Configuration)
  function_services old had [] app = pure (([], app.volumes), [])
  function_services old had (s ∷ ss) app = do
    config ← generate_config_of_function_service api s app
    programs ← programs_of api s app
    let made : Service × List Volume = mounted old had config programs (s, app.volumes)
    runtimes ← api.list_runtimes
    runtime ← runtime_of s.function_config
    image ← image_of runtime (lookup runtime runtimes)
    rest ← function_services old had ss (record app { volumes = made.1 })
    pure (
      (
        record made.0 {
          image = image;
          ports =
              record {
                container_port = pos 80;
                host_port = pos 0;
                node_port = pos 0;
                protocol = "TCP";
                service_type = "";
              }
              ∷ [];
        }
            ∷ rest.0.0,
        rest.0.1,
      ),
      config ∷ programs ++ rest.1,
    )

  abbrev service_names : Option Application → List String
  service_names none = []
  service_names (some app) = map (λ (s : Service). s.name) app.services

  -- ToApplication, with the old application
  unfoldable pub to_application :
      ApplicationView → Option Application → Action S (Application × List Configuration)
  to_application view old = do
    app ← translate_secret_liked_models_to_secrets view (api.copy_view view)
    app ← translate_native_app api view app
    if app.app_type == "function"
        then (do
          made ←
              function_services (service_names old) (map (λ (v : Volume). v.name) app.volumes)
                app.services app
          pure (record app { services = made.0.0; volumes = made.0.1 }, made.1))
        else pure (app, [])

  abbrev program_name_if : Bool → Application → String → Action S String
  program_name_if false app name = pure ""
  program_name_if true app name = get_gen_program_name_of_function_service api app name

  abbrev functions_of : Option String → Service → Action S Service
  functions_of none s = pure s
  functions_of (some text) s = do
    fs ← lift (api.decode_functions text)
    pure (record s { functions = fs })

  abbrev check_program : Bool → String → String → Action S (Unit {0})
  check_program false ns name = pure tt
  check_program true ns name = api.config_get ns name >>= λ c. pure tt

  -- The loop of ToApplicationView over the services of a function application.
  unfoldable pub function_views :
      Application → String → List ServiceView → Action S (List ServiceView)
  function_views app ns [] = pure []
  function_views app ns (v ∷ vs) = do
    name ← get_gen_config_name_of_function_service api app v.service.name
    program ← program_name_if (app.mode == "native") app v.service.name
    config ← api.config_get ns name
    s ← functions_of (lookup "conf.yml" config.entries) v.service
    check_program (app.mode == "native") ns program
    rest ← function_views app ns vs
    pure (record v { service = populate_function_volume_mount s } ∷ rest)

  -- ToApplicationView
  unfoldable pub to_application_view : Application → Action S ApplicationView
  to_application_view app = do
    view ← translate_secrets_to_secret_liked_resources api (api.copy_app app)
    view ← translate_to_native_app_view api view
    let full : ApplicationView = populate_app_default_field (compatible_app_deprecated_field view)
    if app.app_type == "function"
        then (do
          services ← function_views app full.namespace full.services
          pure (without_mode (hide_programs (record full { services = services }))))
        else pure (without_mode full)
