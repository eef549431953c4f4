-- ===== src/Api/Native.antt =====
-- translateNativeApp and translateToNativeAppView: the program of a native service is a config
-- that a volume holds and the service mounts.
use Prim.Native.String.{◌++◌ as str_append}
use baetyl_cloud.Common.{
  String, Bool, true, false, not, ◌&&◌, none, some, List, [], ◌∷◌, ◌==◌, if◌then◌else◌, has_prefix,
}
use baetyl_cloud.Common.Action.{
  coded, volume_type, resource_not_found, Result, ok, err, Action, pure, lift, panic, ◌>>=◌, ◌>>◌,
}
use baetyl_cloud.Api.{
  VolumeMount, Service, ServiceView, Volume, VolumeView, Application, ApplicationView, AppServices,
}

abbrev pub program_config_dir : String
program_config_dir = "/var/lib/baetyl/bin"

-- isProgramConfig, by ProgramConfigPrefix
unfoldable pub is_program_config : String → Bool
is_program_config name = has_prefix name "baetyl-program-config"

abbrev pub is_native : String → String → Bool
is_native mode app_type = mode == "native" && not (app_type == "function")

-- generateVmAndMount
unfoldable pub generate_vm_and_mount : String → String → String → VolumeMount × Volume
generate_vm_and_mount config_name vm_name mount_path = (
  record { name = vm_name; mount_path = mount_path; read_only = true; immutable = false },
  record {
    name = vm_name;
    host_path = none;
    config = some (record { name = config_name; version = "" });
    secret = none;
    empty_dir = none;
  },
)

-- The first entry that passes the test is replaced; if none does, the new one is added.
unfoldable pub put_first : {A : Type 0} → (A → Bool) → A → List A → List A
put_first p new [] = new ∷ []
put_first p new (x ∷ xs) = let rest = put_first p new xs in if p x then new ∷ xs else x ∷ rest

abbrev pub is_program_mount : VolumeMount → Bool
is_program_mount m = is_program_config m.name && m.mount_path == program_config_dir

-- The name of the volume that holds a config.
unfoldable pub get_name_of_native_program_config : List VolumeView → String → Result String
get_name_of_native_program_config [] vm_name =
    err (coded resource_not_found (("type", "volume") ∷ ("name", vm_name) ∷ []))
get_name_of_native_program_config (v ∷ vs) vm_name =
    let rest = get_name_of_native_program_config vs vm_name in
    if v.name == vm_name
    then (elim v.config [
      | none ↦ err (coded volume_type (("name", v.name) ∷ ("type", "config") ∷ []))
      | some c ↦ ok c.name
    ])
    else rest

-- The name of the first mount of a program.
unfoldable pub program_mount_name : List VolumeMount → String
program_mount_name [] = ""
program_mount_name (m ∷ ms) =
    let rest = program_mount_name ms in if is_program_mount m then m.name else rest

-- The first mount of this name cannot be changed.
unfoldable pub freeze_first : String → List VolumeMount → List VolumeMount
freeze_first name [] = []
freeze_first name (m ∷ ms) =
    let rest = freeze_first name ms in
    if m.name == name then record m { immutable = true } ∷ ms else m ∷ rest

module _ {S : Type 0} (api : AppServices S) where
  -- getNameOfNativeProgramVolumeMount, which does not use the name of the service.
  unfoldable pub get_name_of_native_program_volume_mount : String → Action S String
  get_name_of_native_program_volume_mount service_name = do
    suffix ← api.rand_string
    pure (str_append "baetyl-program-config-" suffix)

  -- The loop of translateNativeApp over the views and the services beside them.
  unfoldable pub translate_services :
      List ServiceView → List Service → List Volume → Action S (List Service × List Volume)
  translate_services [] ss vols = pure (ss, vols)
  translate_services (v ∷ vs) [] vols = panic
  translate_services (v ∷ vs) (s ∷ ss) vols = do
    vm_name ← get_name_of_native_program_volume_mount s.name
    let made : VolumeMount × Volume =
        generate_vm_and_mount v.program_config vm_name program_config_dir
    rest ←
        translate_services vs ss (put_first (λ (w : Volume). is_program_config w.name) made.1 vols)
    pure (
      record s { volume_mounts = put_first is_program_mount made.0 s.volume_mounts } ∷ rest.0,
      rest.1,
    )

  -- translateNativeApp
  unfoldable pub translate_native_app : ApplicationView → Application → Action S Application
  translate_native_app view app =
      if is_native view.mode view.app_type
      then (do
        made ← translate_services view.services app.services app.volumes
        pure (record app { services = made.0; volumes = made.1 }))
      else pure app

  -- The loop of translateToNativeAppView.
  unfoldable pub native_services :
      String → List VolumeView → List ServiceView → Action S (List ServiceView)
  native_services ns vols [] = pure []
  native_services ns vols (v ∷ vs) = do
    let vm_name : String = program_mount_name v.service.volume_mounts
    config_name ← lift (get_name_of_native_program_config vols vm_name)
    api.config_get ns config_name
    rest ← native_services ns vols vs
    pure (
        record {
          service = record v.service {
            volume_mounts = freeze_first vm_name v.service.volume_mounts;
          };
          program_config = config_name;
        }
        ∷ rest)

  -- translateToNativeAppView
  unfoldable pub translate_to_native_app_view : ApplicationView → Action S ApplicationView
  translate_to_native_app_view view =
      if is_native view.mode view.app_type
      then (do
        services ← native_services view.namespace view.volumes view.services
        pure (record view { services = services }))
      else pure view
