-- ===== src/Api/Functions.antt =====
-- Function applications: the names and the configs that are generated for each of their services.
use Prim.Native.String.{◌++◌ as str_append}
use baetyl_cloud.Common.{String, false, Option, none, some, List, [], ◌∷◌, ◌==◌, if◌then◌else◌}
use baetyl_cloud.Common.Action.{
  coded, volume_type, Result, ok, err, Action, pure, lift, panic, ◌>>=◌,
}
use baetyl_cloud.Spec.{Configuration}
use baetyl_cloud.Api.{FunctionConfig, Service, Volume, Application, AppServices}

abbrev pub label_app_mode : String
label_app_mode = "baetyl-app-mode"

abbrev dashed : String → String → String
dashed a b = str_append a (str_append "-" b)

-- getNameOfFunctionConfigVolumeMount
unfoldable pub get_name_of_function_config_volume_mount : String → String
get_name_of_function_config_volume_mount service_name = dashed "baetyl-function-config" service_name

-- getNameOfFunctionProgramVmMount
unfoldable pub get_name_of_function_program_vm_mount : String → String
get_name_of_function_program_vm_mount service_name =
    dashed "baetyl-function-program-config" service_name

-- getNameOfFunctionCodeVolumeMount
unfoldable pub get_name_of_function_code_volume_mount : String → String
get_name_of_function_code_volume_mount service_name = dashed "baetyl-function-code" service_name

-- The first volume of a name: nothing, or the name of its config.
unfoldable pub config_of_volume : List Volume → String → Option (Result String)
config_of_volume [] name = none
config_of_volume (v ∷ vs) name =
    let rest = config_of_volume vs name in
    if v.name == name
    then some (elim v.config [
      | none ↦ err (coded volume_type (("name", v.name) ∷ ("type", "config") ∷ []))
      | some c ↦ ok c.name
    ])
    else rest

abbrev pub runtime_of : {S : Type 0} → Option FunctionConfig → Action S String
runtime_of none = panic
runtime_of (some c) = pure c.runtime

module _ {S : Type 0} (api : AppServices S) where
  abbrev generated_name : Option (Result String) → String → Application → String → Action S String
  generated_name (some r) prefix app service_name = lift r
  generated_name none prefix app service_name = do
    suffix ← api.rand_string
    pure (api.to_lower (dashed prefix (dashed app.name (dashed service_name suffix))))

  -- getGenConfigNameOfFunctionService
  unfoldable pub get_gen_config_name_of_function_service : Application → String → Action S String
  get_gen_config_name_of_function_service app service_name =
      generated_name
        (config_of_volume app.volumes (get_name_of_function_config_volume_mount service_name))
        "baetyl-function-config" app service_name

  -- getGenProgramNameOfFunctionService
  unfoldable pub get_gen_program_name_of_function_service : Application → String → Action S String
  get_gen_program_name_of_function_service app service_name =
      generated_name
        (config_of_volume app.volumes (get_name_of_function_program_vm_mount service_name))
        "baetyl-function-program-config" app service_name

  -- generateConfigOfFunctionService
  unfoldable pub generate_config_of_function_service :
      Service → Application → Action S Configuration
  generate_config_of_function_service s app = do
    text ← lift (api.encode_functions s.functions)
    name ← get_gen_config_name_of_function_service app s.name
    pure (record {
      name = name;
      namespace = app.namespace;
      version = "";
      labels = ("baetyl-cloud-system", "true") ∷ [];
      entries = ("conf.yml", text) ∷ [];
      description = "";
      update_timestamp = 0;
      creation_timestamp = 0;
      system = false;
    })

  -- generateProgramOfFunctionService
  unfoldable pub generate_program_of_function_service :
      Service → Application → Action S Configuration
  generate_program_of_function_service s app = do
    name ← get_gen_program_name_of_function_service app s.name
    runtime ← runtime_of s.function_config
    api.unmarshal_template (dashed "baetyl" (dashed runtime "program.yml"))
        (("Namespace", app.namespace) ∷ ("ConfigName", name) ∷ [])

  abbrev pub programs_of : Service → Application → Action S (List Configuration)
  programs_of s app =
      if app.mode == "native"
      then generate_program_of_function_service s app >>= (λ c. pure (c ∷ []))
      else pure []
