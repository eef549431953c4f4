-- ===== src/Api/Parsing.antt =====
-- ParseApplication and the list options: what a request says.
use Prim.Native.String.{◌++◌ as str_append}
use baetyl_cloud.Common.{
  ℕ, String, Bool, true, false, not, ◌&&◌, ◌||◌, Option, none, some, List, [], ◌∷◌, ◌==◌,
  if◌then◌else◌, ltb, contains,
}
use baetyl_cloud.Common.Action.{Result, ok, err, panicked, Action, pure, raise, panic, ◌>>=◌, ◌>>◌}
use baetyl_cloud.Common.Dict.{Dict, erase}
use baetyl_cloud.Api.{ServiceView, RegistryView, Application, ApplicationView, AppServices}
use baetyl_cloud.Api.Ports.{invalid}
use baetyl_cloud.Api.Functions.{label_app_mode}
use baetyl_cloud.Api.Compatible.{compatible_app_deprecated_field, on_services}
use baetyl_cloud.Api.Validation.{guard}

-- What a handler reads of common.Context: the namespace, the name in the path, the query for a
-- base application, and LoadBody into a view that has the name and the namespace.
pub record Request : Type 0 where
  pub namespace : String
  pub name : String
  pub base : Option String
  pub load_body : String → String → Result ApplicationView

abbrev app_name_max_length : ℕ
app_name_max_length = 55

abbrev is_set : {A : Type 0} → Option A → Bool
is_set none = false
is_set (some a) = true

abbrev no_registries : List RegistryView → Bool
no_registries [] = true
no_registries (r ∷ rs) = false

module _ {S : Type 0} where
  -- The loop over the services of a container application.
  unfoldable pub check_containers : String → List ServiceView → Action S (Unit {0})
  check_containers mode [] = pure tt
  check_containers mode (v ∷ vs) = do
    guard (not (is_set v.service.function_config || is_set v.service.functions))
        "add function info in container app"
    guard (not (mode == "kube" && v.service.image == "")) "image is required in kube mode"
    guard (not (mode == "native" && v.program_config == ""))
        "program config is required in native mode"
    check_containers mode vs

  -- The loop over the services of a function application.
  unfoldable pub check_functions : List ServiceView → Action S (Unit {0})
  check_functions [] = pure tt
  check_functions (v ∷ vs) =
      guard (is_set v.service.function_config) "function config can't be empty in function app"
      >> check_functions vs

  abbrev check_workload : String → Action S (Unit {0})
  check_workload w =
      guard (w == "deployment" || w == "daemonset" || w == "statefulset" || w == "job")
        "failed to parse service type, service type should be deployment / daemonset / statefulset / job"

module _ {S : Type 0} (api : AppServices S) where
  -- ImageTrim
  unfoldable pub image_trim : ApplicationView → ApplicationView
  image_trim app = on_services (λ s. record s { image = api.trim_space s.image }) app

  abbrev loaded : Result ApplicationView → Action S ApplicationView
  loaded (ok app) = pure app
  loaded (err e) = raise (invalid (api.error_text e))
  loaded panicked = panic

  abbrev finished : ApplicationView → Action S ApplicationView
  finished app =
      let full : ApplicationView = compatible_app_deprecated_field app in
      check_workload full.workload >> pure full

  abbrev parse_typed : ApplicationView → Action S ApplicationView
  parse_typed app =
      if app.app_type == "container"
      then (let trimmed : ApplicationView = image_trim app in
          check_containers trimmed.mode trimmed.services >> finished trimmed)
      else if app.app_type == "function"
      then (check_functions app.services
          >> guard (no_registries app.registries) "registries should be empty in function app"
          >> finished app)
      else if app.app_type == "helm" || app.app_type == "yaml"
      then pure app
      else raise (invalid "type is invalid")

  -- ParseApplication
  unfoldable pub parse_application : Request → Action S ApplicationView
  parse_application q = do
    body ← loaded (q.load_body q.name q.namespace)
    let app : ApplicationView = if q.name == "" then body else record body { name = q.name }
    guard (not (app.name == "")) "name is required"
    guard (not (ltb app_name_max_length (api.byte_length app.name))) "name is too long"
    parse_typed app

  -- getBaseAppIfSet
  unfoldable pub get_base_app_if_set : Request → Action S (Option Application)
  get_base_app_if_set q = elim q.base [
    | none ↦ pure none
    | some base ↦ api.app_get q.namespace base "" >>= λ app. pure (some app)
  ]

  -- ParseListOptionsAppendSystemLabel, of the label selector.
  unfoldable pub append_system_label : String → String
  append_system_label ls =
      if contains ls "baetyl-cloud-system"
      then ls
      else str_append (if api.trim_space ls == "" then ls else str_append ls ",")
          "!baetyl-cloud-system"

-- models.AppItem, with the fields that its view changes.
pub record AppItem : Type 0 where
  pub mode : String
  pub labels : Dict String

-- ToApplicationListView
unfoldable pub to_application_list_view : List AppItem → List AppItem
to_application_list_view [] = []
to_application_list_view (a ∷ rest) =
    record {
      mode = if a.mode == "" then "kube" else a.mode;
      labels = erase label_app_mode a.labels;
    }
    ∷ to_application_list_view rest
