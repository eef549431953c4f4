-- ===== src/Api/Handlers.antt =====
-- The handlers of requests on one application.
use baetyl_cloud.Common.{
  String, Bool, true, false, not, ◌&&◌, ◌||◌, Option, none, some, List, [], ◌∷◌, ◌==◌,
  if◌then◌else◌, mem, has_prefix,
}
use baetyl_cloud.Common.Action.{
  coded, resource_invisible, resource_has_been_used, app_referenced_by_node, Action, pure, raise,
  ◌>>=◌, ◌>>◌, attempt,
}
use baetyl_cloud.Common.Dict.{Dict, lookup}
use baetyl_cloud.Spec.{CronStatus, cron_not_set, cron_wait, cron_finished}
use baetyl_cloud.Service.Config.{same_map}
use baetyl_cloud.Api.{Application, ApplicationView, AppServices}
use baetyl_cloud.Api.Secrets.{has_not_found_code}
use baetyl_cloud.Api.Conversion.{to_application, to_application_view}
use baetyl_cloud.Api.Validation.{guard, is_waiting, valid_application}
use baetyl_cloud.Api.Parsing.{Request, parse_application, get_base_app_if_set}

-- strconv.ParseBool gives true for these texts.
abbrev is_true : Option String → Bool
is_true none = false
is_true (some v) = mem v ("1" ∷ "t" ∷ "T" ∷ "true" ∷ "TRUE" ∷ "True" ∷ [])

-- ValidIsInvisible
unfoldable pub valid_is_invisible : Dict String → Bool
valid_is_invisible labels = is_true (lookup "resource-invisible" labels)

-- CheckIsSysResources
unfoldable pub check_is_sys_resources : Dict String → Bool
check_is_sys_resources labels = is_true (lookup "baetyl-cloud-system" labels)

abbrev pub same_status : CronStatus → CronStatus → Bool
same_status cron_not_set cron_not_set = true
same_status cron_wait cron_wait = true
same_status cron_finished cron_finished = true
same_status a b = false

abbrev is_not_set : CronStatus → Bool
is_not_set cron_not_set = true
is_not_set cron_wait = false
is_not_set cron_finished = false

-- Whether an update leaves what is fixed of a system application.
unfoldable pub keeps_system : Application → ApplicationView → Bool
keeps_system old view =
    not (check_is_sys_resources old.labels)
    || (old.selector == view.selector && same_map old.labels view.labels && view.system)

-- Whether an update may change the cron as it asks for.
unfoldable pub may_change_cron : CronStatus → CronStatus → Bool
may_change_cron old new = same_status new old || (is_waiting old && is_not_set new)

-- The hooks of an application over the air, where they are installed.
pub record Hooks (S : Type 0) : Type 0 where
  pub create_application_ota : Option (Application → Action S Application)
  pub update_application_ota : Option (Application → Action S Application)
  pub delete_application_ota : Option (Application → Action S (Unit {0}))

module _ {S : Type 0} (api : AppServices S) (hooks : Hooks S) where
  abbrev changed : Option (Application → Action S Application) → Application → Action S Application
  changed none app = pure app
  changed (some hook) app = hook app

  abbrev announced : Option (Application → Action S (Unit {0})) → Application → Action S (Unit {0})
  announced none app = pure tt
  announced (some hook) app = hook app

  abbrev refuse_invisible : Application → Action S (Unit {0})
  refuse_invisible app =
      if valid_is_invisible app.labels
      then raise (coded resource_invisible (("type", "app") ∷ ("name", app.name) ∷ []))
      else pure tt

  -- GetApplication
  unfoldable pub get_application : Request → Action S ApplicationView
  get_application q = do
    app ← api.facade_get_app q.namespace q.name ""
    refuse_invisible app
    to_application_view api app

  abbrev refuse_used : String → String → Action S (Unit {0})
  refuse_used ns name =
      attempt (api.app_get ns name "")
        (λ old.
          raise (coded resource_has_been_used (("error", "this name is already in use") ∷ [])))
        (λ e. if has_not_found_code e then pure tt else raise e)

  abbrev is_of_type : Option Application → String → Bool
  is_of_type none t = true
  is_of_type (some base) t = base.app_type == t

  -- CreateApplication
  unfoldable pub create_application : Request → Action S ApplicationView
  create_application q = do
    body ← parse_application api q
    view ← valid_application api q.namespace (record body { namespace = q.namespace })
    refuse_used q.namespace view.name
    base ← get_base_app_if_set api q
    guard (is_of_type base view.app_type) "the type of baseApp is conflicted"
    made ← to_application api view none
    app ← changed hooks.create_application_ota made.0
    created ← api.facade_create_app q.namespace base app made.1
    to_application_view api created

  -- The view of an update with what the old application fixes.
  unfoldable pub carried : Application → ApplicationView → ApplicationView
  carried old view = record view {
    cron_time =
        if same_status view.cron_status old.cron_status then old.cron_time else view.cron_time;
    version = old.version;
    creation_timestamp = old.creation_timestamp;
  }

  -- UpdateApplication
  unfoldable pub update_application : Request → Action S ApplicationView
  update_application q = do
    body ← parse_application api q
    view ← valid_application api q.namespace body
    old ← api.app_get q.namespace q.name ""
    refuse_invisible old
    guard (keeps_system old view) "selector，labels or system field can't be modified of sys apps"
    guard (may_change_cron old.cron_status view.cron_status)
        "failed to add cron, can't set up a cron job which has been deployed"
    made ← to_application api (carried old view) (some old)
    app ← changed hooks.update_application_ota (record made.0 { ota = old.ota })
    updated ← api.facade_update_app q.namespace old app made.1
    to_application_view api updated

  abbrev is_empty : List String → Bool
  is_empty [] = true
  is_empty (x ∷ xs) = false

  -- IsAppCanDelete
  unfoldable pub is_app_can_delete : String → String → Action S Bool
  is_app_can_delete ns name =
      if has_prefix name "baetyl-"
      then api.list_nodes_by_app ns name >>= (λ nodes. pure (is_empty nodes))
      else pure true

  abbrev delete_found : String → String → Application → Action S (Unit {0})
  delete_found ns name app = do
    can_delete ← is_app_can_delete ns name
    (if can_delete then pure tt else raise (coded app_referenced_by_node (("name", name) ∷ [])))
    announced hooks.delete_application_ota app
    api.facade_delete_app ns name app

  -- DeleteApplication
  unfoldable pub delete_application : Request → Action S (Unit {0})
  delete_application q =
      attempt (api.app_get q.namespace q.name "") (delete_found q.namespace q.name)
        (λ e. if has_not_found_code e then pure tt else raise e)
