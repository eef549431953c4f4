-- ===== src/Service/Node.antt =====
-- service/node.go: the part that matches applications with nodes.
pub mod Desires
pub mod Shadows
pub mod Rematching
use baetyl_cloud.Common.{
  ℕ, suc, String, Bool, true, false, not, ◌&&◌, Option, none, some, List, [], ◌∷◌, ◌++◌, map, ◌==◌,
  if◌then◌else◌,
}
use baetyl_cloud.Common.Action.{Result, ok, err, panicked}
use baetyl_cloud.Common.Dict.{Dict}
use baetyl_cloud.Spec.{Application, AppInfo, Value, apps}
use baetyl_cloud.Spec.Desire.{DesireApi}
use baetyl_cloud.Plugin.{Shadow}

-- What rematchApplicationsForNode collects.
pub record Rematch : Type 0 where
  pub desire_apps : List AppInfo
  pub sys_apps : List AppInfo
  pub app_names : List String

abbrev pub info_of : Application → AppInfo
info_of app = record { name = app.name; version = app.version }

abbrev pub is_match : Result Bool → Bool
is_match (ok b) = b
is_match (err e) = false
is_match panicked = false

abbrev pub add_match : Bool → Application → Rematch → Rematch
add_match false app m = m
add_match true app m =
    if app.system
    then record m { sys_apps = info_of app ∷ m.sys_apps; app_names = app.name ∷ m.app_names }
    else record m { desire_apps = info_of app ∷ m.desire_apps; app_names = app.name ∷ m.app_names }

abbrev pub infos : Option (Dict Value) → Dict Value
infos none = []
infos (some d) = d

-- The index of the last application of that name, if any.
unfoldable pub last_index : String → ℕ → Option ℕ → List AppInfo → Option ℕ
last_index name i idx [] = idx
last_index name i idx (a ∷ as') =
    last_index name (suc i) (if a.name == name then some i else idx) as'

-- apps[idx].Version = version
unfoldable pub set_version : ℕ → String → List AppInfo → List AppInfo
set_version i version [] = []
set_version ℕ.zero version (a ∷ as') = record a { version = version } ∷ as'
set_version (suc i) version (a ∷ as') = a ∷ set_version i version as'

abbrev at_index : Option ℕ → Application → List AppInfo → List AppInfo
at_index none app xs = xs ++ info_of app ∷ []
at_index (some i) app xs = set_version i app.version xs

-- The change of RefreshNodeDesireByApp to a list of applications.
unfoldable pub refresh_infos : Application → List AppInfo → List AppInfo
refresh_infos app xs = at_index (last_index app.name 0 none xs) app xs

-- The loop of DeleteNodeDesireByApp.
unfoldable pub delete_infos : Application → List AppInfo → List AppInfo
delete_infos app [] = []
delete_infos app (a ∷ as') =
    let rest = delete_infos app as' in if a.name == app.name then rest else a ∷ rest

module _ (api : DesireApi) where
  -- The test of rematchApplicationsForNode on one application.
  unfoldable pub matches : Dict String → Application → Bool
  matches labels app = not (app.selector == "") && is_match (api.is_label_match app.selector labels)

  unfoldable pub rematch_infos : List Application → Dict String → Rematch
  rematch_infos [] labels = record { desire_apps = []; sys_apps = []; app_names = [] }
  rematch_infos (app ∷ rest) labels = add_match (matches labels app) app (rematch_infos rest labels)

  -- rematchApplicationsForNode
  unfoldable pub rematch_applications_for_node :
      List Application → Dict String → Dict Value × List String
  rematch_applications_for_node all labels =
      let m = rematch_infos all labels in
      (("apps", apps m.desire_apps) ∷ ("sysapps", apps m.sys_apps) ∷ [], m.app_names)

  -- RefreshNodeDesireByApp
  unfoldable pub refresh_node_desire_by_app : Shadow → Application → Shadow
  refresh_node_desire_by_app shadow app =
      let desire = infos shadow.desire in
      record shadow {
        desire = some (
            api.set_app_infos desire app.system
              (refresh_infos app (api.app_infos desire app.system)));
      }

  -- DeleteNodeDesireByApp
  unfoldable pub delete_node_desire_by_app : Shadow → Application → Shadow
  delete_node_desire_by_app shadow app = elim shadow.desire [
    | none ↦ shadow
    | some desire ↦ record shadow {
      desire = some (
          api.set_app_infos desire app.system (delete_infos app (api.app_infos desire app.system)));
    }
  ]
