-- ===== src/Spec/Desire.antt =====
-- The methods of specV1.Desire and specV1.Report in baetyl-go, and its label selectors, which
-- the services call and this repository does not implement.
use baetyl_cloud.Common.{String, ◌≡◌, Bool, true, false, Option, List, []}
use baetyl_cloud.Common.Action.{Result}
use baetyl_cloud.Common.Dict.{Dict}
use baetyl_cloud.Spec.{AppInfo, Value}

pub record DesireApi : Type 0 where
  -- AppInfos and SetAppInfos; the flag chooses the system applications.
  pub app_infos : Dict Value → Bool → List AppInfo
  pub set_app_infos : Dict Value → Bool → List AppInfo → Dict Value
  -- Merge
  pub merge : Dict Value → Dict Value → Result (Dict Value)
  -- DiffWithNil of a desire with a report, and of two maps of node properties; what the first
  -- lacks has the value nil in the difference.
  pub diff_with_nil : Dict Value → Dict Value → Result (Dict (Option Value))
  pub diff_props : Dict (Option String) → Dict (Option String) → Result (Dict (Option String))
  -- utils.IsLabelMatch
  pub is_label_match : String → Dict String → Result Bool

-- An empty desire has no applications; what a list set is read back, and the other list stays.
pub record DesireLaws (api : DesireApi) : Type 0 where
  pub app_infos-nil : (sys : Bool) → api.app_infos [] sys ≡ []
  pub app_infos-set_same :
      (d : Dict Value) (sys : Bool) (xs : List AppInfo)
      → api.app_infos (api.set_app_infos d sys xs) sys ≡ xs
  pub app_infos-set_user :
      (d : Dict Value) (xs : List AppInfo)
      → api.app_infos (api.set_app_infos d true xs) false ≡ api.app_infos d false
  pub app_infos-set_sys :
      (d : Dict Value) (xs : List AppInfo)
      → api.app_infos (api.set_app_infos d false xs) true ≡ api.app_infos d true
