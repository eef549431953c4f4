-- ===== src/Service/Node/Shadows.antt =====
-- What the two functions that UpdateDesire applies do to a shadow.
use baetyl_cloud.Common.{
  String, ◌≡◌, ap, Bool, true, false, not, ◌&&◌, Option, none, some, List, arith, ◌==◌,
  if◌then◌else◌, Option-cases, inl, inr,
}
use baetyl_cloud.Common.Dict.{Dict}
use baetyl_cloud.Spec.{Application, AppInfo, Value}
use baetyl_cloud.Spec.Desire.{DesireApi, DesireLaws}
use baetyl_cloud.Plugin.{Shadow}
use baetyl_cloud.Service.Node.{
  infos, refresh_infos, delete_infos, refresh_node_desire_by_app, delete_node_desire_by_app,
}
use baetyl_cloud.Service.Node.Desires.{
  version_of, version_of-refresh_infos, version_of-delete_infos,
}

abbrev pub same : Bool → Bool → Bool
same true b = b
same false b = not b

module _ (api : DesireApi) (laws : DesireLaws api) where
  -- The version that a shadow desires for an application, among the system or the user ones.
  abbrev pub desired : Shadow → Bool → String → Option String
  desired shadow sys name = version_of name (api.app_infos (infos shadow.desire) sys)

  -- Reading one list after a write of one, whose versions are known.
  version_of-set :
      (d : Dict Value) (s sys : Bool) (xs : List AppInfo) (name : String) (hit : Bool)
      (v : Option String)
      → version_of name xs ≡ (if hit then v else version_of name (api.app_infos d s))
      → version_of name (api.app_infos (api.set_app_infos d s xs) sys)
        ≡ (if same s sys && hit then v else version_of name (api.app_infos d sys))
  version_of-set d true true xs name hit v h = rw (laws.app_infos-set_same d true xs) h
  version_of-set d false false xs name hit v h = rw (laws.app_infos-set_same d false xs) h
  version_of-set d true false xs name hit v h = ap (version_of name) (laws.app_infos-set_user d xs)
  version_of-set d false true xs name hit v h = ap (version_of name) (laws.app_infos-set_sys d xs)

  -- Under the laws of desires, a refresh makes the shadow desire the application's version, in the list of its kind, and
  -- changes nothing else that the shadow desires.
  pub desired-refresh :
      (shadow : Shadow) (app : Application) (sys : Bool) (name : String)
      → desired (refresh_node_desire_by_app api shadow app) sys name ≡ (
          if same app.system sys && app.name == name
          then some app.version
          else desired shadow sys name)
  unfolding refresh_node_desire_by_app
  desired-refresh shadow app sys name =
      let d = infos shadow.desire in
      version_of-set d app.system sys (refresh_infos app (api.app_infos d app.system)) name
        (app.name == name) (some app.version)
        (version_of-refresh_infos app name (api.app_infos d app.system))

  -- Under the laws of desires, a deletion makes the shadow desire no version of the application in
  -- the list of its kind,
  -- and changes nothing else that the shadow desires.
  pub desired-delete :
      (shadow : Shadow) (app : Application) (sys : Bool) (name : String)
      → desired (delete_node_desire_by_app api shadow app) sys name
        ≡ (if same app.system sys && app.name == name then none else desired shadow sys name)
  unfolding delete_node_desire_by_app
  desired-delete shadow app sys name = elim (Option-cases shadow.desire) [
    | inl e ↦
        rw (e, delete_node_desire_by_app)
          (ground (arith, ap (version_of name) (laws.app_infos-nil sys)))
    | inr (d, e) ↦
        rw (e, delete_node_desire_by_app)
          (version_of-set d app.system sys (delete_infos app (api.app_infos d app.system)) name
            (app.name == name) none (version_of-delete_infos app name (api.app_infos d app.system)))
  ]
