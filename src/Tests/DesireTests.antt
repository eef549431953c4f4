-- ===== src/Tests/DesireTests.antt =====
-- The desires of service/node.go over a concrete baetyl-go.
use baetyl_cloud.Common.{
  String, ◌≡◌, refl, Bool, true, false, Option, none, some, List, [], ◌∷◌, distinct, ◌↔◌,
}
use baetyl_cloud.Common.Action.{ok}
use baetyl_cloud.Common.Dict.{Dict, lookup, insert, lookup-insert}
use baetyl_cloud.Spec.{Application, AppInfo, Value, apps, cron_not_set}
use baetyl_cloud.Spec.Desire.{DesireApi, DesireLaws}
use baetyl_cloud.Models.Shadow.{new_shadow}
use baetyl_cloud.Service.Node.{
  refresh_infos, delete_infos, refresh_node_desire_by_app, delete_node_desire_by_app,
  rematch_applications_for_node, matches, rematch_infos,
}
use baetyl_cloud.Service.Node.Desires.{names, refresh_infos-distinct, delete_infos-refresh_infos}
use baetyl_cloud.Service.Node.Shadows.{desired, desired-refresh, desired-delete}
use baetyl_cloud.Service.Node.Rematching.{Occurs, IsDesired, IsNamed, rematch_lem}

abbrev key_of : Bool → String
key_of true = "sysapps"
key_of false = "apps"

abbrev infos_in : Option Value → List AppInfo
infos_in (some (apps xs)) = xs
infos_in _ = []

-- The two lists stand under their keys; a label selector is matched if it is a key.
abbrev pub sample_api : DesireApi
sample_api = record {
  app_infos = λ d sys. infos_in (lookup (key_of sys) d);
  set_app_infos = λ d sys xs. insert (key_of sys) (apps xs) d;
  merge = λ d e. ok e;
  diff_with_nil = λ d r. ok [];
  diff_props = λ a b. ok [];
  is_label_match = λ sel labels. ok (elim (lookup sel labels) [ none ↦ false | some v ↦ true ]);
}

sample_api-DesireLaws : DesireLaws sample_api
unfolding lookup
sample_api-DesireLaws = record {
  app_infos-nil = λ sys. refl;
  app_infos-set_same = λ d sys xs. same_key sys d xs;
  app_infos-set_user = λ d xs. simp lookup-insert;
  app_infos-set_sys = λ d xs. simp lookup-insert;
}
  where
    same_key :
        (sys : Bool) (d : Dict Value) (xs : List AppInfo)
        → infos_in (lookup (key_of sys) (insert (key_of sys) (apps xs) d)) ≡ xs
    same_key true d xs = simp lookup-insert
    same_key false d xs = simp lookup-insert

abbrev pub web : Application
web = record {
  name = "web";
  namespace = "default";
  version = "2";
  selector = "edge";
  system = false;
  cron_status = cron_not_set;
  cron_time = 0;
  services = [];
  volumes = [];
}

abbrev pub db : Application
db = record web { name = "db"; version = "5"; selector = "db" }

abbrev pub info : String → String → AppInfo
info name version = record { name = name; version = version }

desired-refresh_example :
    desired sample_api sample_api-DesireLaws
      (refresh_node_desire_by_app sample_api (new_shadow "default" "n1") web)
      false
      "web"
    ≡ some "2"
desired-refresh_example =
    desired-refresh sample_api sample_api-DesireLaws (new_shadow "default" "n1") web false "web"

desired-delete_example :
    desired sample_api sample_api-DesireLaws
      (delete_node_desire_by_app sample_api (new_shadow "default" "n1") web)
      false
      "web"
    ≡ none
desired-delete_example =
    desired-delete sample_api sample_api-DesireLaws (new_shadow "default" "n1") web false "web"

delete_infos-refresh_infos_example :
    delete_infos web (refresh_infos web (info "db" "1" ∷ [])) ≡ info "db" "1" ∷ []
unfolding delete_infos
delete_infos-refresh_infos_example = delete_infos-refresh_infos web (info "db" "1" ∷ [])

refresh_infos-distinct_example :
    distinct (names (refresh_infos web (info "db" "1" ∷ info "web" "1" ∷ []))) ≡ true
refresh_infos-distinct_example =
    refresh_infos-distinct web (info "db" "1" ∷ info "web" "1" ∷ []) refl

rematch_lem_example :
    (users : List AppInfo) × (systems : List AppInfo) × (names : List String)
    × (rematch_applications_for_node sample_api (web ∷ db ∷ []) (("edge", "yes") ∷ [])
        ≡ (("apps", apps users) ∷ ("sysapps", apps systems) ∷ [], names))
    × (Occurs (info "web" "2") users
        ↔ IsDesired sample_api (("edge", "yes") ∷ []) (web ∷ db ∷ []) false (info "web" "2"))
    × (Occurs (info "web" "2") systems
        ↔ IsDesired sample_api (("edge", "yes") ∷ []) (web ∷ db ∷ []) true (info "web" "2"))
    × (Occurs "web" names ↔ IsNamed sample_api (("edge", "yes") ∷ []) (web ∷ db ∷ []) "web")
rematch_lem_example =
    rematch_lem sample_api (("edge", "yes") ∷ []) (web ∷ db ∷ []) (info "web" "2") "web"

-- The one application whose selector is matched is taken.
rematched :
    rematch_applications_for_node sample_api (web ∷ db ∷ []) (("edge", "yes") ∷ [])
    ≡ (("apps", apps (info "web" "2" ∷ [])) ∷ ("sysapps", apps []) ∷ [], "web" ∷ [])
unfolding rematch_applications_for_node rematch_infos matches lookup
rematched = refl
