-- ===== src/Service/NodeOps/Reporting.antt =====
-- service/node.go: the reports of nodes, with the times of their properties.
use baetyl_cloud.Common.{ℕ, String, Option, none, some, [], ◌∷◌}
use baetyl_cloud.Common.Action.{Result, ok, err, panicked, Action, pure, lift, ◌>>=◌, ◌>>◌}
use baetyl_cloud.Common.Dict.{Dict, insert, erase}
use baetyl_cloud.Spec.{Node, Value, props, time}
use baetyl_cloud.Spec.Desire.{DesireApi}
use baetyl_cloud.Plugin.{Shadow, AppPlugin, IndexPlugin, NodePlugin, ShadowPlugin}
use baetyl_cloud.Models.Shadow.{new_shadow}
use baetyl_cloud.Service.NodeOps.{
  Hooks, get_node_properties_meta, update_node_properties_meta, as_props, at_key, stamp,
}

abbrev or_given : Option (Dict Value) → Option (Dict Value) → Option (Dict Value)
or_given none d = d
or_given (some g) d = some g

-- The end of updateReportNodeProperties; a nil map cannot be written to.
abbrev pub put_props : Dict (Option String) → Option (Dict Value) → Result (Option (Dict Value))
put_props [] none = ok none
put_props [] (some r) = ok (some (erase "nodeprops" r))
put_props (p ∷ ps) none = panicked
put_props (p ∷ ps) (some r) = ok (some (insert "nodeprops" (props (p ∷ ps)) r))

abbrev pub or_no_diff : Result (Dict (Option String)) → Dict (Option String)
or_no_diff (ok d) = d
or_no_diff (err e) = []
or_no_diff panicked = []

-- A write of a report's entry into the shadow's report; a nil map cannot be written to.
abbrev copy_entry :
    String → Option (Dict Value) → Option (Dict Value) → Result (Option (Dict Value))
copy_entry k report target = elim (at_key k report) [
  | none ↦ ok target
  | some v ↦ elim target [ none ↦ panicked | some d ↦ ok (some (insert k v d)) ]
]

module _ {S : Type 0} (api : DesireApi) (apps : AppPlugin S) (index : IndexPlugin S)
    (nodes : NodePlugin S) (shadows : ShadowPlugin S)
    (gen_apps : String → Node → Action S (Unit {0})) (hooks : Hooks S) (now : Action S ℕ) where
  -- createShadow
  unfoldable pub create_shadow :
      String → String → Option (Dict Value) → Option (Dict Value) → Action S Shadow
  create_shadow ns name desire report =
      let sh = new_shadow ns name in
      shadows.create_shadow
        (record sh { desire = or_given desire sh.desire; report = or_given report sh.report })

  -- if report != nil { report["time"] = time.Now() }
  abbrev pub timed : Option (Dict Value) → Action S (Option (Dict Value))
  timed none = pure none
  timed (some r) = do t ← now; pure (some (insert "time" (time t) r))

  -- updateReportNodeProperties; an error of DiffWithNil is not looked at, and gives no difference.
  unfoldable pub update_report_node_properties :
      String → String → Option (Dict Value) → Shadow → Action S Shadow
  update_report_node_properties ns name report sh = do
    n ← nodes.get_node ns name
    let new_props = as_props (at_key "nodeprops" report)
    let old_props = as_props (at_key "nodeprops" sh.report)
    let diff = or_no_diff (api.diff_props new_props old_props)
    let meta = get_node_properties_meta n
    t ← now
    nodes.update_node ns (
        update_node_properties_meta n (record meta { report_meta = stamp t diff meta.report_meta }))
    r ← lift (put_props new_props sh.report)
    pure (record sh { report = r })

  abbrev pub first_report : String → String → Option (Dict Value) → Action S Shadow
  first_report ns name report = do nodes.get_node ns name; create_shadow ns name none report

  abbrev pub report_to : String → String → Option (Dict Value) → Option Shadow → Action S Shadow
  report_to ns name report none = first_report ns name report
  report_to ns name report (some sh) = do
    sh' ← update_report_node_properties ns name report (record sh { report = report })
    shadows.update_report sh'

  -- UpdateReport
  unfoldable pub update_report : String → String → Option (Dict Value) → Action S Shadow
  update_report ns name report = do
    sh ← shadows.get_shadow ns name
    timed_report ← timed report
    report_to ns name timed_report sh

  abbrev init_report_to : String → String → Option (Dict Value) → Option Shadow → Action S Shadow
  init_report_to ns name report none = first_report ns name report
  init_report_to ns name report (some sh) = do
    r₁ ← lift (copy_entry "sysapps" report sh.report)
    r₂ ← lift (copy_entry "sysappstats" report r₁)
    shadows.update_report (record sh { report = r₂ })

  -- UpdateInitReport
  unfoldable pub update_init_report : String → String → Option (Dict Value) → Action S Shadow
  update_init_report ns name report = do
    sh ← shadows.get_shadow ns name
    timed_report ← timed report
    init_report_to ns name timed_report sh
