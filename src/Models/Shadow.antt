-- ===== src/Models/Shadow.antt =====
-- models/shadow.go
use baetyl_cloud.Common.{String, Option, none, some, [], ◌∷◌}
use baetyl_cloud.Common.Dict.{Dict}
use baetyl_cloud.Spec.{Node, Value, apps}
use baetyl_cloud.Plugin.{Shadow}

-- BuildEmptyApps
unfoldable pub build_empty_apps : Dict Value
build_empty_apps = ("apps", apps []) ∷ ("sysapps", apps []) ∷ []

-- NewShadow
unfoldable pub new_shadow : String → String → Shadow
new_shadow namespace name = record {
  namespace = namespace;
  name = name;
  report = some build_empty_apps;
  desire = some build_empty_apps;
  report_meta = some [];
  desire_meta = some [];
  creation_timestamp = 0;
  desire_version = "";
  time = 0;
  report_text = "";
}

abbrev or_empty_apps : Option (Dict Value) → Option (Dict Value)
or_empty_apps none = some build_empty_apps
or_empty_apps (some d) = some d

-- NewShadowFromNode
unfoldable pub new_shadow_from_node : Node → Shadow
new_shadow_from_node node = record {
  namespace = node.namespace;
  name = node.name;
  report = or_empty_apps node.report;
  desire = or_empty_apps node.desire;
  report_meta = some [];
  desire_meta = some [];
  creation_timestamp = node.creation_timestamp;
  desire_version = "";
  time = 0;
  report_text = "";
}
