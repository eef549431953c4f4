-- ===== src/Tests/NodeTests.antt =====
-- The node store at a concrete table.
use baetyl_cloud.Common.{
  suc, String, ◌≡◌, refl, true, List, [], ◌∷◌, ◌++◌, map, if◌then◌else◌, nat_eq,
}
use baetyl_cloud.Common.Action.{plain, Result, ok, err, panicked, Action}
use baetyl_cloud.Common.Dict.{lookup, insert}
use baetyl_cloud.Service.Config.{same_map}
use baetyl_cloud.Database.Keyed.{find}
use baetyl_cloud.Database.Nodes.{
  NodeModel, NodeRow, NodeFormat, to_node_model, from_node_model, equal_node,
}
use baetyl_cloud.Database.Nodes.Store.{
  NodeConn, NodeLibrary, get_node, update_node, get_and_update_node_tx, some_equal, update_node_tx,
  pass, case_name, update_rows,
}

abbrev a_format : NodeFormat
a_format = record {
  encode = λ d. ok "{}";
  decode = λ s. ok [];
  encode_attributes = λ d. ok "{}";
  decode_attributes = λ s. ok [];
  key_accelerator = "accelerator";
  key_sync_mode = "mode";
  key_cluster = "cluster";
  key_link = "link";
  key_core_id = "coreId";
  key_optional_sys_apps = "apps";
  key_core_frequency = "frequency";
  key_core_api_port = "api";
  key_agent_port = "agent";
  key_core_version = "core";
  cloud_mode = "cloud";
}

-- A version for each call: the second ends in another text than all later ones.
abbrev gen_version : Action NodeConn String
gen_version c = (
  ok (if nat_eq c.tables.next_id 3 then "first" else "later"),
  record c { tables = record c.tables { next_id = suc c.tables.next_id } },
)

abbrev a_library : NodeLibrary
a_library = record {
  gen_version = gen_version;
  like = λ a b. true;
  newest_first = λ rs. rs;
  is_label_match = λ a b. ok true;
  empty_in = plain "empty slice";
  unique = true;
}

abbrev a_row : String → NodeRow
a_row name = record {
  id = 1;
  namespace = "default";
  name = name;
  labels = "{}";
  version = "old";
  core_version = "";
  node_mode = "kube";
  description = "";
  annotations = "";
  attributes = "";
  create_time = 0;
}

abbrev two_rows : NodeConn
two_rows = record {
  faults = [];
  tables = record { rows = a_row "n1" ∷ a_row "n2" ∷ []; next_id = 3; clock = 0 };
}

abbrev got : Result NodeModel → List NodeModel
got (ok n) = n ∷ []
got (err e) = []
got panicked = []

abbrev described : String → NodeModel → NodeModel
described words n = record n { description = words }

abbrev first_node : List NodeModel
first_node = got (get_node a_format a_library "default" "n1" two_rows).0

abbrev second_node : List NodeModel
second_node = map (described "new") (got (get_node a_format a_library "default" "n2" two_rows).0)

abbrev versions : Result (List NodeModel) → List String
versions (ok ns) = map (λ (n : NodeModel). n.version) ns
versions (err e) = []
versions panicked = []

abbrev after_one : Result (List NodeModel) × NodeConn
after_one = update_node a_format a_library true "default" second_node two_rows

-- The node that an update gives back has another version than its row.
other_version :
    (versions after_one.0 ≡ "later" ∷ [])
    × (map (λ (r : NodeRow). r.version) after_one.1.tables.rows ≡ "old" ∷ "first" ∷ [])
unfolding update_node get_and_update_node_tx some_equal update_node_tx pass case_name update_rows
    get_node to_node_model from_node_model equal_node same_map find lookup insert
other_version = (refl, refl)

abbrev after_both : Result (List NodeModel) × NodeConn
after_both = update_node a_format a_library true "default" (second_node ++ first_node) two_rows

-- Where one node is as it was stored, the other is not written either.
nothing_written : after_both.1.tables.rows ≡ two_rows.tables.rows
unfolding update_node get_and_update_node_tx some_equal update_node_tx pass case_name update_rows
    get_node to_node_model from_node_model equal_node same_map find lookup insert
nothing_written = refl
