-- ===== src/Tests/ListingTests.antt =====
-- The listing of nodes and their properties at concrete nodes.
use baetyl_cloud.Common.{ℕ, String, ◌≡◌, refl, Bool, true, false, none, some, [], ◌∷◌, length, keep}
use baetyl_cloud.Common.Action.{ok, pure}
use baetyl_cloud.Common.Dict.{Dict, lookup}
use baetyl_cloud.Spec.{Node, str}
use baetyl_cloud.Service.Listing.{
  DataCache, Formats, ListingPlugin, reverse_nodes, default_list_node, split_online, is_online,
  get_node_after_time,
}
use baetyl_cloud.Service.Listing.Orders.{reverse_nodes-reverse, default_list_node-count}
use baetyl_cloud.Service.NodeOps.{stamp}
use baetyl_cloud.Service.NodeOps.Stamps.{lookup-stamp}

abbrev pub named : String → Bool → Node
named name cluster = record {
  name = name;
  namespace = "default";
  version = "1";
  labels = [];
  cluster = cluster;
  attributes = some (("freq", str "20") ∷ []);
  report = none;
  desire = none;
  creation_timestamp = 0;
}

abbrev off_line : Node
off_line = named "n1" true

abbrev on_line : Node
on_line = named "n2" false

abbrev some_formats : Formats
some_formats = record {
  frequency_key = "freq";
  parse_time = λ s. some 5;
  format_time = λ t. "0001-01-01T00:00:00Z";
  add_time = λ t d. t;
  atoi = λ s. ok 20;
  encode_times = λ m. ok "";
  decode_times = λ s. ok [];
  decode_report = λ s. ok [];
}

abbrev some_plugins : ListingPlugin ℕ
some_plugins = record {
  list_node = λ ns l. pure (record { total = 0; items = [] });
  count_all_node = pure 0;
  list_all = λ ns. pure [];
  list_shadow_by_names = λ ns names. pure [];
  spawn = λ m. m;
  now = λ s. (ok 1, s);
  minutes_ago = λ n. pure "";
}

abbrev some_cache : DataCache ℕ
some_cache = record {
  exist = λ k. pure false;
  get_byte = λ k. pure none;
  set_byte = λ k v. pure tt;
  get_string = λ k. pure "";
  set_string = λ k v. pure tt;
  delete = λ k. pure tt;
}

abbrev some_times : Dict String
some_times = ("n2", "2024-01-01T00:00:00Z") ∷ []

reverse_nodes-reverse_example : reverse_nodes {A = ℕ} (1 ∷ 2 ∷ 3 ∷ []) ≡ 3 ∷ 2 ∷ 1 ∷ []
reverse_nodes-reverse_example = reverse_nodes-reverse {A = ℕ} (1 ∷ 2 ∷ 3 ∷ [])

default_list_node-count_example :
    length (keep (λ (n : Node). n.cluster) (on_line ∷ off_line ∷ []))
    ≡ length (keep (λ (n : Node). n.cluster) (off_line ∷ on_line ∷ []))
unfolding default_list_node split_online is_online get_node_after_time lookup
default_list_node-count_example =
    default_list_node-count some_plugins some_cache some_formats some_times (λ n. n.cluster)
      (off_line ∷ on_line ∷ []) (on_line ∷ off_line ∷ []) 0 0 refl

lookup-stamp_example :
    lookup "power" (stamp 7 (("power", some "on") ∷ ("heat", none) ∷ []) (("heat", 3) ∷ []))
    ≡ some 7
unfolding lookup
lookup-stamp_example =
    lookup-stamp 7 (("power", some "on") ∷ ("heat", none) ∷ []) (("heat", 3) ∷ []) "power" refl
