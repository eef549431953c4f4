-- ===== src/Service/Listing/Lists.antt =====
-- service/node.go: List, its filters and its counts.
use baetyl_cloud.Common.{
  ℕ, String, Bool, true, false, not, ◌&&◌, ◌||◌, Option, none, some, List, [], ◌∷◌, map, ◌==◌,
  if◌then◌else◌, length, nat_eq,
}
use baetyl_cloud.Common.Action.{Result, ok, Action, pure, lift, ◌>>=◌}
use baetyl_cloud.Common.Dict.{Dict, lookup}
use baetyl_cloud.Spec.{Node, Value}
use baetyl_cloud.Models.Filter.{NodeOptions, ListOptions, get_paging_param, slice}
use baetyl_cloud.Service.Listing.{
  NodeList, DataCache, Formats, ListingPlugin, reverse_nodes, is_ready, get_node_after_time,
  default_list_node, reported_at, or_empty,
}
use baetyl_cloud.Service.Listing.Caches.{
  get_all_shadow_report_time, get_shadow_report_cache_by_names,
}

abbrev same_flag : Bool → Bool → Bool
same_flag true b = b
same_flag false b = not b

-- The cluster filter.
abbrev pub is_wanted_cluster : String → Node → Bool
is_wanted_cluster c n = if c == "" then true else same_flag n.cluster (c == "cluster")

abbrev pub add_if : Bool → Node → List Node → List Node
add_if true n rest = n ∷ rest
add_if false n rest = rest

module _ {S : Type 0} (plugins : ListingPlugin S) (cache : DataCache S) (formats : Formats) where
  -- The ready filter. The clock is read where the switch does.
  abbrev pub checked_ready : String → ℕ → ℕ → Action S Bool
  checked_ready ready reported deadline =
      if ready == "online" || (ready == "offline" && not (nat_eq reported 0))
      then (plugins.now >>= λ t. pure (is_ready ready t reported deadline))
      else pure (is_ready ready 0 reported deadline)

  abbrev pub is_wanted_ready : String → Dict String → Node → Action S Bool
  is_wanted_ready ready report_times n = do
    after ← lift (get_node_after_time plugins cache formats n)
    let reported : ℕ = reported_at plugins cache formats (or_empty (lookup n.name report_times))
    checked_ready ready reported (formats.add_time reported after)

  abbrev pub is_wanted : NodeOptions → Dict String → Node → Action S Bool
  is_wanted o report_times n =
      if not (is_wanted_cluster o.cluster n)
      then pure false
      else if o.ready == ""
      then pure true
      else is_wanted_ready o.ready report_times n

  -- The loop of filterListNode.
  unfoldable pub filter_nodes : NodeOptions → Dict String → List Node → Action S (List Node)
  filter_nodes o report_times [] = pure []
  filter_nodes o report_times (n ∷ ns) = do
    b ← is_wanted o report_times n
    rest ← filter_nodes o report_times ns
    pure (add_if b n rest)

  abbrev pub in_order : NodeOptions → List Node → List Node
  in_order o ns = if o.create_sort == "asc" then reverse_nodes ns else ns

  -- filterListNode
  unfoldable pub filter_list_node : NodeOptions → Dict String → List Node → Action S (List Node)
  filter_list_node o report_times items = do
    found ←
        (if not (o.ready == "") || not (o.cluster == "")
          then filter_nodes o report_times items
          else pure items)
    pure (in_order o found)

  abbrev is_filtered : NodeOptions → Bool
  is_filtered o = not (o.create_sort == "") || not (o.ready == "") || not (o.cluster == "")

  abbrev ordered : ListOptions → Dict String → NodeList → Action S NodeList
  ordered l report_times list =
      if is_filtered l.node_options
      then (do
        ns ← filter_list_node l.node_options report_times list.items
        pure (record { total = length ns; items = ns }))
      else (do
        ns ← default_list_node plugins cache formats report_times list.items
        pure (record list { items = ns }))

  abbrev read_report : Option String → Result (Dict Value)
  read_report none = ok []
  read_report (some text) = formats.decode_report text

  abbrev flat : Option (Option String) → Option String
  flat none = none
  flat (some r) = r

  -- The loop that sets the report of every node.
  unfoldable pub set_node_reports : Dict (Option String) → List Node → Action S (List Node)
  set_node_reports reports [] = pure []
  set_node_reports reports (n ∷ ns) = do
    r ← lift (read_report (flat (lookup n.name reports)))
    rest ← set_node_reports reports ns
    pure (record n { report = some r } ∷ rest)

  abbrev page_nodes : ListOptions → NodeList → Result (List Node)
  page_nodes l list =
      let bounds = (get_paging_param l.filter list.total).0 in slice list.items bounds.0 bounds.1

  abbrev listed : String → ListOptions → NodeList → Action S NodeList
  listed ns l list = do
    report_times ← get_all_shadow_report_time plugins cache formats ns list.items
    sorted ← ordered l report_times list
    page ← lift (page_nodes l sorted)
    reports ←
        get_shadow_report_cache_by_names plugins cache formats ns (map (λ (n : Node). n.name) page)
    items ← set_node_reports reports page
    pure (record sorted { items = items })

  abbrev list_found : String → ListOptions → NodeList → List Node → Action S NodeList
  list_found ns l list [] = pure list
  list_found ns l list (n ∷ more) = listed ns l list

  -- List
  unfoldable pub list_nodes : String → ListOptions → Action S NodeList
  list_nodes ns l = do list ← plugins.list_node ns l; list_found ns l list list.items

  abbrev no_options : ListOptions
  no_options = record {
    filter = record { page_no = 0; page_size = 0; name = "" };
    node_options = record { cluster = ""; ready = ""; create_sort = "" };
    keyword = "";
    alias = "";
  }

  -- Count: the number under QuotaNode.
  unfoldable pub count : String → Action S ℕ
  count ns = do list ← list_nodes ns no_options; pure (length list.items)

  -- CountAll
  unfoldable pub count_all : Action S ℕ
  count_all = plugins.count_all_node
