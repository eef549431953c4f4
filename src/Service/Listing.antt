-- ===== src/Service/Listing.antt =====
-- service/node.go: the listing of nodes, and the cache of their reports and report times.
pub mod Caches
pub mod Lists
pub mod Orders
pub mod Times
use Prim.Native.String.{◌++◌ as str_append, compare}
use text.Mathlib.Text.{is_lt}
use baetyl_cloud.Common.{
  ℕ, zero, suc, ◌+◌, ◌*◌, ◌%◌, String, Bool, true, false, not, ◌&&◌, ◌||◌, Option, none, some, List,
  [], ◌∷◌, ◌++◌, map, ◌==◌, if◌then◌else◌, ltb, nat_eq, length, is_some,
}
use baetyl_cloud.Common.Action.{
  Error, coded, Code, resource_not_found, Result, ok, err, panicked, Action, pure, raise, lift,
  ◌>>=◌, ◌>>◌, attempt,
}
use baetyl_cloud.Common.Dict.{Dict, lookup, insert}
use baetyl_cloud.Spec.{Node, Value, apps, props, times, time, str, other}
use baetyl_cloud.Plugin.{Shadow}
use baetyl_cloud.Models.Filter.{Filter, NodeOptions, ListOptions, int_mod, get_paging_param, slice}

-- models.NodeList, and an item of models.ShadowList for the cache.
pub record NodeList : Type 0 where
  pub total : ℕ
  pub items : List Node

pub record ShadowItem : Type 0 where
  pub name : String
  pub time : ℕ
  pub report_text : String

-- plugin/cache.go; data that are not there are `none`.
pub record DataCache (S : Type 0) : Type 0 where
  pub exist : String → Action S Bool
  pub get_byte : String → Action S (Option String)
  pub set_byte : String → String → Action S (Unit {0})
  pub get_string : String → Action S String
  pub set_string : String → String → Action S (Unit {0})
  pub delete : String → Action S (Unit {0})

-- Go's time, strconv and json: an instant is its nanoseconds behind the zero time, a duration and
-- an int are words of 64 bits. `parse_time` is `none` where time.Parse gives an error, and
-- `frequency_key` is specV1.BaetylCoreFrequency.
pub record Formats : Type 0 where
  pub frequency_key : String
  pub parse_time : String → Option ℕ
  pub format_time : ℕ → String
  pub add_time : ℕ → ℕ → ℕ
  pub atoi : String → Result ℕ
  pub encode_times : Dict String → Result String
  pub decode_times : String → Result (Dict String)
  pub decode_report : String → Result (Dict Value)

-- What the listing asks of the stores: plugin.Node, plugin.Shadow and the runtime's `go`.
pub record ListingPlugin (S : Type 0) : Type 0 where
  pub list_node : String → ListOptions → Action S NodeList
  pub count_all_node : Action S ℕ
  pub list_all : String → Action S (List ShadowItem)
  pub list_shadow_by_names : String → List String → Action S (List ShadowItem)
  pub spawn : Action S (Unit {0}) → Action S (Unit {0})
  pub now : Action S ℕ
  pub minutes_ago : ℕ → Action S String

-- cachemsg: GetShadowReportTimeCacheKey, GetShadowReportCacheKey and CacheReportSetLock
unfoldable pub report_time_key : String → String
report_time_key ns = str_append "shadow-" (str_append ns "-time")

unfoldable pub report_key : String → String → String
report_key ns name =
    str_append "shadow-" (str_append ns (str_append "-" (str_append name "-report")))

abbrev pub report_set_lock : String
report_set_lock = "cache-report-lock"

abbrev pub init {ℓ} : {A : Type ℓ} → A → List A → List A × A
init x [] = ([], x)
init x (y ∷ ys) = let r = init y ys in (x ∷ r.0, r.1)

-- reverseLieNodeSlice: the loop on s[i..j], which swaps the ends and goes on between them.
unfoldable pub swap_ends {ℓ} : {A : Type ℓ} → ℕ → List A → List A
swap_ends zero xs = xs
swap_ends (suc fuel) [] = []
swap_ends (suc fuel) (x ∷ []) = x ∷ []
swap_ends (suc fuel) (x ∷ y ∷ ys) = let r = init y ys in r.1 ∷ (swap_ends fuel r.0 ++ x ∷ [])

unfoldable pub reverse_nodes {ℓ} : {A : Type ℓ} → List A → List A
reverse_nodes xs = swap_ends (length xs) xs

-- node.Attributes[BaetylCoreFrequency].(string)
abbrev as_text : Option Value → Option String
as_text (some (str s)) = some s
as_text _ = none

abbrev missing : String → Node → Error
missing kind n = coded resource_not_found (("type", kind) ∷ ("namespace", n.namespace) ∷ [])

abbrev or_zero : Option ℕ → ℕ
or_zero none = 0
or_zero (some t) = t

abbrev pub or_empty : Option String → String
or_empty none = ""
or_empty (some s) = s

-- The switch of filterListNode: whether a node with that report time and deadline stays.
unfoldable pub is_ready : String → ℕ → ℕ → ℕ → Bool
is_ready ready now reported deadline =
    if ready == "online"
    then not (ltb deadline now)
    else if ready == "offline"
    then not (nat_eq reported 0 || ltb now deadline)
    else if ready == "uninstall"
    then nat_eq reported 0
    else true

-- The second loop of SetNodeShadowCache.
unfoldable pub fill_times : String → List Node → Dict String → Dict String
fill_times never [] m = m
fill_times never (n ∷ ns) m =
    let rest : Dict String → Dict String = fill_times never ns in
    rest (if is_some (lookup n.name m) then m else insert n.name never m)

-- The first loop of SetNodeShadowCache.
unfoldable pub shadow_times : (ℕ → String) → List ShadowItem → Dict String → Dict String
shadow_times format [] m = m
shadow_times format (sh ∷ shs) m = shadow_times format shs (insert sh.name (format sh.time) m)

-- The reports of shadows by their names.
unfoldable pub report_texts : List ShadowItem → Dict String → Dict String
report_texts [] m = m
report_texts (sh ∷ shs) m = report_texts shs (insert sh.name sh.report_text m)

-- for key, value := range updateMap { reportMap[key] = value }
unfoldable pub put_all : Dict String → Dict (Option String) → Dict (Option String)
put_all [] m = m
put_all ((k, v) ∷ es) m = put_all es (insert k (some v) m)

abbrev pub sorted_in : Bool → Node → List Node × List Node → List Node × List Node
sorted_in true n r = (n ∷ r.0, r.1)
sorted_in false n r = (r.0, n ∷ r.1)

module _ {S : Type 0} (plugins : ListingPlugin S) (cache : DataCache S) (formats : Formats) where
  abbrev interval : Node → Option String → Result ℕ
  interval n none = err (missing formats.frequency_key n)
  interval n (some freq) = elim (formats.atoi freq) [
    | ok f ↦ ok ((f + 20) % int_mod * 1000000000 % int_mod)
    | err e ↦ err e
    | panicked ↦ panicked
  ]

  -- GetNodeAfterTime
  unfoldable pub get_node_after_time : Node → Result ℕ
  get_node_after_time n = elim n.attributes [
    | none ↦ err (missing "Attributes" n)
    | some d ↦ interval n (as_text (lookup formats.frequency_key d))
  ]

  abbrev pub reported_at : String → ℕ
  reported_at s = or_zero (formats.parse_time s)

  abbrev online_at : String → ℕ → Action S Bool
  online_at reported after =
      if reported == ""
      then pure false
      else plugins.now >>= λ t. pure (ltb t (formats.add_time (reported_at reported) after))

  -- One round of the loop of defaultListNode: whether the node is online.
  unfoldable pub is_online : Dict String → Node → Action S Bool
  is_online report_times n = do
    after ← lift (get_node_after_time n)
    online_at (or_empty (lookup n.name report_times)) after

  unfoldable pub split_online : Dict String → List Node → Action S (List Node × List Node)
  split_online report_times [] = pure ([], [])
  split_online report_times (n ∷ ns) = do
    online ← is_online report_times n
    rest ← split_online report_times ns
    pure (sorted_in online n rest)

  -- defaultListNode
  unfoldable pub default_list_node : Dict String → List Node → Action S (List Node)
  default_list_node report_times items = do r ← split_online report_times items; pure (r.0 ++ r.1)
