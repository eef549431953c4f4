-- ===== src/Service/Listing/Caches.antt =====
-- service/node.go: the cache of the reports and of the report times.
use Prim.Native.String.{compare}
use text.Mathlib.Text.{is_lt}
use baetyl_cloud.Common.{
  String, Bool, true, false, Option, none, some, List, [], ◌∷◌, ◌++◌, if◌then◌else◌, ltb, length,
}
use baetyl_cloud.Common.Action.{
  Result, ok, err, panicked, Action, pure, lift, panic, ◌>>=◌, ◌>>◌, attempt,
}
use baetyl_cloud.Common.Dict.{Dict, lookup, insert}
use baetyl_cloud.Spec.{Node}
use baetyl_cloud.Service.Listing.{
  DataCache, Formats, ListingPlugin, report_time_key, report_key, report_set_lock, fill_times,
  shadow_times, report_texts, put_all,
}

abbrev report_or_empty : Option String → String
report_or_empty none = "{}"
report_or_empty (some s) = s

module _ {S : Type 0} (plugins : ListingPlugin S) (cache : DataCache S) (formats : Formats) where
  abbrev filled : List Node → Dict String → Dict String
  filled nodes m =
      if ltb (length m) (length nodes) then fill_times (formats.format_time 0) nodes m else m

  -- SetNodeShadowCache
  unfoldable pub set_node_shadow_cache : String → List Node → Action S (Dict String)
  set_node_shadow_cache ns nodes = do
    shadows ← plugins.list_all ns
    let m = filled nodes (shadow_times formats.format_time shadows [])
    data_text ← lift (formats.encode_times m)
    cache.set_byte (report_time_key ns) data_text
    pure m

  abbrev decoded : String → List Node → Result (Dict String) → Action S (Dict String)
  decoded ns nodes (ok m) =
      if ltb (length m) (length nodes) then set_node_shadow_cache ns nodes else pure m
  decoded ns nodes (err e) = set_node_shadow_cache ns nodes
  decoded ns nodes panicked = panic

  abbrev cached_times : Option String → Result (Dict String)
  cached_times none = ok []
  cached_times (some text) = formats.decode_times text

  abbrev times_in_cache : String → List Node → Action S (Dict String)
  times_in_cache ns nodes = do
    text ← cache.get_byte (report_time_key ns)
    decoded ns nodes (cached_times text)

  -- GetAllShadowReportTime
  unfoldable pub get_all_shadow_report_time : String → List Node → Action S (Dict String)
  get_all_shadow_report_time ns nodes = do
    found ← cache.exist (report_time_key ns)
    if found then times_in_cache ns nodes else set_node_shadow_cache ns nodes

  -- The loop of setShadowReportCache; errors are logged only.
  unfoldable pub set_reports : Dict String → String → List String → Action S (Unit {0})
  set_reports reports ns [] = pure tt
  set_reports reports ns (name ∷ names) = do
    attempt (cache.set_byte (report_key ns name) (report_or_empty (lookup name reports))) pure
        (λ e. pure tt)
    set_reports reports ns names

  -- setShadowReportCache
  unfoldable pub set_shadow_report_cache : Dict String → String → List String → Action S (Unit {0})
  set_shadow_report_cache reports ns names = do
    set_reports reports ns names
    attempt (cache.delete report_set_lock) pure (λ e. pure tt)

  abbrev drop_lock : Bool → Action S (Unit {0})
  drop_lock true = attempt (cache.delete report_set_lock) pure (λ e. pure tt)
  drop_lock false = pure tt

  -- The lock is taken away where it is older than thirty minutes.
  abbrev old_lock : Action S (Unit {0})
  old_lock = do
    locked_at ← cache.get_string report_set_lock
    limit ← plugins.minutes_ago 30
    drop_lock (is_lt (compare locked_at limit))

  abbrev start_setting : Dict String → String → List String → Action S (Unit {0})
  start_setting reports ns names = do
    started ← plugins.minutes_ago 0
    cache.set_string report_set_lock started
    plugins.spawn (set_shadow_report_cache reports ns names)

  -- setShadowReportCacheByNames
  unfoldable pub set_shadow_report_cache_by_names : String → List String → Action S (Dict String)
  set_shadow_report_cache_by_names ns names = do
    shadows ← plugins.list_shadow_by_names ns names
    let reports = report_texts shadows []
    locked ← cache.exist report_set_lock
    if locked then old_lock else start_setting reports ns names
    pure reports

  -- A report in the cache; an error counts as none.
  abbrev cached_report : String → String → Action S (Option String)
  cached_report ns name = attempt (cache.get_byte (report_key ns name)) pure (λ e. pure none)

  abbrev missed_in : Option String → String → List String → List String
  missed_in none name missed = missed ++ name ∷ []
  missed_in (some r) name missed = missed

  -- The loop of GetShadowReportCacheByNames: the reports found, and the names that miss one, or
  -- `none` where more than ten do.
  unfoldable pub collect_reports :
      String
      → List String
      → List String
      → Dict (Option String)
      → Action S (Option (List String × Dict (Option String)))
  collect_reports ns [] missed m = pure (some (missed, m))
  collect_reports ns (name ∷ names) missed m = do
    r ← cached_report ns name
    let missed' = missed_in r name missed in
        if ltb 10 (length missed')
        then pure none
        else collect_reports ns names missed' (insert name r m)

  abbrev add_reports : String → List String → Dict (Option String) → Action S (Dict (Option String))
  add_reports ns names m = do
    more ← set_shadow_report_cache_by_names ns names
    pure (put_all more m)

  abbrev add_missed : String → List String → Dict (Option String) → Action S (Dict (Option String))
  add_missed ns [] m = pure m
  add_missed ns (x ∷ xs) m = add_reports ns (x ∷ xs) m

  abbrev completed :
      String
      → List String
      → Option (List String × Dict (Option String))
      → Action S (Dict (Option String))
  completed ns names none = add_reports ns names []
  completed ns names (some (missed, m)) = add_missed ns missed m

  -- GetShadowReportCacheByNames
  unfoldable pub get_shadow_report_cache_by_names :
      String → List String → Action S (Dict (Option String))
  get_shadow_report_cache_by_names ns names = do
    r ← collect_reports ns names [] []
    completed ns names r
