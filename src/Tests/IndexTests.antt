-- ===== src/Tests/IndexTests.antt =====
-- plugin/database/index.go at concrete tables.
use baetyl_cloud.Common.{String, ◌≡◌, ◌≢◌, refl, List, [], ◌∷◌, mem}
use baetyl_cloud.Common.Action.{Result, ok, err, panicked}
use baetyl_cloud.Common.Dict.{lookup, insert}
use baetyl_cloud.Database.Index.{
  application, config, node, IndexStore, get_table, pair_key, table_name, create_all, create_index,
  list_index, delete_index, refresh_index, selected, select,
}
use baetyl_cloud.Database.Index.Names.{CacheIsRight, get_table_lem}
use baetyl_cloud.Database.Index.Answers.{refresh_index-answers}
use baetyl_cloud.Database.Index.Rows.{refresh_index-rows}
use baetyl_cloud.Database.Index.Promise.{
  list-refresh, list-refresh_other_side, list-refresh_other_value,
}

abbrev pub empty_store : IndexStore
empty_store = record { cache = []; conn = record { faults = []; tables = [] } }

abbrev one_app : IndexStore
one_app = (refresh_index "default" application config "app" ("c1" ∷ "c2" ∷ []) empty_store).1

abbrev two_apps : IndexStore
two_apps = (refresh_index "default" application config "other" ("c2" ∷ []) one_app).1

pub empty-CacheIsRight : CacheIsRight empty_store.cache
unfolding lookup
empty-CacheIsRight a b t h = cc

one_app-CacheIsRight : CacheIsRight one_app.cache
unfolding refresh_index create_all create_index list_index delete_index get_table pair_key
    table_name selected select lookup insert
one_app-CacheIsRight =
    (refresh_index-rows "default" application config "app" ("c1" ∷ "c2" ∷ []) empty_store
      empty-CacheIsRight refl).1

application_ne_config : application ≢ config
application_ne_config p = cc p

abbrev value : Result (List String) → List String
value (ok xs) = xs
value (err e) = []
value panicked = []

abbrev configs_of_app : List String
configs_of_app = value (list_index "default" config application "app" one_app).0

abbrev apps_of_config : List String
apps_of_config = value (list_index "default" application config "c2" one_app).0

list-refresh_example : configs_of_app ≡ "c1" ∷ "c2" ∷ []
unfolding refresh_index create_all create_index list_index delete_index get_table pair_key
    table_name selected select lookup insert
list-refresh_example =
    list-refresh "default" application config "app" ("c1" ∷ "c2" ∷ []) configs_of_app empty_store
      one_app (list_index "default" config application "app" one_app).1 application_ne_config
      empty-CacheIsRight refl refl

-- The other side of the same rows.
list-refresh_other_side_example : mem "app" apps_of_config ≡ mem "c2" ("c1" ∷ "c2" ∷ [])
unfolding refresh_index create_all create_index list_index delete_index get_table pair_key
    table_name selected select lookup insert
list-refresh_other_side_example =
    list-refresh_other_side "default" application config "app" "c2" ("c1" ∷ "c2" ∷ [])
      apps_of_config empty_store one_app (list_index "default" application config "c2" one_app).1
      application_ne_config refl empty-CacheIsRight refl refl

abbrev app_after : List String
app_after = value (list_index "default" config application "app" two_apps).0

-- The configs of one application while another one is refreshed.
list-refresh_other_value_example : app_after ≡ "c1" ∷ "c2" ∷ []
unfolding refresh_index create_all create_index list_index delete_index get_table pair_key
    table_name selected select lookup insert
list-refresh_other_value_example =
    list-refresh_other_value "default" "default" application config "other" "app" ("c2" ∷ [])
      ("c1" ∷ "c2" ∷ []) app_after one_app one_app two_apps
      (list_index "default" config application "app" two_apps).1 application_ne_config refl
      one_app-CacheIsRight refl refl refl

get_table_lem_example :
    ((get_table node application []).0 ≡ table_name node application)
    × CacheIsRight (get_table node application []).1
get_table_lem_example = get_table_lem node application [] empty-CacheIsRight

refresh_index-answers_example :
    (t : IndexStore) × (u : IndexStore) × (refresh_index "default" application config "app"
        ("c1" ∷ "c2" ∷ [])
        empty_store
      ≡ (ok tt, t))
    × (list_index "default" config application "app" t ≡ (ok ("c1" ∷ "c2" ∷ []), u))
refresh_index-answers_example =
    refresh_index-answers "default" application config "app" ("c1" ∷ "c2" ∷ []) empty_store
      application_ne_config empty-CacheIsRight refl
