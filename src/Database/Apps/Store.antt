-- ===== src/Database/Apps/Store.antt =====
-- plugin/database/application.go: the application store.
use baetyl_cloud.Common.{
  ℕ, String, Bool, true, false, ◌&&◌, Option, none, some, List, [], ◌∷◌, ◌==◌, if◌then◌else◌, keep,
  length, mem,
}
use baetyl_cloud.Common.Action.{
  Error, coded, resource_not_found, Result, ok, err, panicked, Action, pure, raise, lift, panic,
  ◌>>=◌, ◌>>◌, attempt,
}
use baetyl_cloud.Common.Dict.{Dict}
use baetyl_cloud.Models.Filter.{Filter, get_fuzzy_name, get_paging_param, slice}
use baetyl_cloud.Database.{Conn, statement, transact}
use baetyl_cloud.Database.Keyed.{Table, Key, find, insert, update, delete}
use baetyl_cloud.Database.Apps.{
  AppModel, AppRow, AppItem, AppFormat, to_app_model, to_app_list_model, from_app_model,
}
use baetyl_cloud.Database.Apps.Equality.{equal_app}

abbrev pub AppConn : Type 0
AppConn = Conn (Table AppRow)

-- The clock of the process, GenResourceVersion, and what listings use of the database and of
-- baetyl-go; `unique` tells whether the schema makes the namespace and the name a key.
pub record AppLibrary : Type 0 where
  pub now : Action AppConn ℕ
  pub gen_version : Action AppConn String
  pub like : String → String → Bool
  pub newest_first : List AppRow → List AppRow
  pub is_label_match : String → Dict String → Result Bool
  pub empty_in : Error
  pub unique : Bool

abbrev pub app_key : Bool → Key AppRow
app_key unique = record {
  namespace_of = λ r. r.namespace;
  name_of = λ r. r.name;
  stamp = λ i t r. record r { id = i; create_time = t };
  unique = unique;
}

-- The columns of UpdateApplicationTx, which leaves the type, the mode and the system flag.
abbrev written : AppRow → AppRow → AppRow
written new r = record new {
  id = r.id;
  namespace = r.namespace;
  name = r.name;
  app_type = r.app_type;
  mode = r.mode;
  system = r.system;
  create_time = r.create_time;
}

module _ (format : AppFormat) (library : AppLibrary) where
  abbrev pub key : Key AppRow
  key = app_key library.unique

  abbrev model_of : String → Option AppRow → Action AppConn AppModel
  model_of name none =
      raise (coded resource_not_found (("type", "application") ∷ ("name", name) ∷ []))
  model_of name (some r) = to_app_model format r

  -- GetApplication, with GetApplicationTx
  unfoldable pub get_application : String → String → Action AppConn AppModel
  get_application ns name = do
    row ← statement (λ t. (find key ns name t.rows, t))
    model_of name row

  -- CreateApplicationTx
  unfoldable pub create_application_tx : String → AppModel → Action AppConn (Unit {0})
  create_application_tx ns a = do
    row ← from_app_model format library.now library.gen_version ns a
    r ← statement (insert key row)
    lift r

  -- createAndGetApplication
  unfoldable pub create_and_get_application : String → AppModel → Action AppConn AppModel
  create_and_get_application ns a = do create_application_tx ns a; get_application ns a.name

  -- CreateApplication; the flag tells whether a transaction is given.
  unfoldable pub create_application : Bool → String → AppModel → Action AppConn AppModel
  create_application true ns a = create_and_get_application ns a
  create_application false ns a = transact (create_and_get_application ns a)

  -- UpdateApplicationTx, which gives the application its new version and, where it had none, the
  -- time of its cron.
  unfoldable pub update_application_tx : String → AppModel → Action AppConn AppModel
  update_application_tx ns a = do
    row ← from_app_model format library.now library.gen_version ns a
    statement {A = Unit {0}}
        (λ t. (tt, record t { rows = update key row.namespace row.name (written row) t.rows }))
    pure (record a { version = row.version; cron_time = row.cron_time })

  -- updateAndGetApplication: an application that is equal to the stored one is not written.
  unfoldable pub update_and_get_application : String → AppModel → Action AppConn AppModel
  update_and_get_application ns a = do
    old ← get_application ns a.name
    if equal_app a old
        then pure (record a { version = old.version })
        else update_application_tx ns a

  -- UpdateApplication
  unfoldable pub update_application : Bool → String → AppModel → Action AppConn AppModel
  update_application true ns a = update_and_get_application ns a
  update_application false ns a = transact (update_and_get_application ns a)

  -- DeleteApplication, with DeleteApplicationTx
  unfoldable pub delete_application : String → String → Action AppConn (Unit {0})
  delete_application ns name = statement (λ t. (tt, delete key ns name t))

  -- An item that is nil is dereferenced.
  abbrev item : AppRow → Action AppConn AppItem
  item r = attempt (to_app_list_model format r) pure (λ e. panic)

  abbrev matched : String → Dict String → Bool
  matched selector labels = elim (library.is_label_match selector labels) [
    | ok b ↦ b
    | err e ↦ false
    | panicked ↦ false
  ]

  -- The loop of ListApplicationTx; a selector that cannot be tested leaves a row out.
  unfoldable pub matching_items : String → List AppRow → Action AppConn (List AppItem)
  matching_items selector [] = pure []
  matching_items selector (r ∷ rs) = do
    labels ← lift (format.decode_labels r.labels)
    let rest : Action AppConn (List AppItem) = matching_items selector rs
    if matched selector labels then (do a ← item r; items ← rest; pure (a ∷ items)) else rest

  -- ListApplication, with ListApplicationTx: the page, and the number of all that match.
  unfoldable pub list_application : String → String → Filter → Action AppConn (List AppItem × ℕ)
  list_application ns selector filter = do
    rows ← statement (λ t. (
      library.newest_first
          (keep (λ r. r.namespace == ns && library.like r.name (get_fuzzy_name filter)) t.rows),
      t,
    ))
    items ← matching_items selector rows
    let range : ℕ × ℕ = (get_paging_param filter (length items)).0
    page ← lift (slice items range.0 range.1)
    pure (page, length items)

  unfoldable pub items_of : List AppRow → Action AppConn (List AppItem)
  items_of [] = pure []
  items_of (r ∷ rs) = do a ← item r; rest ← items_of rs; pure (a ∷ rest)

  -- ListApplicationsByNames, with ListApplicationsByNamesTx; sqlx.In refuses an empty list.
  unfoldable pub list_applications_by_names :
      String → List String → Action AppConn (List AppItem × ℕ)
  list_applications_by_names ns [] = raise library.empty_in
  list_applications_by_names ns (name ∷ names) = do
    rows ← statement (λ t. (keep (λ r. r.namespace == ns && mem r.name (name ∷ names)) t.rows, t))
    items ← items_of rows
    pure (items, length items)
