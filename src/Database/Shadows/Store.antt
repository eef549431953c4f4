-- ===== src/Database/Shadows/Store.antt =====
-- plugin/database/shadow.go: the operations of the shadow plugin. The triggers are its
-- parameters.
use baetyl_cloud.Common.{
  ℕ, zero, suc, String, Bool, true, false, not, Option, none, some, List, [], ◌∷◌, ◌++◌, map, ◌==◌,
  if◌then◌else◌, keep, take, drop, length,
}
use baetyl_cloud.Common.Action.{
  Result, ok, err, panicked, Action, pure, lift, panic, ◌>>=◌, ◌>>◌, attempt,
}
use baetyl_cloud.Plugin.{Shadow}
use baetyl_cloud.Database.{Conn, statement, transact}
use baetyl_cloud.Models.Shadow.{build_empty_apps}
use baetyl_cloud.Database.Shadows.Queries.{
  Site, on_conn, transact_captured, joined, is_empty, select, is_among,
}
use baetyl_cloud.Database.Shadows.{
  ShadowRow, ShadowTable, ShadowFormat, is_at, is_version, update_where, insert_row, insert_rows,
  with_desire, with_report, upsert_rows, to_shadow_model, new_shadow_from_shadow_model,
}

module _ {C : Type 0} (format : ShadowFormat) (gen_version : Action (Conn ShadowTable) String)
    (on_set : Shadow → Action (Site C) (Unit {0}))
    (on_delete : String → String → Action (Site C) (Unit {0})) where
  abbrev first_model : List ShadowRow → Action (Conn ShadowTable) (Option Shadow)
  first_model [] = pure none
  first_model (r ∷ rs) = do sh ← to_shadow_model format r; pure (some sh)

  -- GetShadowTx
  unfoldable pub get_shadow_tx : String → String → Action (Conn ShadowTable) (Option Shadow)
  get_shadow_tx ns name = do rows ← select (is_at ns name); first_model rows

  -- Get
  unfoldable pub get : String → String → Action (Site C) (Option Shadow)
  get ns name = on_conn (get_shadow_tx ns name)

  -- CreateShadowTx
  unfoldable pub create_shadow_tx : Shadow → Action (Conn ShadowTable) (Unit {0})
  create_shadow_tx sh = do
    row ← new_shadow_from_shadow_model format sh
    r ← statement (insert_row row)
    lift r

  -- createAndGetShadow
  unfoldable pub create_and_get_shadow : Shadow → Action (Conn ShadowTable) (Option Shadow)
  create_and_get_shadow sh = do create_shadow_tx sh; get_shadow_tx sh.namespace sh.name

  -- The trigger's error takes the place of any other; a shadow that is nil is dereferenced.
  abbrev pub announce : Option Shadow → Action (Site C) Shadow
  announce none = panic
  announce (some sh) = do on_set sh; pure sh

  abbrev pub announce_after :
      Option Shadow → Result (Unit {0}) × Conn ShadowTable → Action (Site C) Shadow
  announce_after sh (ok u, c) s = announce sh (record s { conn = c })
  announce_after sh (err e, c) s = announce sh (record s { conn = c })
  announce_after sh (panicked, c) s = (panicked, record s { conn = c })

  -- A transaction of a handler that gives a shadow, and the trigger.
  unfoldable pub transact_and_announce :
      Action (Conn ShadowTable) (Option Shadow) → Action (Site C) Shadow
  transact_and_announce handler s =
      let r = transact_captured handler s.conn in announce_after (joined r.0) r.1 s

  -- Create; the flag tells whether a transaction is given.
  unfoldable pub create : Bool → Shadow → Action (Site C) Shadow
  create true sh = do shd ← on_conn (create_and_get_shadow sh); announce shd
  create false sh = transact_and_announce (create_and_get_shadow sh)

  abbrev rows_of : List Shadow → Action (Conn ShadowTable) (List ShadowRow)
  rows_of [] = pure []
  rows_of (sh ∷ shs) = do
    row ← new_shadow_from_shadow_model format sh
    rest ← rows_of shs
    pure (row ∷ rest)

  -- BatchCreateShadowTx
  unfoldable pub batch_create_shadow_tx : List Shadow → Action (Conn ShadowTable) (Unit {0})
  batch_create_shadow_tx shs = do rows ← rows_of shs; r ← statement (insert_rows rows); lift r

  abbrev nil_model : ShadowRow → Action (Conn ShadowTable) (Option Shadow)
  nil_model r = attempt (to_shadow_model format r) (λ sh. pure (some sh)) (λ e. pure none)

  -- The loop of listShadowByNamesTx: an error of a conversion is not looked at, and gives nil.
  unfoldable pub nil_models_of : List ShadowRow → Action (Conn ShadowTable) (List (Option Shadow))
  nil_models_of [] = pure []
  nil_models_of (r ∷ rs) = do sh ← nil_model r; rest ← nil_models_of rs; pure (sh ∷ rest)

  -- listShadowByNamesTx
  unfoldable pub list_shadow_by_names_tx :
      String → List String → Action (Conn ShadowTable) (List (Option Shadow))
  list_shadow_by_names_tx ns names = do rows ← select (is_among ns names); nil_models_of rows

  -- ListShadowByNames
  unfoldable pub list_shadow_by_names :
      String → List String → Action (Conn ShadowTable) (List (Option Shadow))
  list_shadow_by_names ns names =
      if is_empty names then pure [] else list_shadow_by_names_tx ns names

  abbrev batch_created : List Shadow → Action (Conn ShadowTable) (List (Option Shadow))
  batch_created [] = pure []
  batch_created (sh ∷ shs) = do
    batch_create_shadow_tx (sh ∷ shs)
    list_shadow_by_names sh.namespace (map (λ (x : Shadow). x.name) (sh ∷ shs))

  -- BatchCreateShadow
  unfoldable pub batch_create_shadow : List Shadow → Action (Site C) (List (Option Shadow))
  batch_create_shadow shs = if is_empty shs then pure [] else on_conn (transact (batch_created shs))

  -- The loop of ListShadowByNamesTx on the names that are left, in batches.
  unfoldable pub list_batches :
      ℕ → ℕ → String → List String → Action (Conn ShadowTable) (List ShadowRow)
  list_batches zero size ns names = pure []
  list_batches (suc fuel) size ns [] = pure []
  list_batches (suc fuel) size ns (name ∷ names) = do
    rows ← select (is_among ns (take size (name ∷ names)))
    rest ← list_batches fuel size ns (drop size (name ∷ names))
    pure (rows ++ rest)

  -- ListShadowByNamesTx, with batchSize
  unfoldable pub list_rows_by_names_tx :
      String → List String → Action (Conn ShadowTable) (List ShadowRow)
  list_rows_by_names_tx ns names = list_batches (length names) 200 ns names

  -- A conversion whose error is dropped and whose nil is dereferenced.
  abbrev forced : {S : Type 0} → Action S Shadow → Action S Shadow
  forced m = attempt m pure (λ e. panic)

  unfoldable pub forced_models :
      (ShadowRow → Action (Conn ShadowTable) Shadow)
      → List ShadowRow
      → Action (Conn ShadowTable) (List Shadow)
  forced_models f [] = pure []
  forced_models f (r ∷ rs) = do sh ← forced (f r); rest ← forced_models f rs; pure (sh ∷ rest)

  -- List, of the nodes with these names
  unfoldable pub list : String → List String → Action (Site C) (List Shadow)
  list ns names =
      on_conn (list_rows_by_names_tx ns names >>= forced_models (to_shadow_model format))

  -- ToReportShadow
  unfoldable pub to_report_shadow : ShadowRow → Action (Conn ShadowTable) Shadow
  to_report_shadow r = do
    time ← lift (format.decode_time r.report)
    pure (record {
      namespace = r.namespace;
      name = r.name;
      report = some build_empty_apps;
      desire = some build_empty_apps;
      report_meta = none;
      desire_meta = none;
      creation_timestamp = r.create_time;
      desire_version = r.desire_version;
      time = time;
      report_text = r.report;
    })

  -- ListAll, with ListShadowTx
  unfoldable pub list_all : String → Action (Site C) (List Shadow)
  list_all ns = on_conn (select (λ r. r.namespace == ns) >>= forced_models to_report_shadow)

  -- DeleteShadowTx
  unfoldable pub delete_shadow_tx : String → String → Action (Conn ShadowTable) (Unit {0})
  delete_shadow_tx ns name =
      statement (λ t. (tt, record t { rows = keep (λ r. not (is_at ns name r)) t.rows }))

  -- Delete
  unfoldable pub delete : String → String → Action (Site C) (Unit {0})
  delete ns name = do on_conn (delete_shadow_tx ns name); on_delete name ns

  -- UpdateShadowDesireTx
  unfoldable pub update_shadow_desire_tx : Shadow → Action (Conn ShadowTable) (Unit {0})
  update_shadow_desire_tx sh = do
    desire ← lift (format.encode sh.desire)
    meta ← lift (format.encode sh.desire_meta)
    version ← gen_version
    statement (λ t. (
      tt,
      record t {
        rows =
            update_where (is_version sh.namespace sh.name sh.desire_version)
              (with_desire desire version meta) t.rows;
      },
    ))

  -- UpdateDesire; the number of rows that were changed is not looked at.
  unfoldable pub update_desire : Shadow → Action (Site C) (Unit {0})
  update_desire sh = on_conn (update_shadow_desire_tx sh)

  -- UpdateShadowReportTx
  unfoldable pub update_shadow_report_tx : Shadow → Action (Conn ShadowTable) (Unit {0})
  update_shadow_report_tx sh = do
    report ← lift (format.encode sh.report)
    meta ← lift (format.encode sh.report_meta)
    statement (λ t. (
      tt,
      record t {
        rows = update_where (is_at sh.namespace sh.name) (with_report report meta) t.rows;
      },
    ))

  abbrev pub reported : Shadow → Action (Conn ShadowTable) (Option Shadow)
  reported sh = do update_shadow_report_tx sh; get_shadow_tx sh.namespace sh.name

  -- UpdateReport
  unfoldable pub update_report : Shadow → Action (Site C) Shadow
  update_report sh = transact_and_announce (reported sh)

  abbrev desire_rows : List Shadow → Action (Conn ShadowTable) (List ShadowRow)
  desire_rows [] = pure []
  desire_rows (sh ∷ shs) = do
    desire ← lift (format.encode sh.desire)
    meta ← lift (format.encode sh.desire_meta)
    version ← gen_version
    rest ← desire_rows shs
    pure (
        record {
          id = 0;
          namespace = sh.namespace;
          name = sh.name;
          create_time = 0;
          report = "";
          desire = desire;
          report_meta = "";
          desire_meta = meta;
          desire_version = version;
          has_null = true;
        }
        ∷ rest)

  -- updateDesiresTx; in a row that it inserts, the columns that it does not name are NULL.
  unfoldable pub update_desires_tx : List Shadow → Action (Conn ShadowTable) (Unit {0})
  update_desires_tx shs = do rows ← desire_rows shs; statement (λ t. (tt, upsert_rows rows t))

  -- UpdateDesires
  unfoldable pub update_desires : Bool → List Shadow → Action (Site C) (Unit {0})
  update_desires in_tx shs =
      if is_empty shs
      then pure tt
      else if in_tx
      then on_conn (update_desires_tx shs)
      else on_conn (transact (update_desires_tx shs))
