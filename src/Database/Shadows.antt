-- ===== src/Database/Shadows.antt =====
-- plugin/database/shadow.go and entities/shadow.go: the rows of the shadow table and the
-- statements on them. Reports, desires and their metadata are stored as text.
pub mod View
pub mod Requests
pub mod Refines
pub mod Queries
pub mod Store
pub mod Batches
pub mod Writers
pub mod Failures
use baetyl_cloud.Common.{
  ℕ, suc, String, Bool, true, false, not, ◌&&◌, Option, none, some, List, [], ◌∷◌, ◌++◌, ◌==◌,
  if◌then◌else◌, keep, mem,
}
use baetyl_cloud.Common.Action.{Error, plain, Result, ok, err, panicked, Action, pure, lift, ◌>>=◌}
use baetyl_cloud.Common.Dict.{Dict, lookup}
use baetyl_cloud.Spec.{Value, str}
use baetyl_cloud.Plugin.{Shadow}

-- entities.Shadow; `has_null` tells of NULL in the columns of the report and its metadata.
pub record ShadowRow : Type 0 where
  pub id : ℕ
  pub namespace : String
  pub name : String
  pub create_time : ℕ
  pub report : String
  pub desire : String
  pub report_meta : String
  pub desire_meta : String
  pub desire_version : String
  pub has_null : Bool

-- The table of scripts/sql/tables.sql, with the next id and the database's clock.
pub record ShadowTable : Type 0 where
  pub rows : List ShadowRow
  pub next_id : ℕ
  pub clock : ℕ

-- json.Marshal and json.Unmarshal of reports and desires (a nil map is `none`), of the time alone,
-- and time.Parse.
pub record ShadowFormat : Type 0 where
  pub encode : Option (Dict Value) → Result String
  pub decode : String → Result (Option (Dict Value))
  pub decode_time : String → Result ℕ
  pub parse_time : String → Result ℕ

-- WHERE namespace = ? AND name = ?
abbrev pub is_at : String → String → ShadowRow → Bool
is_at ns name r = r.namespace == ns && r.name == name

-- UPDATE ... WHERE
unfoldable pub update_where :
    (ShadowRow → Bool) → (ShadowRow → ShadowRow) → List ShadowRow → List ShadowRow
update_where p f [] = []
update_where p f (r ∷ rs) = let rest = update_where p f rs in (if p r then f r else r) ∷ rest

unfoldable pub has_row : String → String → List ShadowRow → Bool
has_row ns name [] = false
has_row ns name (r ∷ rs) = let rest = has_row ns name rs in if is_at ns name r then true else rest

-- The key is unique: an insert of a key that is there is refused.
unfoldable pub insert_row : ShadowRow → ShadowTable → Result (Unit {0}) × ShadowTable
insert_row r t = if has_row r.namespace r.name t.rows then (err (plain "Duplicate entry"), t) else (
  ok tt,
  record t {
    rows = t.rows ++ record r { id = t.next_id; create_time = t.clock } ∷ [];
    next_id = suc t.next_id;
  },
)

-- Every row of an insert of several rows, of which one that is refused refuses all.
unfoldable pub insert_rows : List ShadowRow → ShadowTable → Result (Unit {0}) × ShadowTable
insert_rows [] t = (ok tt, t)
insert_rows (r ∷ rs) t = elim (insert_row r t).0 [
  | ok u ↦
      let rest = insert_rows rs (insert_row r t).1 in
      (elim rest.0 [ ok v ↦ (ok tt, rest.1) | err e ↦ (err e, t) | panicked ↦ (panicked, t) ])
  | err e ↦ (err e, t)
  | panicked ↦ (panicked, t)
]

-- SET desire, desire_version, desire_meta
abbrev pub with_desire : String → String → String → ShadowRow → ShadowRow
with_desire desire version meta r = record r {
  desire = desire;
  desire_version = version;
  desire_meta = meta;
}

-- SET report, report_meta
abbrev pub with_report : String → String → ShadowRow → ShadowRow
with_report report meta r = record r { report = report; report_meta = meta; has_null = false }

-- The WHERE of UpdateShadowDesireTx: the key, and the version that was read.
abbrev pub is_version : String → String → String → ShadowRow → Bool
is_version ns name version r = is_at ns name r && r.desire_version == version

-- ON DUPLICATE KEY UPDATE for one row.
unfoldable pub upsert_row : ShadowRow → ShadowTable → ShadowTable
upsert_row r t =
    if has_row r.namespace r.name t.rows
    then record t {
      rows =
          update_where (is_at r.namespace r.name)
            (with_desire r.desire r.desire_version r.desire_meta) t.rows;
    }
    else (insert_row r t).1

unfoldable pub upsert_rows : List ShadowRow → ShadowTable → ShadowTable
upsert_rows [] t = t
upsert_rows (r ∷ rs) t = upsert_rows rs (upsert_row r t)

abbrev at_time : Option (Dict Value) → Option Value
at_time none = none
at_time (some d) = lookup "time" d

module _ (format : ShadowFormat) {S : Type 0} where
  -- report["time"].(string); a value that is no string panics.
  abbrev time_of : Option Value → Action S ℕ
  time_of none = pure 0
  time_of (some (str text)) = lift (format.parse_time text)
  time_of (some v) = lift panicked

  abbrev meta_of : String → Action S (Option (Dict Value))
  meta_of text = if text == "" then pure none else lift (format.decode text)

  -- ToShadowModel
  unfoldable pub to_shadow_model : ShadowRow → Action S Shadow
  to_shadow_model r = do
    report ← lift (format.decode r.report)
    desire ← lift (format.decode r.desire)
    report_meta ← meta_of r.report_meta
    desire_meta ← meta_of r.desire_meta
    time ← time_of (at_time report)
    pure (record {
      namespace = r.namespace;
      name = r.name;
      report = report;
      desire = desire;
      report_meta = report_meta;
      desire_meta = desire_meta;
      creation_timestamp = r.create_time;
      desire_version = r.desire_version;
      time = time;
      report_text = r.report;
    })

  -- NewShadowFromShadowModel
  unfoldable pub new_shadow_from_shadow_model : Shadow → Action S ShadowRow
  new_shadow_from_shadow_model sh = do
    report ← lift (format.encode sh.report)
    desire ← lift (format.encode sh.desire)
    report_meta ← lift (format.encode sh.report_meta)
    desire_meta ← lift (format.encode sh.desire_meta)
    pure (record {
      id = 0;
      namespace = sh.namespace;
      name = sh.name;
      create_time = 0;
      report = report;
      desire = desire;
      report_meta = report_meta;
      desire_meta = desire_meta;
      desire_version = "";
      has_null = false;
    })
