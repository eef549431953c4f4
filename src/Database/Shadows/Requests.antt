-- ===== src/Database/Shadows/Requests.antt =====
-- plugin/database/shadow.go: what the statements of CreateShadowTx, UpdateShadowDesireTx,
-- UpdateShadowReportTx and DeleteShadowTx mean for the map from keys to rows. The rows are written
-- out here, column by column.
use baetyl_cloud.Common.{String, ◌≡◌, Bool, false, ◌&&◌, Option, none, some, ◌==◌, if◌then◌else◌}
use baetyl_cloud.Common.Action.{ok, Action}
use baetyl_cloud.Plugin.{Shadow}
use baetyl_cloud.Database.{Conn}
use baetyl_cloud.Database.Shadows.{ShadowRow, ShadowTable, ShadowFormat}
use baetyl_cloud.Database.Shadows.View.{on_row}

-- The requests that change one row.
pub data Request : Type 0 where
  create : Shadow → Request
  set_desire : Shadow → Request
  set_report : Shadow → Request
  remove : String → String → Request

-- Whether a shadow has the key that is looked at.
abbrev pub has_key : Shadow → String → String → Bool
has_key sh ns name = sh.namespace == ns && sh.name == name

-- A created shadow: nothing stood at its key, and now its row does, with the next id, the
-- database's clock and no version of the desire.
pub record Created (format : ShadowFormat) (sh : Shadow) (t : ShadowTable) (ns name : String)
    (old new : Option ShadowRow) : Type 0 where
  pub report : String
  pub desire : String
  pub report_meta : String
  pub desire_meta : String
  pub report_text : format.encode sh.report ≡ ok report
  pub desire_text : format.encode sh.desire ≡ ok desire
  pub report_meta_text : format.encode sh.report_meta ≡ ok report_meta
  pub desire_meta_text : format.encode sh.desire_meta ≡ ok desire_meta
  pub vacant : (if has_key sh ns name then old else none) ≡ none
  pub added : new ≡ (
      if has_key sh ns name
      then some (record {
        id = t.next_id;
        namespace = sh.namespace;
        name = sh.name;
        create_time = t.clock;
        report = report;
        desire = desire;
        report_meta = report_meta;
        desire_meta = desire_meta;
        desire_version = "";
        has_null = false;
      })
      else old)

-- The row of a desire that is set: three columns where the version is the one that was read.
abbrev pub desired : String → String → String → String → ShadowRow → ShadowRow
desired read desire version meta r =
    if r.desire_version == read
    then record {
      id = r.id;
      namespace = r.namespace;
      name = r.name;
      create_time = r.create_time;
      report = r.report;
      desire = desire;
      report_meta = r.report_meta;
      desire_meta = meta;
      desire_version = version;
      has_null = r.has_null;
    }
    else r

-- A desire that was set, in a version that was generated on the way.
pub record Desired (format : ShadowFormat) (gen_version : Action (Conn ShadowTable) String)
    (sh : Shadow) (ns name : String) (old new : Option ShadowRow) : Type 0 where
  pub desire : String
  pub version : String
  pub meta : String
  pub desire_text : format.encode sh.desire ≡ ok desire
  pub meta_text : format.encode sh.desire_meta ≡ ok meta
  pub before : Conn ShadowTable
  pub then_conn : Conn ShadowTable
  pub generated : gen_version before ≡ (ok version, then_conn)
  pub written : new ≡ (
      if has_key sh ns name
      then on_row (desired sh.desire_version desire version meta) old
      else old)

-- A report that was set, whatever the version of the desire.
pub record Reported (format : ShadowFormat) (sh : Shadow) (ns name : String)
    (old new : Option ShadowRow) : Type 0 where
  pub report : String
  pub meta : String
  pub report_text : format.encode sh.report ≡ ok report
  pub meta_text : format.encode sh.report_meta ≡ ok meta
  pub written : new ≡ (
      if has_key sh ns name
      then on_row
          (λ r. record {
            id = r.id;
            namespace = r.namespace;
            name = r.name;
            create_time = r.create_time;
            report = report;
            desire = r.desire;
            report_meta = meta;
            desire_meta = r.desire_meta;
            desire_version = r.desire_version;
            has_null = false;
          })
          old
      else old)

-- What a request means at a key, from the row before to the row after.
abbrev pub Meant :
    ShadowFormat
    → Action (Conn ShadowTable) String
    → Request
    → ShadowTable
    → String
    → String
    → Option ShadowRow
    → Option ShadowRow
    → Type 0
Meant format gen (create sh) t ns name old new = Created format sh t ns name old new
Meant format gen (set_desire sh) t ns name old new = Desired format gen sh ns name old new
Meant format gen (set_report sh) t ns name old new = Reported format sh ns name old new
Meant format gen (remove k n) t ns name old new = new ≡ (if k == ns && n == name then none else old)
