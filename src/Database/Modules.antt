-- ===== src/Database/Modules.antt =====
-- plugin/database/module.go and entities/module.go: versions of modules, of which one may be the
-- latest. The schema makes the name and the version a key.
pub mod Listing
use Prim.Native.String.{◌++◌ as str_append}
use baetyl_cloud.Common.{
  ℕ, suc, String, Bool, true, false, not, ◌&&◌, Option, none, some, List, [], ◌∷◌, ◌++◌, ◌==◌,
  if◌then◌else◌, keep, take, drop,
}
use baetyl_cloud.Common.Action.{
  Error, plain, coded, resource_not_found, Result, ok, err, panicked, Action, pure, raise, lift,
  ◌>>=◌, ◌>>◌,
}
use baetyl_cloud.Common.Dict.{Dict, lookup}
use baetyl_cloud.Common.Integers.{ℤ}
use baetyl_cloud.Models.Filter.{
  Filter, get_fuzzy_name, get_limit_number, get_limit_offset, int_lt, is_negative,
}
use baetyl_cloud.Database.{Conn, statement, transact}

-- models.Module
pub record Module : Type 0 where
  pub name : String
  pub version : String
  pub image : String
  pub programs : Dict String
  pub module_type : String
  pub flag : ℤ
  pub is_latest : Bool
  pub description : String
  pub creation_timestamp : ℕ
  pub update_timestamp : ℕ

-- entities.Module
pub record ModuleRow : Type 0 where
  pub id : ℕ
  pub name : String
  pub version : String
  pub image : String
  pub programs : String
  pub module_type : String
  pub flag : ℤ
  pub is_latest : Bool
  pub description : String
  pub create_time : ℕ
  pub update_time : ℕ

-- The table, with the next id and the database's clock.
pub record ModuleTable : Type 0 where
  pub rows : List ModuleRow
  pub next_id : ℕ
  pub clock : ℕ

abbrev pub ModuleConn : Type 0
ModuleConn = Conn ModuleTable

-- json of the programs, the text of the arguments of a query, LIKE and the order by time.
pub record ModuleFormat : Type 0 where
  pub encode : Dict String → Result String
  pub decode : String → Result (Dict String)
  pub args_text : String → String → String
  pub like : String → String → Bool
  pub newest_first : List ModuleRow → List ModuleRow

-- WHERE name = ? AND version = ?
abbrev pub is_version : String → String → ModuleRow → Bool
is_version name version r = r.name == name && r.version == version

unfoldable pub has_row : (ModuleRow → Bool) → List ModuleRow → Bool
has_row p [] = false
has_row p (r ∷ rs) = let rest = has_row p rs in if p r then true else rest

-- Changes the rows that pass a test.
unfoldable pub update_rows :
    (ModuleRow → Bool) → (ModuleRow → ModuleRow) → List ModuleRow → List ModuleRow
update_rows p f [] = []
update_rows p f (r ∷ rs) = let rest = update_rows p f rs in (if p r then f r else r) ∷ rest

abbrev run : (List ModuleRow → List ModuleRow) → Action ModuleConn (Unit {0})
run f = statement (λ t. (tt, record t { rows = f t.rows }))

-- An insert of a row whose key is there is refused.
unfoldable pub insert_row : ModuleRow → ModuleTable → Result (Unit {0}) × ModuleTable
insert_row r t =
    if has_row (is_version r.name r.version) t.rows then (err (plain "Duplicate entry"), t) else (
      ok tt,
      record t {
        rows =
            t.rows
            ++ record r { id = t.next_id; create_time = t.clock; update_time = t.clock } ∷ [];
        next_id = suc t.next_id;
      },
    )

-- LIMIT ?,? where the filter has a size; the database refuses a negative offset.
unfoldable pub limited : Filter → List ModuleRow → Result (List ModuleRow)
limited f rows =
    if int_lt 0 (get_limit_number f)
    then (if is_negative (get_limit_offset f).0
        then err (plain "syntax error")
        else ok (take (get_limit_number f) (drop (get_limit_offset f).0 rows)))
    else ok rows

-- disableLatestModuleTx
unfoldable pub disable_latest_module_tx : String → Action ModuleConn (Unit {0})
disable_latest_module_tx name =
    run (update_rows (λ r. r.name == name) (λ r. record r { is_latest = false }))

-- DeleteModules, with DeleteModulesTx
unfoldable pub delete_modules : String → Action ModuleConn (Unit {0})
delete_modules name = run (keep (λ r. not (r.name == name)))

-- DeleteModuleByVersion, with DeleteModuleByVersionTx
unfoldable pub delete_module_by_version : String → String → Action ModuleConn (Unit {0})
delete_module_by_version name version = run (keep (λ r. not (is_version name version r)))

module _ (format : ModuleFormat) where
  abbrev programs_of : String → Action ModuleConn (Dict String)
  programs_of t = if t == "" then pure [] else lift (format.decode t)

  -- ToModuleModel
  unfoldable pub to_module_model : ModuleRow → Action ModuleConn Module
  to_module_model r = do
    programs ← programs_of r.programs
    pure (record {
      name = r.name;
      version = r.version;
      image = r.image;
      programs = programs;
      module_type = r.module_type;
      flag = r.flag;
      is_latest = r.is_latest;
      description = r.description;
      creation_timestamp = r.create_time;
      update_timestamp = r.update_time;
    })

  -- FromModuleModel
  unfoldable pub from_module_model : Module → Action ModuleConn ModuleRow
  from_module_model m = do
    programs ← lift (format.encode m.programs)
    pure (record {
      id = 0;
      name = m.name;
      version = m.version;
      image = m.image;
      programs = programs;
      module_type = m.module_type;
      flag = m.flag;
      is_latest = m.is_latest;
      description = m.description;
      create_time = 0;
      update_time = 0;
    })

  abbrev first_model : String → List ModuleRow → Action ModuleConn Module
  first_model args [] = raise (coded resource_not_found (("type", "module") ∷ ("name", args) ∷ []))
  first_model args (r ∷ rs) = to_module_model r

  -- getModuleTx, of the rows that pass a test, with the text of the arguments.
  unfoldable pub get_module_tx : (ModuleRow → Bool) → String → Action ModuleConn Module
  get_module_tx p args = do rows ← statement (λ t. (keep p t.rows, t)); first_model args rows

  -- GetLatestModule, with GetLatestModuleTx
  unfoldable pub get_latest_module : String → Action ModuleConn Module
  get_latest_module name =
      get_module_tx (λ r. r.name == name && r.is_latest) (format.args_text name "true")

  -- GetModuleByVersion, with GetModuleByVersionTx
  unfoldable pub get_module_by_version : String → String → Action ModuleConn Module
  get_module_by_version name version =
      get_module_tx (is_version name version) (format.args_text name version)

  -- GetModuleByImage, with GetModuleByImageTx
  unfoldable pub get_module_by_image : String → String → Action ModuleConn Module
  get_module_by_image name image =
      get_module_tx (λ r. r.name == name && r.image == image) (format.args_text name image)

  -- The loop of listModuleTx.
  unfoldable pub models_of : List ModuleRow → Action ModuleConn (List Module)
  models_of [] = pure []
  models_of (r ∷ rs) = do m ← to_module_model r; rest ← models_of rs; pure (m ∷ rest)

  -- listModuleTx, of the rows that pass a test, in the order by time and cut by a filter.
  unfoldable pub list_module_tx :
      (ModuleRow → Bool)
      → (List ModuleRow → Result (List ModuleRow))
      → Action ModuleConn (List Module)
  list_module_tx p cut = do
    r ← statement (λ t. (cut (format.newest_first (keep p t.rows)), t))
    rows ← lift r
    models_of rows

  abbrev some_modules : String → List Module → Action ModuleConn (List Module)
  some_modules name [] = raise (coded resource_not_found (("type", "module") ∷ ("name", name) ∷ []))
  some_modules name (m ∷ ms) = pure (m ∷ ms)

  -- GetModules, with GetModuleTx
  unfoldable pub get_modules : String → Action ModuleConn (List Module)
  get_modules name = list_module_tx (λ r. r.name == name) ok >>= some_modules name

  -- CreateModuleTx
  unfoldable pub create_module_tx : Module → Action ModuleConn (Unit {0})
  create_module_tx m = do row ← from_module_model m; r ← statement (insert_row row); lift r

  abbrev disable_if : Module → Action ModuleConn (Unit {0})
  disable_if m = if m.is_latest then disable_latest_module_tx m.name else pure tt

  -- CreateModule
  unfoldable pub create_module : Module → Action ModuleConn Module
  create_module m =
      transact (do disable_if m; create_module_tx m; get_module_by_version m.name m.version)

  abbrev written : ModuleRow → ModuleRow → ModuleRow
  written new r = record new { id = r.id; create_time = r.create_time; update_time = r.update_time }

  -- UpdateModuleByVersionTx
  unfoldable pub update_module_by_version_tx : Module → Action ModuleConn (Unit {0})
  update_module_by_version_tx m = do
    row ← from_module_model m
    run (update_rows (is_version row.name row.version) (written row))

  -- UpdateModuleByVersion
  unfoldable pub update_module_by_version : Module → Action ModuleConn Module
  update_module_by_version m =
      transact
        (do disable_if m; update_module_by_version_tx m; get_module_by_version m.name m.version)

  -- GetLatestModuleImage, with GetLatestModuleImageTx
  unfoldable pub get_latest_module_image : String → Action ModuleConn String
  get_latest_module_image name = do m ← get_latest_module name; pure m.image

  abbrev program_or_error : String → Option String → Action ModuleConn String
  program_or_error name none =
      raise (coded resource_not_found (("type", "program") ∷ ("name", name) ∷ []))
  program_or_error name (some v) = pure v

  -- GetLatestModuleProgram, with GetLatestModuleProgramTx
  unfoldable pub get_latest_module_program : String → String → Action ModuleConn String
  get_latest_module_program name platform = do
    m ← get_latest_module name
    program_or_error (str_append name (str_append "-" platform)) (lookup platform m.programs)
