-- ===== src/Database/Configs.antt =====
-- plugin/database/configuration.go and entities/configuration.go: the configuration store. Labels
-- and data are stored as text; a nil map is taken for an empty one.
pub mod Found
pub mod Promise
use baetyl_cloud.Common.{
  ℕ, String, Bool, true, false, not, ◌&&◌, ◌||◌, Option, none, some, List, [], ◌∷◌, ◌==◌,
  if◌then◌else◌, keep, ltb, length,
}
use baetyl_cloud.Common.Action.{
  Error, coded, resource_not_found, data_too_large, Result, ok, err, panicked, Action, pure, raise,
  lift, ◌>>=◌, ◌>>◌,
}
use baetyl_cloud.Common.Dict.{Dict}
use baetyl_cloud.Spec.{Configuration}
use baetyl_cloud.Plugin.{ConfigPlugin}
use baetyl_cloud.Models.Filter.{Filter, get_fuzzy_name, get_paging_param, slice}
use baetyl_cloud.Service.Config.{same_map}
use baetyl_cloud.Database.{Conn, statement, transact}
use baetyl_cloud.Database.Keyed.{Table, Key, KeyLaws, find, insert, update, delete}

-- entities.Configuration
pub record ConfigRow : Type 0 where
  pub id : ℕ
  pub namespace : String
  pub name : String
  pub labels : String
  pub entries : String
  pub create_time : ℕ
  pub update_time : ℕ
  pub description : String
  pub version : String
  pub system : Bool

abbrev pub ConfigConn : Type 0
ConfigConn = Conn (Table ConfigRow)

-- json of maps, GenResourceVersion, the texts of numbers, and what listings use of the database and
-- of baetyl-go: LIKE, the order by time, and the test of a label selector. `unique` tells whether
-- the schema makes the namespace and the name a key.
pub record ConfigFormat : Type 0 where
  pub encode : Dict String → Result String
  pub decode : String → Result (Dict String)
  pub byte_length : String → ℕ
  pub number_text : ℕ → String
  pub gen_version : Action ConfigConn String
  pub like : String → String → Bool
  pub newest_first : List ConfigRow → List ConfigRow
  pub is_label_match : String → Dict String → Result Bool
  pub unique : Bool

abbrev max_config_data_size : ℕ
max_config_data_size = 4194304

abbrev pub config_key : Bool → Key ConfigRow
config_key unique = record {
  namespace_of = λ r. r.namespace;
  name_of = λ r. r.name;
  stamp = λ i t r. record r { id = i; create_time = t; update_time = t };
  unique = unique;
}

-- EqualConfig of the entities
unfoldable pub equal_config : Configuration → Configuration → Bool
equal_config old new =
    old.name == new.name
    && old.namespace == new.namespace
    && old.description == new.description
    && (if old.system then new.system else not new.system)
    && same_map old.labels new.labels
    && same_map old.entries new.entries

module _ (format : ConfigFormat) where
  abbrev pub key : Key ConfigRow
  key = config_key format.unique

  -- ToConfigModel
  unfoldable pub to_config_model : {S : Type 0} → ConfigRow → Action S Configuration
  to_config_model r = do
    labels ← lift (format.decode r.labels)
    entries ← lift (format.decode r.entries)
    pure (record {
      name = r.name;
      namespace = r.namespace;
      version = r.version;
      labels = labels;
      entries = entries;
      description = r.description;
      update_timestamp = r.update_time;
      creation_timestamp = r.create_time;
      system = r.system;
    })

  abbrev too_large : Configuration → String → Error
  too_large c entries = coded data_too_large (
      ("name", c.name)
      ∷ ("size", format.number_text (format.byte_length entries))
      ∷ ("max", format.number_text 4194303)
      ∷ [])

  abbrev check_size : Configuration → String → Action ConfigConn (Unit {0})
  check_size c entries =
      if ltb (format.byte_length entries) max_config_data_size
      then pure tt
      else raise (too_large c entries)

  -- FromConfigModel
  unfoldable pub from_config_model : String → Configuration → Action ConfigConn ConfigRow
  from_config_model ns c = do
    labels ← lift (format.encode c.labels)
    entries ← lift (format.encode c.entries)
    check_size c entries
    version ← format.gen_version
    pure (record {
      id = 0;
      namespace = ns;
      name = c.name;
      labels = labels;
      entries = entries;
      create_time = c.creation_timestamp;
      update_time = c.update_timestamp;
      description = c.description;
      version = version;
      system = c.system;
    })

  abbrev pub not_found : String → Error
  not_found name = coded resource_not_found (("type", "configuration") ∷ ("name", name) ∷ [])

  abbrev pub model_of : String → Option ConfigRow → Action ConfigConn Configuration
  model_of name none = raise (not_found name)
  model_of name (some r) = to_config_model r

  -- GetConfig, with GetConfigurationTx
  unfoldable pub get_config : String → String → Action ConfigConn Configuration
  get_config ns name = do row ← statement (λ t. (find key ns name t.rows, t)); model_of name row

  -- CreateConfigurationTx
  unfoldable pub create_configuration_tx : String → Configuration → Action ConfigConn (Unit {0})
  create_configuration_tx ns c = do
    row ← from_config_model ns c
    r ← statement (insert key row)
    lift r

  -- createAndGetConfig
  unfoldable pub create_and_get_config : String → Configuration → Action ConfigConn Configuration
  create_and_get_config ns c = do create_configuration_tx ns c; get_config ns c.name

  -- CreateConfig; the flag tells whether a transaction is given.
  unfoldable pub create_config : Bool → String → Configuration → Action ConfigConn Configuration
  create_config true ns c = create_and_get_config ns c
  create_config false ns c = transact (create_and_get_config ns c)

  abbrev pub written : ConfigRow → ConfigRow → ConfigRow
  written new r = record r {
    version = new.version;
    description = new.description;
    labels = new.labels;
    entries = new.entries;
  }

  abbrev pub write_row : ConfigRow → Action ConfigConn (Unit {0})
  write_row r =
      statement (λ t. (tt, record t { rows = update key r.namespace r.name (written r) t.rows }))

  -- UpdateConfigurationTx, which gives the configuration its new version.
  unfoldable pub update_configuration_tx : String → Configuration → Action ConfigConn Configuration
  update_configuration_tx ns c = do
    row ← from_config_model ns c
    write_row row
    pure (record c { version = row.version })

  -- UpdateConfig: a configuration that is equal to the stored one is not written.
  unfoldable pub update_config : String → Configuration → Action ConfigConn Configuration
  update_config ns c = do
    old ← get_config ns c.name
    if equal_config old c
        then pure (record c { version = old.version })
        else update_configuration_tx ns c

  -- DeleteConfig, with DeleteConfigurationTx
  unfoldable pub delete_config : String → String → Action ConfigConn (Unit {0})
  delete_config ns name = statement (λ t. (tt, delete key ns name t))

  abbrev matched : String → Dict String → Bool
  matched selector labels = elim (format.is_label_match selector labels) [
    | ok b ↦ b
    | err e ↦ false
    | panicked ↦ false
  ]

  -- The loop of ListConfigurationTx; a selector that cannot be tested leaves a row out.
  unfoldable pub matching_models : String → List ConfigRow → Action ConfigConn (List Configuration)
  matching_models selector [] = pure []
  matching_models selector (r ∷ rs) = do
    labels ← lift (format.decode r.labels)
    let rest : Action ConfigConn (List Configuration) = matching_models selector rs
    if matched selector labels then (do c ← to_config_model r; cs ← rest; pure (c ∷ cs)) else rest

  -- ListConfig, with ListConfigurationTx: the page, and the number of all that match.
  unfoldable pub list_config : String → String → Filter → Action ConfigConn (List Configuration × ℕ)
  list_config ns selector filter = do
    rows ← statement (λ t. (
      format.newest_first
          (keep (λ r. r.namespace == ns && format.like r.name (get_fuzzy_name filter)) t.rows),
      t,
    ))
    cs ← matching_models selector rows
    let range : ℕ × ℕ = (get_paging_param filter (length cs)).0
    page ← lift (slice cs range.0 range.1)
    pure (page, length cs)

-- The store as the plugin of configurations.
abbrev pub config_plugin : ConfigFormat → Bool → ConfigPlugin ConfigConn
config_plugin format in_tx = record {
  get_config = λ ns name version. get_config format ns name;
  create_config = create_config format in_tx;
  update_config = update_config format;
  delete_config = delete_config format;
}
