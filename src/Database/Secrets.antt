-- ===== src/Database/Secrets.antt =====
-- plugin/database/secret.go and entities/secret.go: the secret store. Labels and data are stored as
-- text; a nil map is taken for an empty one.
use baetyl_cloud.Common.{
  ℕ, String, Bool, true, false, ◌&&◌, Option, none, some, List, [], ◌∷◌, ◌==◌, if◌then◌else◌, keep,
  ltb, length,
}
use baetyl_cloud.Common.Action.{
  Error, coded, resource_not_found, data_too_large, Result, ok, err, panicked, Action, pure, raise,
  lift, ◌>>=◌, ◌>>◌,
}
use baetyl_cloud.Common.Dict.{Dict}
use baetyl_cloud.Models.Filter.{Filter, get_fuzzy_name, get_paging_param, slice}
use baetyl_cloud.Database.{Conn, statement, transact}
use baetyl_cloud.Database.Keyed.{Table, Key, find, insert, update, delete}

-- specV1.Secret; its data stand by their texts.
pub record SecretModel : Type 0 where
  pub namespace : String
  pub name : String
  pub version : String
  pub system : Bool
  pub creation_timestamp : ℕ
  pub update_timestamp : ℕ
  pub labels : Dict String
  pub entries : Dict String
  pub description : String

-- entities.Secret
pub record SecretRow : Type 0 where
  pub id : ℕ
  pub namespace : String
  pub name : String
  pub labels : String
  pub entries : String
  pub description : String
  pub version : String
  pub system : Bool
  pub create_time : ℕ
  pub update_time : ℕ

abbrev pub SecretConn : Type 0
SecretConn = Conn (Table SecretRow)

-- json of labels and of data, GenResourceVersion, the texts of numbers, and what listings use of
-- the database and of baetyl-go; `unique` tells whether the schema makes the namespace and the
-- name a key.
pub record SecretFormat : Type 0 where
  pub encode_labels : Dict String → Result String
  pub decode_labels : String → Result (Dict String)
  pub encode_entries : Dict String → Result String
  pub decode_entries : String → Result (Dict String)
  pub byte_length : String → ℕ
  pub number_text : ℕ → String
  pub gen_version : Action SecretConn String
  pub like : String → String → Bool
  pub newest_first : List SecretRow → List SecretRow
  pub is_label_match : String → Dict String → Result Bool
  pub unique : Bool

abbrev secret_key : Bool → Key SecretRow
secret_key unique = record {
  namespace_of = λ r. r.namespace;
  name_of = λ r. r.name;
  stamp = λ i t r. record r { id = i; create_time = t; update_time = t };
  unique = unique;
}

module _ (format : SecretFormat) where
  abbrev key : Key SecretRow
  key = secret_key format.unique

  -- ToSecretModel
  unfoldable pub to_secret_model : {S : Type 0} → SecretRow → Action S SecretModel
  to_secret_model r = do
    labels ← lift (format.decode_labels r.labels)
    entries ← lift (format.decode_entries r.entries)
    pure (record {
      namespace = r.namespace;
      name = r.name;
      version = r.version;
      system = r.system;
      creation_timestamp = r.create_time;
      update_timestamp = r.update_time;
      labels = labels;
      entries = entries;
      description = r.description;
    })

  abbrev too_large : SecretModel → String → Error
  too_large s entries = coded data_too_large (
      ("name", s.name)
      ∷ ("size", format.number_text (format.byte_length entries))
      ∷ ("max", format.number_text 65535)
      ∷ [])

  abbrev check_size : SecretModel → String → Action SecretConn (Unit {0})
  check_size s entries =
      if ltb (format.byte_length entries) 65536 then pure tt else raise (too_large s entries)

  -- FromSecretModel
  unfoldable pub from_secret_model : String → SecretModel → Action SecretConn SecretRow
  from_secret_model ns s = do
    labels ← lift (format.encode_labels s.labels)
    entries ← lift (format.encode_entries s.entries)
    check_size s entries
    version ← format.gen_version
    pure (record {
      id = 0;
      namespace = ns;
      name = s.name;
      labels = labels;
      entries = entries;
      description = s.description;
      version = version;
      system = s.system;
      create_time = s.creation_timestamp;
      update_time = s.update_timestamp;
    })

  abbrev model_of : String → Option SecretRow → Action SecretConn SecretModel
  model_of name none = raise (coded resource_not_found (("type", "secret") ∷ ("name", name) ∷ []))
  model_of name (some r) = to_secret_model r

  -- GetSecret, with GetSecretTx
  unfoldable pub get_secret : String → String → Action SecretConn SecretModel
  get_secret ns name = do row ← statement (λ t. (find key ns name t.rows, t)); model_of name row

  -- CreateSecretTx
  unfoldable pub create_secret_tx : String → SecretModel → Action SecretConn (Unit {0})
  create_secret_tx ns s = do row ← from_secret_model ns s; r ← statement (insert key row); lift r

  -- createAndGetSecret
  unfoldable pub create_and_get_secret : String → SecretModel → Action SecretConn SecretModel
  create_and_get_secret ns s = do create_secret_tx ns s; get_secret ns s.name

  -- CreateSecret; the flag tells whether a transaction is given.
  unfoldable pub create_secret : Bool → String → SecretModel → Action SecretConn SecretModel
  create_secret true ns s = create_and_get_secret ns s
  create_secret false ns s = transact (create_and_get_secret ns s)

  abbrev written : SecretRow → SecretRow → SecretRow
  written new r = record r {
    version = new.version;
    description = new.description;
    labels = new.labels;
    entries = new.entries;
  }

  -- UpdateSecretTx
  unfoldable pub update_secret_tx : String → SecretModel → Action SecretConn (Unit {0})
  update_secret_tx ns s = do
    row ← from_secret_model ns s
    statement
        (λ t. (tt, record t { rows = update key row.namespace row.name (written row) t.rows }))

  -- UpdateSecret, always in a transaction of its own.
  unfoldable pub update_secret : String → SecretModel → Action SecretConn SecretModel
  update_secret ns s = transact (do update_secret_tx ns s; get_secret ns s.name)

  -- DeleteSecret, with DeleteSecretTx
  unfoldable pub delete_secret : String → String → Action SecretConn (Unit {0})
  delete_secret ns name = statement (λ t. (tt, delete key ns name t))

  abbrev matched : String → Dict String → Bool
  matched selector labels = elim (format.is_label_match selector labels) [
    | ok b ↦ b
    | err e ↦ false
    | panicked ↦ false
  ]

  -- The loop of ListSecretTx; a selector that cannot be tested leaves a row out.
  unfoldable pub matching_models : String → List SecretRow → Action SecretConn (List SecretModel)
  matching_models selector [] = pure []
  matching_models selector (r ∷ rs) = do
    labels ← lift (format.decode_labels r.labels)
    let rest : Action SecretConn (List SecretModel) = matching_models selector rs
    if matched selector labels
        then (do s ← to_secret_model r; found ← rest; pure (s ∷ found))
        else rest

  -- ListSecret, with ListSecretTx: the page, and the number of all that match.
  unfoldable pub list_secret : String → String → Filter → Action SecretConn (List SecretModel × ℕ)
  list_secret ns selector filter = do
    rows ← statement (λ t. (
      format.newest_first
          (keep (λ r. r.namespace == ns && format.like r.name (get_fuzzy_name filter)) t.rows),
      t,
    ))
    found ← matching_models selector rows
    let range : ℕ × ℕ = (get_paging_param filter (length found)).0
    page ← lift (slice found range.0 range.1)
    pure (page, length found)
