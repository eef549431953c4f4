-- ===== src/Service/App.antt =====
-- service/application.go
pub mod Names
pub mod Indexes
use Prim.Native.String.{◌++◌ as str_append}
use baetyl_cloud.Common.{
  String, Bool, true, false, Option, none, some, List, [], ◌∷◌, ◌++◌, map, ◌==◌, if◌then◌else◌, mem,
  contains,
}
use baetyl_cloud.Common.Action.{
  Error, coded, plain, Code, resource_not_found, app_name_conflict, volume_not_found_when_mount,
  Result, ok, err, panicked, Action, pure, raise, lift, ◌>>=◌, ◌>>◌, attempt,
}
use baetyl_cloud.Spec.{ObjectReference, Volume, Service, Application, Configuration}
use baetyl_cloud.Plugin.{ConfigPlugin, SecretPlugin, AppPlugin, IndexPlugin}
use baetyl_cloud.Service.Index.{refresh_config_index_by_app, refresh_secret_index_by_app}

-- strings.Contains(err.Error(), "not found"). Of the messages of common/message.go that the model
-- has, only that of ErrResourceNotFound holds these words, whatever its fields.
unfoldable pub is_not_found : Error → Bool
is_not_found (coded resource_not_found fields) = true
is_not_found (coded code fields) = false
is_not_found (plain text) = contains text "not found"

-- The first loop of validName. A map from names to true is the list of its names.
unfoldable pub check_volumes : List String → List Volume → Result (List String)
check_volumes seen [] = ok seen
check_volumes seen (v ∷ vs) =
    let rest = check_volumes (v.name ∷ seen) vs in
    if mem v.name seen
    then err (coded app_name_conflict (("where", "Volumes[]") ∷ ("name", v.name) ∷ []))
    else rest

-- The loop over the mounts of a service.
unfoldable pub check_mounts : List String → List String → Result (Unit {0})
check_mounts vf [] = ok tt
check_mounts vf (m ∷ ms) =
    let rest = check_mounts vf ms in
    if mem m vf then rest else err (coded volume_not_found_when_mount (("name", m) ∷ []))

abbrev after : {A : Type 0} → Result (Unit {0}) → Result A → Result A
after (ok u) r = r
after (err e) r = err e
after panicked r = panicked

-- The second loop of validName.
unfoldable pub check_services : List String → List String → List Service → Result (Unit {0})
check_services vf sf [] = ok tt
check_services vf sf (s ∷ ss) =
    let rest = check_services vf (s.name ∷ sf) ss in
    if mem s.name sf
    then err (coded app_name_conflict (("where", "Services[]") ∷ ("name", s.name) ∷ []))
    else after (check_mounts vf s.volume_mounts) rest

abbrev with_volumes : Result (List String) → List Service → Result (Unit {0})
with_volumes (ok vf) services = check_services vf [] services
with_volumes (err e) services = err e
with_volumes panicked services = panicked

-- validName
unfoldable pub valid_name : Application → Result (Unit {0})
valid_name app = with_volumes (check_volumes [] app.volumes) app.services

-- The volumes with the latest versions, and the names of the configs and of the secrets.
pub record Gathered : Type 0 where
  pub volumes : List Volume
  pub configs : List String
  pub secrets : List String

abbrev pub with_volume : Volume → List String → List String → Gathered → Gathered
with_volume v cs ss rest = record {
  volumes = v ∷ rest.volumes;
  configs = cs ++ rest.configs;
  secrets = ss ++ rest.secrets;
}

module _ {S : Type 0} (config : ConfigPlugin S) (secret : SecretPlugin S) (app : AppPlugin S)
    (index : IndexPlugin S) (rand_string : Action S String) where
  -- The branch of getConfigsAndSecrets on a volume's config: the reference, and its name.
  unfoldable pub latest_config :
      String → Option ObjectReference → Action S (Option ObjectReference × List String)
  latest_config ns none = pure (none, [])
  latest_config ns (some r) = do
    c ← config.get_config ns r.name ""
    pure (some (record r { version = c.version }), r.name ∷ [])

  unfoldable pub latest_secret :
      String → Option ObjectReference → Action S (Option ObjectReference × List String)
  latest_secret ns none = pure (none, [])
  latest_secret ns (some r) = do
    c ← secret.get_secret ns r.name ""
    pure (some (record r { version = c.version }), r.name ∷ [])

  -- getConfigsAndSecrets; the versions are written into the application's own volumes.
  unfoldable pub get_configs_and_secrets : String → List Volume → Action S Gathered
  get_configs_and_secrets ns [] = pure (record { volumes = []; configs = []; secrets = [] })
  get_configs_and_secrets ns (v ∷ vs) = do
    c ← latest_config ns v.config
    x ← latest_secret ns v.secret
    rest ← get_configs_and_secrets ns vs
    pure (with_volume (record v { config = c.0; secret = x.0 }) c.1 x.1 rest)

  -- Get
  unfoldable pub get : String → String → String → Action S Application
  get ns name version = attempt (app.get_application ns name version) pure λ e.
      if is_not_found e
      then raise (coded resource_not_found (("type", "app") ∷ ("name", name) ∷ []))
      else raise e

  -- Create
  unfoldable pub create : String → Application → Action S Application
  create ns a = do
    g ← get_configs_and_secrets ns a.volumes
    refresh_config_index_by_app index ns a.name g.configs
    refresh_secret_index_by_app index ns a.name g.secrets
    app.create_application ns (record a { volumes = g.volumes })

  -- Update
  unfoldable pub update : String → Application → Action S Application
  update ns a = do
    lift (valid_name a)
    g ← get_configs_and_secrets ns a.volumes
    b ← app.update_application ns (record a { volumes = g.volumes })
    refresh_config_index_by_app index ns b.name g.configs
    refresh_secret_index_by_app index ns b.name g.secrets
    pure b

  -- Delete; errors of the index are logged only.
  unfoldable pub delete : String → String → Action S (Unit {0})
  delete ns name = do
    app.delete_application ns name
    attempt (refresh_config_index_by_app index ns name []) pure (λ e. pure tt)
    attempt (refresh_secret_index_by_app index ns name []) pure (λ e. pure tt)

  -- The second try of constructConfig, under a name of its own.
  unfoldable pub create_renamed :
      String → Configuration → ObjectReference → Action S ObjectReference
  create_renamed ns c r = do
    suffix ← rand_string
    made ← config.create_config ns (record c { name = str_append c.name (str_append "-" suffix) })
    pure (record { name = made.name; version = made.version })

  -- constructConfig for one config reference.
  unfoldable pub copy_config : String → String → ObjectReference → Action S ObjectReference
  copy_config ns base_ns r =
      attempt (config.get_config base_ns r.name "")
        (λ c.
          attempt (config.create_config ns c) (λ made. pure (record r { version = made.version }))
            (λ e. create_renamed ns c r))
        λ e. raise (
          coded resource_not_found
            (("type", "config") ∷ ("namespace", base_ns) ∷ ("name", r.name) ∷ []))

  abbrev copy_config? : String → String → Option ObjectReference → Action S (Option ObjectReference)
  copy_config? ns base_ns none = pure none
  copy_config? ns base_ns (some r) = do d ← copy_config ns base_ns r; pure (some d)

  -- constructConfig; the references of the base's volumes are changed in place.
  unfoldable pub construct_config : String → String → List Volume → Action S (List Volume)
  construct_config ns base_ns [] = pure []
  construct_config ns base_ns (v ∷ vs) = do
    c ← copy_config? ns base_ns v.config
    rest ← construct_config ns base_ns vs
    pure (record v { config = c } ∷ rest)

  abbrev base_volumes : String → Application → Action S (List Volume)
  base_volumes ns base =
      if ns == base.namespace
      then pure base.volumes
      else construct_config ns base.namespace base.volumes

  abbrev checked_create : String → Application → Action S Application
  checked_create ns a = do lift (valid_name a); create ns a

  -- CreateWithBase
  unfoldable pub create_with_base : String → Application → Option Application → Action S Application
  create_with_base ns a none = checked_create ns a
  create_with_base ns a (some base) = do
    vs ← base_volumes ns base
    checked_create ns
        (record a { services = base.services ++ a.services; volumes = vs ++ a.volumes })
