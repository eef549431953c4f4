-- ===== src/Facade/Versions.antt =====
-- facade/config.go and facade/secret.go: a new version of a configuration or of a secret reaches
-- the applications that mount it.
pub mod Bumps
use Prim.Native.Nat.{Ordering}
use Prim.Native.String.{compare}
use baetyl_cloud.Common.{
  String, Bool, true, false, not, ◌&&◌, ◌||◌, Option, none, some, List, [], ◌∷◌, ◌==◌,
  if◌then◌else◌,
}
use baetyl_cloud.Common.Action.{
  Error, coded, plain, Code, resource_not_found, Action, pure, raise, ◌>>=◌, ◌>>◌, attempt,
}
use baetyl_cloud.Spec.{Application, Configuration, Secret, ObjectReference, Volume}
use baetyl_cloud.Facade.{TransactionFactory, Services, in_tx}

-- strings.Compare(a, b) > 0
abbrev pub is_later : String → String → Bool
is_later a b = elim (compare a b) [ Ordering.gt ↦ true | _ ↦ false ]

-- The test and the write of needUpdateApp and of needUpdateAppSecret on one reference.
abbrev pub is_outdated : String → String → Option ObjectReference → Bool
is_outdated name version none = false
is_outdated name version (some r) = r.name == name && is_later version r.version

abbrev pub raised : String → String → Option ObjectReference → Option ObjectReference
raised name version none = none
raised name version (some r) =
    if r.name == name && is_later version r.version
    then some (record r { version = version })
    else some r

-- The loop of needUpdateApp; the versions are written into the application's own volumes.
unfoldable pub bump_configs : String → String → List Volume → Bool × List Volume
bump_configs name version [] = (false, [])
bump_configs name version (v ∷ vs) =
    let rest = bump_configs name version vs in
    (
      is_outdated name version v.config || rest.0,
      record v { config = raised name version v.config } ∷ rest.1,
    )

-- needUpdateApp
unfoldable pub need_update_app : Configuration → Application → Bool × Application
need_update_app c app =
    let r = bump_configs c.name c.version app.volumes in (r.0, record app { volumes = r.1 })

-- The loop of needUpdateAppSecret.
unfoldable pub bump_secrets : String → String → List Volume → Bool × List Volume
bump_secrets name version [] = (false, [])
bump_secrets name version (v ∷ vs) =
    let rest = bump_secrets name version vs in
    (
      is_outdated name version v.secret || rest.0,
      record v { secret = raised name version v.secret } ∷ rest.1,
    )

-- needUpdateAppSecret
unfoldable pub need_update_app_secret : Secret → Application → Bool × Application
need_update_app_secret s app =
    let r = bump_secrets s.name s.version app.volumes in (r.0, record app { volumes = r.1 })

-- e.Code() == common.ErrResourceNotFound
abbrev pub is_missing : Error → Bool
is_missing (coded resource_not_found fields) = true
is_missing (coded code fields) = false
is_missing (plain text) = false

module _ {S : Type 0} (factory : TransactionFactory S) (services : Services S) where
  abbrev store_app : String → Bool × Application → Action S (Unit {0})
  store_app ns (false, app) = pure tt
  store_app ns (true, app) = do
    made ← services.app_update ns app
    services.update_node_app_version ns made
    pure tt

  -- One round of the two loops: a missing application is passed over.
  unfoldable pub update_one :
      (Application → Bool × Application) → String → String → Action S (Unit {0})
  update_one need ns name =
      attempt (services.app_get ns name "") (λ app. store_app ns (need app))
        (λ e. if is_missing e then pure tt else raise e)

  unfoldable pub update_each :
      (Application → Bool × Application) → String → List String → Action S (Unit {0})
  update_each need ns [] = pure tt
  update_each need ns (name ∷ names) = do update_one need ns name; update_each need ns names

  -- updateNodeAndApp
  unfoldable pub update_node_and_app : String → Configuration → List String → Action S (Unit {0})
  update_node_and_app ns c names = update_each (need_update_app c) ns names

  -- CreateConfig
  unfoldable pub create_config : String → Configuration → Action S Configuration
  create_config ns c = in_tx factory (services.config_create ns c)

  -- UpdateConfig
  unfoldable pub update_config : String → Configuration → Action S Configuration
  update_config ns c = do
    res ← services.config_update ns c
    names ← services.list_app_index_by_config ns res.name
    update_node_and_app ns res names
    pure res

  -- DeleteConfig
  unfoldable pub delete_config : String → String → Action S (Unit {0})
  delete_config ns name = services.config_delete ns name

  -- CreateSecret
  unfoldable pub create_secret : String → Secret → Action S Secret
  create_secret ns s = in_tx factory (services.secret_create ns s)

  -- updateAppSecret
  unfoldable pub update_app_secret : String → Secret → Action S (Unit {0})
  update_app_secret ns s = do
    names ← services.list_app_index_by_secret ns s.name
    update_each (need_update_app_secret s) ns names

  -- UpdateSecret
  unfoldable pub update_secret : String → Secret → Action S Secret
  update_secret ns s = do res ← services.secret_update ns s; update_app_secret ns res; pure res

  -- DeleteSecret
  unfoldable pub delete_secret : String → String → Action S (Unit {0})
  delete_secret ns name = services.secret_delete ns name
