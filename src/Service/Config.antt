-- ===== src/Service/Config.antt =====
-- service/config.go and service/secret.go, over any plugins, with models/configuration.go's
-- comparison of two configurations.
pub mod Maps
use baetyl_cloud.Common.{
  ℕ, String, Bool, true, false, ◌&&◌, List, [], ◌∷◌, ◌==◌, if◌then◌else◌, Option, none, some,
  length, nat_eq,
}
use baetyl_cloud.Common.Action.{
  Error, coded, Code, resource_not_found, Action, pure, raise, ◌>>=◌, ◌>>◌, attempt,
}
use baetyl_cloud.Common.Dict.{Dict, lookup}
use baetyl_cloud.Spec.{Configuration, Secret}
use baetyl_cloud.Plugin.{ConfigPlugin, SecretPlugin}
use baetyl_cloud.Service.App.{is_not_found}

abbrev pub holds : String → Option String → Bool
holds v none = false
holds v (some w) = w == v

-- Every entry of the first map stands in the second.
abbrev pub covers : Dict String → Dict String → Bool
covers [] m = true
covers ((k, v) ∷ es) m = holds v (lookup k m) && covers es m

-- reflect.DeepEqual of two maps without repeated keys.
unfoldable pub same_map : Dict String → Dict String → Bool
same_map a b = nat_eq (length a) (length b) && covers a b

-- EqualConfig; an empty map and a nil map are not told apart.
unfoldable pub equal_config : Configuration → Configuration → Bool
equal_config a b =
    same_map a.labels b.labels && same_map a.entries b.entries && a.description == b.description

module _ {S : Type 0} (config : ConfigPlugin S) (now : Action S ℕ) where
  -- Get
  unfoldable pub get : String → String → String → Action S Configuration
  get ns name version = attempt (config.get_config ns name version) pure λ e.
      if is_not_found e
      then raise (coded resource_not_found (("type", "config") ∷ ("name", name) ∷ []))
      else raise e

  abbrev pub changed : String → Configuration → Configuration → Action S Configuration
  changed ns res c =
      if equal_config res c
      then pure res
      else now >>= λ t.
          config.update_config ns (record c { version = res.version; update_timestamp = t })

  -- Upsert: any error of the lookup leads to a creation.
  unfoldable pub upsert : String → Configuration → Action S Configuration
  upsert ns c =
      attempt (config.get_config ns c.name "") (λ res. changed ns res c)
        (λ e. config.create_config ns c)

module _ {S : Type 0} (secret : SecretPlugin S) where
  -- Get of the secret service
  unfoldable pub get_secret : String → String → String → Action S Secret
  get_secret ns name version = attempt (secret.get_secret ns name version) pure λ e.
      if is_not_found e
      then raise (coded resource_not_found (("type", "secret") ∷ ("name", name) ∷ []))
      else raise e
