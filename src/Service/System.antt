-- ===== src/Service/System.antt =====
-- service/system_app.go: the applications that every node runs, generated from templates. The
-- parameters of a template are a map that the steps share: each gives it back as it left it.
pub mod Apps
pub mod Init
use Prim.Native.String.{◌++◌ as str_append}
use baetyl_cloud.Common.{
  ℕ, String, Bool, true, false, Option, none, some, List, [], ◌∷◌, ◌++◌, ◌==◌, if◌then◌else◌,
}
use baetyl_cloud.Common.Action.{
  Error, coded, Code, resource_not_found, Result, ok, err, panicked, Action, pure, raise, lift,
  panic, ◌>>=◌, ◌>>◌, attempt,
}
use baetyl_cloud.Common.Dict.{Dict, lookup, insert}
use baetyl_cloud.Spec.{Application, Configuration}

-- What stands in the map of a template's parameters.
pub data Param : Type 0 where
  text : String → Param
  flag : Bool → Param
  number : ℕ → Param

abbrev pub Params : Type 0
Params = Dict Param

-- `for k, v := range from { into[k] = v }`
unfoldable pub merge : Params → Params → Params
merge [] into = into
merge (e ∷ es) into = merge es (insert e.0 e.1 into)

-- specV1.Secret with the fields that are written here; its data stand by their texts.
pub record SystemSecret : Type 0 where
  pub name : String
  pub namespace : String
  pub version : String
  pub labels : Dict String
  pub entries : Dict String
  pub annotations : Dict String
  pub system : Bool

-- specV1.Node, with the fields that the generation reads.
pub record NodeInfo : Type 0 where
  pub namespace : String
  pub name : String
  pub node_mode : String
  pub accelerator : String
  pub sys_apps : List String

-- models.PEMCredential
pub record PemCredential : Type 0 where
  pub cert_pem : String
  pub key_pem : String
  pub cert_id : String

-- models.Registry, as its three texts.
pub record Registry : Type 0 where
  pub address : String
  pub username : String
  pub password : String

-- The services and plugins that the generation calls, and the names of baetyl-go.
pub record SystemServices (S : Type 0) : Type 0 where
  pub sign_client_certificate : String → Action S PemCredential
  pub get_ca : Action S String
  pub get_property_value : String → Action S String
  pub unmarshal_config : String → Params → Action S Configuration
  pub unmarshal_application : String → Params → Action S Application
  pub config_create : String → Configuration → Action S Configuration
  pub config_get : String → String → Action S Configuration
  pub app_create : String → Application → Action S Application
  pub app_get : String → String → Action S Application
  pub secret_create : String → SystemSecret → Action S SystemSecret
  pub secret_get : String → String → Action S SystemSecret
  pub decode_registry : String → Result Registry
  pub rand_string : Action S String
  pub baetyl_core : String
  pub baetyl_init : String
  pub baetyl_function : String
  pub baetyl_broker : String
  pub baetyl_rule : String
  pub baetyl_ekuiper : String
  pub host_path_lib : String
  pub secret_label : String
  pub secret_config : String
  pub secret_registry : String

abbrev pub registry_auth : String
registry_auth = "system-registry-auth"

abbrev pub dashed : String → String → String
dashed a b = str_append a (str_append "-" b)

module _ {S : Type 0} (api : SystemServices S) where
  -- A name ending in nine random characters.
  abbrev pub random_name : String → Action S String
  random_name prefix = do suffix ← api.rand_string; pure (dashed prefix suffix)

  -- genNodeCerts
  unfoldable pub gen_node_certs : String → String → String → Action S SystemSecret
  gen_node_certs ns node_name app_name = do
    conf_name ← random_name (dashed "crt" node_name)
    pem ← api.sign_client_certificate (str_append ns (str_append "." node_name))
    ca ← api.get_ca
    api.secret_create ns (record {
      name = conf_name;
      namespace = ns;
      version = "";
      labels =
          ("baetyl-app-name", app_name)
          ∷ ("baetyl-node-name", node_name)
          ∷ (api.secret_label, api.secret_config)
          ∷ ("baetyl-cloud-system", "true")
          ∷ ("resource-invisible", "true")
          ∷ [];
      entries = ("client.pem", pem.cert_pem) ∷ ("client.key", pem.key_pem) ∷ ("ca.pem", ca) ∷ [];
      annotations = ("cloud.baetyl.io/pkiCertID", pem.cert_id) ∷ [];
      system = true;
    })

  -- GenConfig: a config that cannot be created is looked up.
  unfoldable pub gen_config : String → String → Params → Action S Configuration
  gen_config ns template params = do
    cfg ← api.unmarshal_config template params
    attempt (api.config_create ns cfg) pure (λ e. api.config_get ns cfg.name)

  abbrev has_not_found_code : Error → Bool
  has_not_found_code (coded resource_not_found fields) = true
  has_not_found_code e = false

  abbrev registry_secret : String → Registry → SystemSecret
  registry_secret ns r = record {
    name = registry_auth;
    namespace = ns;
    version = "";
    labels =
        (api.secret_label, api.secret_registry)
        ∷ ("resource-invisible", "true")
        ∷ ("baetyl-cloud-system", "true")
        ∷ [];
    entries = ("address", r.address) ∷ ("username", r.username) ∷ ("password", r.password) ∷ [];
    annotations = [];
    system = true;
  }

  -- GenSystemRegistry: the version of the secret, which is created where there is none.
  unfoldable pub gen_system_registry : String → String → Action S String
  gen_system_registry ns auth = do
    r ← lift (api.decode_registry auth)
    secret ←
        attempt (api.secret_get ns registry_auth) pure (λ e.
          if has_not_found_code e then api.secret_create ns (registry_secret ns r) else raise e)
    pure secret.version

  abbrev with_registry : String → Params → Action S Params
  with_registry ns params =
      let cleared : Params = insert "RegistryAuth" (text "") params in
      attempt (api.get_property_value registry_auth)
        (λ auth. do
          version ← gen_system_registry ns auth
          pure (
              insert "RegistryAuthVersion" (text version)
                (insert "RegistryAuth" (text registry_auth) cleared)))
        (λ e. pure cleared)

  -- A version that is no text panics.
  abbrev versioned : Option Param → Application → Action S Application
  versioned none app = pure app
  versioned (some (text v)) app = pure (record app { version = v })
  versioned (some (flag b)) app = panic
  versioned (some (number n)) app = panic

  -- GenApp: an application that cannot be created is looked up.
  unfoldable pub gen_app : String → String → Params → Action S (Application × Params)
  gen_app ns template params = do
    full ← with_registry ns params
    made ← api.unmarshal_application template full
    app ← versioned (lookup "AppVersion" full) made
    created ← attempt (api.app_create ns app) pure (λ e. api.app_get ns app.name)
    pure (created, full)
