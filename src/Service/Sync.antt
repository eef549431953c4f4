-- ===== src/Service/Sync.antt =====
-- service/sync.go: what a node reports, and the resources that it asks for.
pub mod Answers
use baetyl_cloud.Common.{
  ℕ, String, ◌≡◌, refl, ap, Bool, true, false, not, ◌||◌, Option, none, some, List, [], ◌∷◌, ◌++◌,
  map, ◌==◌, if◌then◌else◌, arith, eq_iff,
}
use baetyl_cloud.Common.Action.{
  Error, coded, plain, Code, node_not_ready, Result, ok, err, Action, pure, raise, lift, ◌>>=◌,
  ◌>>◌, Ensures, Ensures-pure, Ensures-bind,
}
use baetyl_cloud.Common.Dict.{Dict, lookup, insert, lookup-insert}
use baetyl_cloud.Spec.{Application, Configuration, Secret, AppInfo, Node, Value, str}
use baetyl_cloud.Spec.Desire.{DesireApi}
use baetyl_cloud.Plugin.{Shadow}

-- The kinds of specV1; each of the first two resources has two names.
pub data Kind : Type 0 where
  kind_application kind_app kind_configuration kind_config kind_secret kind_other : Kind

pub record ResourceInfo : Type 0 where
  pub kind : Kind
  pub name : String
  pub version : String

pub data Resource : Type 0 where
  an_app : Application → Resource
  a_config : Configuration → Resource
  a_secret : Secret → Resource

pub record ResourceValue : Type 0 where
  pub info : ResourceInfo
  pub value : Resource

-- The services that the synchronisation calls, the hook that is set for configs, and three
-- constants of specV1: BaetylInit, KeySyncMode and LocalMode.
pub record SyncServices (S : Type 0) : Type 0 where
  pub update_init_report : String → String → Option (Dict Value) → Action S Shadow
  pub update_report : String → String → Option (Dict Value) → Action S Shadow
  pub node_get : String → String → Action S Node
  pub app_get : String → String → String → Action S Application
  pub config_get : String → String → String → Action S Configuration
  pub secret_get : String → String → String → Action S Secret
  pub populate_config : Configuration → Dict String → Action S Configuration
  pub init_source : String
  pub sync_mode_key : String
  pub local_mode : String

abbrev copied : String → Dict Value → Dict Value → Dict Value
copied k report res = elim (lookup k report) [ none ↦ res | some v ↦ insert k v res ]

-- extractComparingReport
unfoldable pub extract_comparing_report : Dict Value → Dict Value
extract_comparing_report report =
    copied "nodeprops" report (copied "sysapps" report (copied "apps" report []))

abbrev pub map_of : Option (Dict Value) → Dict Value
map_of none = []
map_of (some d) = d

abbrev mode_at : String → Dict Value → String
mode_at key d = elim (lookup key d) [ some (str s) ↦ s | _ ↦ "" ]

abbrev is_local : String → String → Option (Dict Value) → Bool
is_local key mode none = false
is_local key mode (some d) = mode_at key d == mode

abbrev with_node_props : Dict Value → Dict (Option Value) → Dict (Option Value)
with_node_props desire delta = elim (lookup "nodeprops" desire) [
  | none ↦ delta
  | some v ↦ insert "nodeprops" (some v) delta
]

-- checkSysapp
unfoldable pub check_sysapp : DesireApi → String → Option (Dict Value) → Result (Unit {0})
check_sysapp api name desire = elim (api.app_infos (map_of desire) true) [
  | [] ↦ err (coded node_not_ready (("name", name) ∷ []))
  | a ∷ as' ↦ ok tt
]

module _ {S : Type 0} (api : DesireApi) (services : SyncServices S) where
  abbrev delta_of : Shadow → Node → Result (Option (Dict (Option Value)))
  delta_of sh n =
      if is_local services.sync_mode_key services.local_mode n.attributes
      then ok none
      else elim (api.diff_with_nil (map_of sh.desire)
          (extract_comparing_report (map_of sh.report))) [
            | ok d ↦ ok (some (with_node_props (map_of sh.desire) d))
            | err e ↦ err e
            | Result.panicked ↦ Result.panicked
          ]

  -- Report; a delta is `none` where it is nil.
  unfoldable pub report :
      String → String → String → Option (Dict Value) → Action S (Option (Dict (Option Value)))
  report ns name source r = do
    sh ←
        (if source == services.init_source
          then services.update_init_report ns name r
          else services.update_report ns name r)
    lift (check_sysapp api name sh.desire)
    n ← services.node_get ns name
    lift (delta_of sh n)

  abbrev pub populated : String → String → String → Dict String → Action S Configuration
  populated ns name version metadata = do
    c ← services.config_get ns name version
    services.populate_config c metadata

  -- The switch of Desire.
  abbrev pub of_kind : String → Dict String → String → String → Kind → Action S Resource
  of_kind ns metadata name version kind_application =
      services.app_get ns name version >>= λ a. pure (an_app a)
  of_kind ns metadata name version kind_app =
      services.app_get ns name version >>= λ a. pure (an_app a)
  of_kind ns metadata name version kind_configuration =
      populated ns name version metadata >>= λ c. pure (a_config c)
  of_kind ns metadata name version kind_config =
      populated ns name version metadata >>= λ c. pure (a_config c)
  of_kind ns metadata name version kind_secret =
      services.secret_get ns name version >>= λ s. pure (a_secret s)
  of_kind ns metadata name version kind_other = raise (plain "unsupported request type")

  unfoldable pub resource_of : String → Dict String → ResourceInfo → Action S Resource
  resource_of ns metadata info = of_kind ns metadata info.name info.version info.kind

  -- Desire
  unfoldable pub desire : String → Dict String → List ResourceInfo → Action S (List ResourceValue)
  desire ns metadata [] = pure []
  desire ns metadata (info ∷ infos) = do
    value ← resource_of ns metadata info
    rest ← desire ns metadata infos
    pure (record { info = info; value = value } ∷ rest)
