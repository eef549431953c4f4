-- ===== src/Service/System/Apps.antt =====
-- service/system_app.go: GenApps, GenOptionalApps and the generation of each application.
use Prim.Native.String.{◌++◌ as str_append}
use baetyl_cloud.Common.{String, Bool, not, Option, none, some, List, [], ◌∷◌, ◌++◌, map, ◌==◌}
use baetyl_cloud.Common.Action.{Action, pure, ◌>>=◌}
use baetyl_cloud.Common.Dict.{Dict, lookup, insert}
use baetyl_cloud.Spec.{Application}
use baetyl_cloud.Service.System.{
  text, flag, Params, merge, NodeInfo, SystemServices, dashed, random_name, gen_node_certs,
  gen_config, gen_app,
}

-- The hooks of the generation, where they are installed.
pub record GenHooks (S : Type 0) : Type 0 where
  pub populate_params : Option (String → Params → Action S Params)
  pub populate_opt_apps_params : Option (String → Params → List String → Action S Params)
  pub gen_apps_by_option : Option (String → NodeInfo → Params → Action S (List Application))
  pub gen_sync_ext_resource : Option (String → NodeInfo → Params → Action S Params)

abbrev is_kube : NodeInfo → Bool
is_kube node = node.node_mode == "kube"

-- The templates and the names of the parameters of an application with one config.
pub record WithConfig : Type 0 where
  pub module_name : String
  pub app_key : String
  pub conf_key : String
  pub version_key : String
  pub conf_template : String
  pub app_template : String

module _ {S : Type 0} (api : SystemServices S) (hooks : GenHooks S) where
  abbrev host_path : Params
  host_path = (api.host_path_lib, text (str_append "{{." (str_append api.host_path_lib "}}"))) ∷ []

  -- The parameters that both GenApps and GenOptionalApps start from.
  abbrev base_params : String → NodeInfo → Params
  base_params ns node =
      ("Namespace", text ns)
      ∷ ("NodeName", text node.name)
      ∷ ("NodeMode", text node.node_mode)
      ∷ ("AppMode", text node.node_mode)
      ∷ host_path

  -- genCoreApp
  unfoldable pub gen_core_app : String → Params → Action S (Application × Params)
  gen_core_app ns params = do
    conf_name ← random_name api (dashed api.baetyl_core "conf")
    let named : Params = insert "AgentPort" (text "30080") (
        insert "CoreAPIPort" (text "30050")
          (insert "CoreFrequency" (text "20s") (insert "CoreConfName" (text conf_name) params)))
    conf ← gen_config api ns "baetyl-core-conf.yml" named
    gen_app api ns "baetyl-core-app.yml" (insert "CoreConfVersion" (text conf.version) named)

  -- genInitApp
  unfoldable pub gen_init_app : String → Params → Action S (Application × Params)
  gen_init_app ns params = do
    app_name ← random_name api api.baetyl_init
    conf_name ← random_name api (dashed api.baetyl_init "conf")
    let named : Params =
        insert "AgentPort" (text "30080")
          (insert "InitConfName" (text conf_name) (insert "InitAppName" (text app_name) params))
    conf ← gen_config api ns "baetyl-init-conf.yml" named
    gen_app api ns "baetyl-init-app.yml" (insert "InitConfVersion" (text conf.version) named)

  -- What genFunctionApp, genBrokerApp and genRuleApp do alike; they leave the parameters.
  unfoldable pub gen_with_config : WithConfig → String → String → Params → Action S Application
  gen_with_config w ns node_name params = do
    app_name ← random_name api w.module_name
    conf_name ← random_name api (dashed w.module_name "conf")
    conf ← gen_config api ns w.conf_template (
        merge params (
          ("Namespace", text ns)
          ∷ ("NodeName", text node_name)
          ∷ (w.app_key, text app_name)
          ∷ (w.conf_key, text conf_name)
          ∷ []))
    made ← gen_app api ns w.app_template (
        merge params (
          ("Namespace", text ns)
          ∷ ("NodeName", text node_name)
          ∷ (w.app_key, text app_name)
          ∷ (w.conf_key, text conf.name)
          ∷ (w.version_key, text conf.version)
          ∷ []))
    pure made.0

  -- genFunctionApp
  unfoldable pub gen_function_app : String → NodeInfo → Params → Action S Application
  gen_function_app ns node params =
      gen_with_config
        (record {
          module_name = api.baetyl_function;
          app_key = "FunctionAppName";
          conf_key = "FunctionConfName";
          version_key = "FunctionConfVersion";
          conf_template = "baetyl-function-conf.yml";
          app_template = "baetyl-function-app.yml";
        })
        ns node.name params

  -- genBrokerApp
  unfoldable pub gen_broker_app : String → String → Params → Action S Application
  gen_broker_app ns node_name params =
      gen_with_config
        (record {
          module_name = api.baetyl_broker;
          app_key = "BrokerAppName";
          conf_key = "BrokerConfName";
          version_key = "BrokerConfVersion";
          conf_template = "baetyl-broker-conf.yml";
          app_template = "baetyl-broker-app.yml";
        })
        ns node_name params

  -- genRuleApp
  unfoldable pub gen_rule_app : String → NodeInfo → Params → Action S Application
  gen_rule_app ns node params =
      gen_with_config
        (record {
          module_name = api.baetyl_rule;
          app_key = "RuleAppName";
          conf_key = "RuleConfName";
          version_key = "RuleConfVersion";
          conf_template = "baetyl-rule-conf.yml";
          app_template = "baetyl-rule-app.yml";
        })
        ns node.name params

  -- genEkuiperApp
  unfoldable pub gen_ekuiper_app : String → NodeInfo → Params → Action S Application
  gen_ekuiper_app ns node params = do
    app_name ← random_name api api.baetyl_ekuiper
    made ← gen_app api ns "baetyl-ekuiper-app.yml" (
        merge params (
          ("Namespace", text ns)
          ∷ ("NodeName", text node.name)
          ∷ ("EkuiperAppName", text app_name)
          ∷ []))
    pure made.0

  -- OptionalAppFuncs
  unfoldable pub optional_app_funcs : Dict (String → NodeInfo → Params → Action S Application)
  optional_app_funcs =
      (api.baetyl_function, gen_function_app)
      ∷ (api.baetyl_rule, gen_rule_app)
      ∷ (api.baetyl_ekuiper, gen_ekuiper_app)
      ∷ []

  -- GetOptionalApps
  unfoldable pub get_optional_apps : List String
  get_optional_apps = map (λ e. e.0) optional_app_funcs

  -- The loop of GenOptionalApps; a name without a function is passed over.
  unfoldable pub gen_named : String → NodeInfo → Params → List String → Action S (List Application)
  gen_named ns node params [] = pure []
  gen_named ns node params (v ∷ vs) =
      let rest : Action S (List Application) = gen_named ns node params vs in
      elim (lookup v optional_app_funcs) [
        | none ↦ rest
        | some f ↦ f ns node params >>= λ app. rest >>= λ apps. pure (app ∷ apps)
      ]

  abbrev opt_populated : String → Params → List String → Action S Params
  opt_populated ns params alias = elim hooks.populate_opt_apps_params [
    | none ↦ pure params
    | some handler ↦ handler ns params alias
  ]

  -- GenOptionalApps
  unfoldable pub gen_optional_apps : String → NodeInfo → List String → Action S (List Application)
  gen_optional_apps ns node alias = do
    params ← opt_populated ns (base_params ns node) alias
    gen_named ns node params alias

  abbrev populated : String → Params → Action S Params
  populated ns params = elim hooks.populate_params [
    | none ↦ pure params
    | some handler ↦ handler ns params
  ]

  abbrev synced : String → NodeInfo → Params → Action S Params
  synced ns node params = elim hooks.gen_sync_ext_resource [
    | none ↦ pure params
    | some gen ↦ gen ns node params
  ]

  abbrev by_option : String → NodeInfo → Params → Action S (List Application)
  by_option ns node params = elim hooks.gen_apps_by_option [
    | none ↦ pure []
    | some gen ↦ gen ns node params
  ]

  -- GenApps
  unfoldable pub gen_apps : String → NodeInfo → Action S (List Application)
  gen_apps ns node = do
    params ← populated ns (
        ("GPUStats", flag (not (node.accelerator == "")))
        ∷ ("DiskNetStats", flag (is_kube node))
        ∷ ("QPSStats", flag (is_kube node))
        ∷ base_params ns node)
    core_app_name ← random_name api api.baetyl_core
    cert ← gen_node_certs api ns node.name core_app_name
    params ← synced ns node (
        insert "CoreAppName" (text core_app_name) (
          insert "NodeCertVersion" (text cert.version)
            (insert "NodeCertName" (text cert.name) params)))
    core ← gen_core_app ns params
    init ← gen_init_app ns core.1
    broker ← gen_broker_app ns node.name init.1
    optional ← gen_optional_apps ns node node.sys_apps
    extra ← by_option ns node init.1
    pure (core.0 ∷ init.0 ∷ broker ∷ optional ++ extra)
