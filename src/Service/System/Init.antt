-- ===== src/Service/System/Init.antt =====
-- service/init.go: the resources that a node fetches when it is set up.
use Prim.Native.String.{◌++◌ as str_append}
use baetyl_cloud.Common.{
  ℕ, ◌+◌, String, Bool, true, false, not, ◌||◌, Option, none, some, List, [], ◌∷◌, ◌==◌,
  if◌then◌else◌, contains,
}
use baetyl_cloud.Common.Action.{
  coded, resource_not_found, Action, pure, raise, lift, panic, ◌>>=◌, attempt,
}
use baetyl_cloud.Common.Dict.{Dict, lookup, insert}
use baetyl_cloud.Spec.{ObjectReference, Volume, Application, AppInfo, Value, cron_not_set}
use baetyl_cloud.Service.System.{
  Param, text, flag, number, Params, SystemSecret, NodeInfo, Registry, SystemServices,
  registry_auth,
}

-- What the service calls beside the services of the generation.
pub record InitServices (S : Type 0) : Type 0 where
  pub get_desire : String → String → Action S (Dict Value)
  pub app_infos : Dict Value → Bool → List AppInfo
  pub get_node : String → String → Action S NodeInfo
  pub parse_template : String → Params → Action S String
  pub execute : String → String → Params → Action S String
  pub gen_token : Params → Action S String
  pub now : Action S ℕ
  pub base64 : String → String
  pub edge_namespace : String
  pub edge_system_namespace : String
  pub default_windows_host_path_lib : String
  pub populate_ext_params : Option (String → NodeInfo → Application → Params → Action S Params)

abbrev or_empty : Option String → String
or_empty none = ""
or_empty (some v) = v

-- The application that stands for an init application that is not there.
abbrev default_init : String → Application → Application
default_init name core = record {
  name = name;
  namespace = core.namespace;
  version = "1";
  selector = "";
  system = false;
  cron_status = cron_not_set;
  cron_time = 0;
  services = [];
  volumes = core.volumes;
}

-- The loop of GetAppFromDesire: the first application whose name holds the module's.
unfoldable pub first_of_module : List AppInfo → String → Option String
first_of_module [] module_name = none
first_of_module (a ∷ rest) module_name =
    let later = first_of_module rest module_name in
    if contains a.name module_name then some a.name else later

module _ {S : Type 0} where
  abbrev secret_name : Option ObjectReference → Action S String
  secret_name none = panic
  secret_name (some r) = pure r.name

  -- The loop of GetNodeCert: the secret of the first volume with the certificate.
  unfoldable pub cert_name : List Volume → Action S String
  cert_name [] = pure ""
  cert_name (v ∷ vs) =
      let rest : Action S String = cert_name vs in
      if v.name == "node-cert" || v.name == "cert-sync" then secret_name v.secret else rest

  abbrev text_of : Option Param → Action S String
  text_of none = panic
  text_of (some (text v)) = pure v
  text_of (some (flag b)) = panic
  text_of (some (number n)) = panic

module _ {S : Type 0} (api : SystemServices S) (services : InitServices S) where
  -- GetNodeCert; an error of the service is taken for a secret that is not there.
  unfoldable pub get_node_cert : Application → Action S SystemSecret
  get_node_cert app = do
    name ← cert_name app.volumes
    attempt (api.secret_get app.namespace name) pure (λ e. raise (
        coded resource_not_found
          (("type", "secret") ∷ ("name", name) ∷ ("namespace", app.namespace) ∷ [])))

  -- The JSON text of the registry's credentials.
  abbrev auths : Registry → String
  auths r = str_append "{\"auths\":{\"" (
      str_append r.address (
        str_append "\":{\"username\":\"" (
          str_append r.username (str_append "\",\"password\":\"" (str_append r.password "\"}}}")))))

  -- GetRegistryAuth
  unfoldable pub get_registry_auth : Action S String
  get_registry_auth =
      attempt (api.get_property_value registry_auth)
        (λ auth. do r ← lift (api.decode_registry auth); pure (services.base64 (auths r)))
        (λ e. pure "")

  -- GetAppFromDesire
  unfoldable pub get_app_from_desire : String → String → String → Bool → Action S Application
  get_app_from_desire ns node_name module_name is_sys = do
    desire ← services.get_desire ns node_name
    (elim (first_of_module (services.app_infos desire is_sys) module_name) [
      | none ↦ raise (
          coded resource_not_found (("type", "app") ∷ ("name", node_name) ∷ ("namespace", ns) ∷ []))
      | some name ↦ api.app_get ns name
    ])

  abbrev init_or_default : String → String → Action S Application
  init_or_default ns node_name =
      attempt (get_app_from_desire ns node_name api.baetyl_init true) pure (λ e. do
        core ← get_app_from_desire ns node_name api.baetyl_core true
        pure (default_init api.baetyl_init core))

  abbrev ext_populated : String → NodeInfo → Application → Params → Action S Params
  ext_populated ns node app params = elim services.populate_ext_params [
    | none ↦ pure params
    | some f ↦ f ns node app params
  ]

  abbrev encoded : String → SystemSecret → Param
  encoded key cert = text (services.base64 (or_empty (lookup key cert.entries)))

  abbrev deployment_params :
      String → String → NodeInfo → SystemSecret → Application → Params → Params
  deployment_params ns node_name node cert init params =
      let kube : Param = flag (node.node_mode == "kube") in
      let certified : Params = insert "NodeCertCa" (encoded "ca.pem" cert) (
        insert "NodeCertKey" (encoded "client.key" cert) (
          insert "NodeCertPem" (encoded "client.pem" cert) (
            insert "NodeCertVersion" (text cert.version) (
              insert "NodeCertName" (text cert.name)
                (insert "NodeName" (text node_name) (insert "Namespace" (text ns) params)))))) in
      let named : Params = insert "InitVersion" (text init.version) (
        insert "InitAppName" (text init.name) (
          insert "EdgeSystemNamespace" (text services.edge_system_namespace)
            (insert "EdgeNamespace" (text services.edge_namespace) certified))) in
      insert "NodeMode" (text node.node_mode) (
        insert "AgentPort" (text "30080") (
          insert "QPSStats" kube (
            insert "DiskNetStats" kube
              (insert "GPUStats" (flag (not (node.accelerator == ""))) named))))

  -- getInitDeploymentYaml
  unfoldable pub get_init_deployment_yaml : String → String → Params → Action S String
  get_init_deployment_yaml ns node_name params = do
    init ← init_or_default ns node_name
    cert ← get_node_cert init
    node ← services.get_node ns node_name
    auth ← get_registry_auth
    full ←
        ext_populated ns node init
          (insert "RegistryAuth" (text auth) (deployment_params ns node_name node cert init params))
    services.parse_template "baetyl-init-deployment.yml" full

  -- getWindowsInstallShell
  unfoldable pub get_windows_install_shell : String → String → Params → Action S String
  get_windows_install_shell ns node_name params =
      services.parse_template "baetyl-install.ps1"
        (insert "DBPath" (text services.default_windows_host_path_lib) params)

  -- getInstallShell
  unfoldable pub get_install_shell : String → String → Params → Action S String
  get_install_shell ns node_name params =
      services.parse_template "baetyl-install.sh" (insert "DBPath" (text "/var/lib/baetyl") params)

  -- GetInitCommand; a token lives an hour.
  unfoldable pub get_init_command : String → String → Params → Action S String
  get_init_command ns node_name params = do
    t ← services.now
    template ← text_of (lookup "template" params)
    command ← api.get_property_value template
    token ←
        services.gen_token (("ns", text ns) ∷ ("n", text node_name) ∷ ("e", number (t + 3600)) ∷ [])
    services.execute "setup-command" command (insert "Token" (text token) params)

  abbrev node_config : String → String → String → Params → Action S String
  node_config template ns node_name params =
      services.parse_template template
        (insert "NodeName" (text node_name) (insert "Namespace" (text ns) params))

  -- getCoreConfig
  unfoldable pub get_core_config : String → String → Params → Action S String
  get_core_config = node_config "baetyl-core-conf.yml"

  -- getInitConfig
  unfoldable pub get_init_config : String → String → Params → Action S String
  get_init_config = node_config "baetyl-init-conf.yml"

  -- getAgentConfig
  unfoldable pub get_agent_config : String → String → Params → Action S String
  get_agent_config = node_config "baetyl-agent-conf.yml"

  -- ResourceMapFunc
  unfoldable pub resource_map_func : Dict (String → String → Params → Action S String)
  resource_map_func =
      ("baetyl-init-deployment.yml", get_init_deployment_yaml)
      ∷ ("baetyl-init-command", get_init_command)
      ∷ ("baetyl-core-conf.yml", get_core_config)
      ∷ ("baetyl-install.sh", get_install_shell)
      ∷ ("baetyl-install.ps1", get_windows_install_shell)
      ∷ ("baetyl-init-conf.yml", get_init_config)
      ∷ ("baetyl-agent-conf.yml", get_agent_config)
      ∷ []

  -- GetResource; a nil map of parameters is an empty one.
  unfoldable pub get_resource : String → String → String → Params → Action S String
  get_resource ns node_name resource_name params = elim (lookup resource_name resource_map_func) [
    | none ↦ raise (coded resource_not_found (("type", "resource") ∷ ("name", resource_name) ∷ []))
    | some handler ↦ handler ns node_name params
  ]
