-- ===== src/Api/Validation.antt =====
-- validApplication.
pub mod Accepted
use baetyl_cloud.Common.{
  ℕ, zero, String, Bool, true, false, not, ◌&&◌, ◌||◌, Option, none, some, List, [], ◌∷◌, ◌++◌,
  ◌==◌, if◌then◌else◌, ltb,
}
use baetyl_cloud.Common.Action.{
  Error, coded, Result, ok, err, panicked, Action, pure, raise, lift, panic, ◌>>=◌, ◌>>◌,
}
use baetyl_cloud.Common.Dict.{Dict, lookup, insert}
use baetyl_cloud.Common.Integers.{ℤ, pos, int_ltb, is_positive}
use baetyl_cloud.Spec.{ObjectReference, CronStatus, cron_not_set, cron_wait, cron_finished}
use baetyl_cloud.Api.{
  Service, ServiceView, VolumeView, RegistryView, AutoScale, ApplicationView, AppServices,
}
use baetyl_cloud.Api.Ports.{UsedPorts, invalid, is_valid_port}
use baetyl_cloud.Api.Native.{is_program_config}
use baetyl_cloud.Api.Functions.{label_app_mode}
use baetyl_cloud.Api.Compatible.{compatible_app_deprecated_field, on_services}

abbrev pub no_ports : UsedPorts
no_ports = record { tcp = []; udp = [] }

abbrev pub is_waiting : CronStatus → Bool
is_waiting cron_wait = true
is_waiting cron_not_set = false
is_waiting cron_finished = false

abbrev has_metrics : List (Option String) → Bool
has_metrics [] = false
has_metrics (m ∷ ms) = true

module _ {S : Type 0} where
  abbrev pub guard : Bool → String → Action S (Unit {0})
  guard true text = pure tt
  guard false text = raise (invalid text)

  -- A metric without a resource is dereferenced.
  abbrev check_metrics : List (Option String) → Action S (Unit {0})
  check_metrics [] = pure tt
  check_metrics (none ∷ ms) = panic
  check_metrics (some name ∷ ms) =
      guard (name == "cpu" || name == "memory") "only cpu and memory is supported"
      >> check_metrics ms

  -- The checks of AutoScaleCfg in validApplication.
  unfoldable pub valid_auto_scale : Option AutoScale → Action S (Unit {0})
  valid_auto_scale none = pure tt
  valid_auto_scale (some c) =
      if has_metrics c.metrics
      then (do
        guard (is_positive c.min_replicas) "minReplicas must be greater than 0"
        guard (not (int_ltb c.max_replicas c.min_replicas))
            "minReplicas must be less than maxReplicas"
        check_metrics c.metrics)
      else pure tt

  -- The ports of one service, and whether they fit the number of replicas.
  unfoldable pub valid_service_ports : ℤ → Service → UsedPorts → Action S UsedPorts
  valid_service_ports replica s used = do
    r ← lift (is_valid_port s.ports zero used)
    guard (not (int_ltb (pos 1) replica && ltb zero r.0))
        "port mapping is only supported under single replica"
    pure r.1

  -- The loop over the services that start first.
  unfoldable pub valid_init_services : ℤ → List ServiceView → UsedPorts → Action S UsedPorts
  valid_init_services replica [] used = pure used
  valid_init_services replica (v ∷ vs) used =
      valid_service_ports replica v.service used >>= λ u. valid_init_services replica vs u

module _ {S : Type 0} (api : AppServices S) where
  abbrev has_config : String → Option ObjectReference → Action S (Unit {0})
  has_config ns none = pure tt
  has_config ns (some r) = api.config_get ns r.name >>= λ c. pure tt

  abbrev has_secret : String → Option ObjectReference → Action S (Unit {0})
  has_secret ns none = pure tt
  has_secret ns (some r) = api.secret_get ns r.name >>= λ c. pure tt

  abbrev has_sources : String → VolumeView → Action S (Unit {0})
  has_sources ns v = has_config ns v.config >> has_secret ns v.secret >> has_secret ns v.certificate

  abbrev is_set : Option ObjectReference → Bool
  is_set none = false
  is_set (some r) = true

  -- The loop over the volumes; the volume of a native program is passed over.
  unfoldable pub valid_volumes : String → List VolumeView → Action S (Unit {0})
  valid_volumes ns [] = pure tt
  valid_volumes ns (v ∷ vs) =
      (if is_set v.config && is_program_config v.name then pure tt else has_sources ns v)
      >> valid_volumes ns vs

  -- The loop over the registries.
  unfoldable pub valid_registries : String → List RegistryView → Action S (Unit {0})
  valid_registries ns [] = pure tt
  valid_registries ns (r ∷ rs) = api.secret_get ns r.name >> valid_registries ns rs

  abbrev pub has_program : String → String → Action S (Unit {0})
  has_program ns name = if name == "" then pure tt else api.config_get ns name >>= (λ c. pure tt)

  -- The loop over the services.
  unfoldable pub valid_services : String → ℤ → List ServiceView → UsedPorts → Action S UsedPorts
  valid_services ns replica [] used = pure used
  valid_services ns replica (v ∷ vs) used =
      has_program ns v.program_config
      >> (valid_service_ports replica v.service used >>= λ u. valid_services ns replica vs u)

  -- A waiting application starts later than now.
  unfoldable pub valid_cron : ApplicationView → Action S (Unit {0})
  valid_cron app =
      if is_waiting app.cron_status
      then api.now >>= (λ t.
        guard (not (ltb app.cron_time t)) "failed to add cron job, time should be set after now")
      else pure tt

  abbrev text_or_empty : Option String → String
  text_or_empty none = ""
  text_or_empty (some v) = v

  abbrev checked_name : Result (Unit {0}) → Action S (Unit {0})
  checked_name (ok u) = pure tt
  checked_name (err e) = raise (invalid (api.error_text e))
  checked_name panicked = panic

  abbrev check_namespace : String → Action S (Unit {0})
  check_namespace ns = if ns == "" then pure tt else (do
    guard (not (ns == api.edge_system_namespace || ns == api.edge_namespace))
        "custom namespace of yaml app is invalid(baetyl-edge/baetyl-edge-system)"
    checked_name (api.valid_svc_name ns))

  -- The namespace of a yaml or helm application.
  unfoldable pub valid_custom_namespace : ApplicationView → Action S (Unit {0})
  valid_custom_namespace app =
      if app.app_type == "yaml" || app.app_type == "helm"
      then check_namespace (text_or_empty (lookup api.custom_app_ns_label app.labels))
      else pure tt

  -- validApplication, which gives the application back with its label.
  unfoldable pub valid_application : String → ApplicationView → Action S ApplicationView
  valid_application ns app = do
    valid_volumes ns app.volumes
    valid_registries ns app.registries
    used ← valid_services ns app.replica app.services no_ports
    valid_init_services app.replica app.init_services used
    valid_cron app
    valid_auto_scale app.auto_scale
    valid_custom_namespace app
    pure (record app { labels = insert label_app_mode app.mode app.labels })
