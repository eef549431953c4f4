-- ===== src/Database/Apps/Equality.antt =====
-- EqualApp, equalVolume and equalServices. Probes are compared as pointers: those of an application
-- that was just read are equal only where both are nil.
use baetyl_cloud.Common.{
  String, Bool, true, false, not, ◌&&◌, Option, none, some, List, [], ◌∷◌, ◌==◌, if◌then◌else◌,
  nat_eq,
}
use baetyl_cloud.Common.Integers.{int_eq}
use baetyl_cloud.Spec.{ObjectReference}
use baetyl_cloud.Service.Config.{same_map}
use baetyl_cloud.Database.Apps.{Volume, Resources, Service, AppModel}

abbrev pub same_flag : Bool → Bool → Bool
same_flag a b = if a then b else not b

-- Equal values, or both nil.
abbrev pub both : {A : Type 0} → (A → A → Bool) → Option A → Option A → Bool
both same none none = true
both same (some a) (some b) = same a b
both same a b = false

abbrev pub same_text : Option String → Option String → Bool
same_text = both (λ a b. a == b)

abbrev pub same_pointer : Option String → Option String → Bool
same_pointer = both (λ a b. false)

abbrev pub same_list : {A : Type 0} → (A → A → Bool) → List A → List A → Bool
same_list same [] [] = true
same_list same (x ∷ xs) (y ∷ ys) = same x y && same_list same xs ys
same_list same xs ys = false

abbrev pub same_texts : List String → List String → Bool
same_texts = same_list (λ a b. a == b)

abbrev pub same_reference : ObjectReference → ObjectReference → Bool
same_reference a b = a.name == b.name && a.version == b.version

abbrev pub same_volume : Volume → Volume → Bool
same_volume a b =
    a.name == b.name
    && both same_reference a.secret b.secret
    && both same_reference a.config b.config
    && same_text a.host_path b.host_path
    && both (λ x y. x.0 == y.0 && x.1 == y.1) a.empty_dir b.empty_dir

-- equalVolume
unfoldable pub equal_volume : List Volume → List Volume → Bool
equal_volume = same_list same_volume

abbrev pub same_resources : Resources → Resources → Bool
same_resources a b = same_map a.limits b.limits && same_map a.requests b.requests

abbrev pub same_service : Service → Service → Bool
same_service a b =
    a.name == b.name
    && a.hostname == b.hostname
    && a.image == b.image
    && int_eq a.replica b.replica
    && same_flag a.host_network b.host_network
    && a.runtime == b.runtime
    && same_text a.security_context b.security_context
    && same_pointer a.liveness_probe b.liveness_probe
    && same_pointer a.readiness_probe b.readiness_probe
    && a.image_pull_policy == b.image_pull_policy
    && same_text a.job_config b.job_config
    && same_text a.function_config b.function_config
    && same_texts a.volume_mounts b.volume_mounts
    && same_texts a.ports b.ports
    && same_texts a.devices b.devices
    && a.working_dir == b.working_dir
    && same_texts a.args b.args
    && same_texts a.command b.command
    && same_texts a.env b.env
    && same_map a.labels b.labels
    && same_texts a.functions b.functions
    && both same_resources a.resources b.resources

-- equalServices
unfoldable pub equal_services : List Service → List Service → Bool
equal_services = same_list same_service

-- EqualApp; the type, the mode and the system flag are not compared.
unfoldable pub equal_app : AppModel → AppModel → Bool
equal_app a b =
    equal_volume a.volumes b.volumes
    && equal_services a.services b.services
    && equal_services a.init_services b.init_services
    && int_eq a.cron_status b.cron_status
    && nat_eq a.cron_time b.cron_time
    && same_map a.labels b.labels
    && int_eq a.replica b.replica
    && same_flag a.host_network b.host_network
    && same_flag a.preserve_updates b.preserve_updates
    && a.dns_policy == b.dns_policy
    && a.workload == b.workload
    && a.selector == b.selector
    && a.description == b.description
    && a.node_selector == b.node_selector
    && same_text a.job_config b.job_config
    && a.ota == b.ota
    && same_text a.auto_scale b.auto_scale
