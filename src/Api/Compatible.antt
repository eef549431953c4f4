-- ===== src/Api/Compatible.antt =====
-- compatibleAppDeprecatedField: what an application and its services say of the workload, the
-- network, the replicas and the job, brought together.
use baetyl_cloud.Common.{
  String, Bool, true, false, not, ◌&&◌, Option, none, some, List, [], ◌∷◌, map, ◌==◌, if◌then◌else◌,
}
use baetyl_cloud.Common.Integers.{ℤ, pos, is_zero}
use baetyl_cloud.Api.{JobConfig, Service, ServiceView, ApplicationView}

-- The change of a service in the view of each service.
abbrev pub in_service : (Service → Service) → ServiceView → ServiceView
in_service f v = record v { service = f v.service }

abbrev pub on_services : (Service → Service) → ApplicationView → ApplicationView
on_services f app = record app { services = map (in_service f) app.services }

abbrev pub first_service : List ServiceView → Option Service
first_service [] = none
first_service (v ∷ vs) = some v.service

abbrev workload_or : String → Option Service → String
workload_or d none = d
workload_or d (some s) = if s.workload == "" then d else s.workload

abbrev fill_workload : String → Service → Service
fill_workload w s = if s.workload == "" then record s { workload = w } else s

-- Workload
unfoldable pub with_workload : ApplicationView → ApplicationView
with_workload app =
    if app.workload == ""
    then record app { workload = workload_or "deployment" (first_service app.services) }
    else on_services (fill_workload app.workload) app

abbrev has_host_network : Option Service → Bool
has_host_network none = false
has_host_network (some s) = s.host_network

-- HostNetwork
unfoldable pub with_host_network : ApplicationView → ApplicationView
with_host_network app =
    if not app.host_network && has_host_network (first_service app.services)
    then record app { host_network = true }
    else if app.host_network
    then on_services (λ s. record s { host_network = true }) app
    else app

abbrev replica_or : ℤ → Option Service → ℤ
replica_or d none = d
replica_or d (some s) = if is_zero s.replica then d else s.replica

abbrev fill_replica : ℤ → Service → Service
fill_replica n s = if is_zero s.replica then record s { replica = n } else s

-- Replica
unfoldable pub with_replica : ApplicationView → ApplicationView
with_replica app =
    if is_zero app.replica
    then record app { replica = replica_or app.replica (first_service app.services) }
    else on_services (fill_replica app.replica) app

abbrev pub has_policy : Option JobConfig → Bool
has_policy none = false
has_policy (some j) = not (j.restart_policy == "")

abbrev fill_job : JobConfig → Service → Service
fill_job j s = if has_policy s.job_config then s else record s { job_config = some j }

abbrev job_of : Option Service → Option JobConfig
job_of none = none
job_of (some s) = s.job_config

abbrev never : JobConfig
never = record {
  completions = pos 0;
  parallelism = pos 0;
  backoff_limit = pos 0;
  restart_policy = "Never";
}

abbrev take_job : Option JobConfig → ApplicationView → ApplicationView
take_job (some j) app = record app { job_config = some j }
take_job none app = on_services (fill_job never) (record app { job_config = some never })

abbrev give_job : Option JobConfig → ApplicationView → ApplicationView
give_job none app = app
give_job (some j) app = on_services (fill_job j) app

-- JobConfig
unfoldable pub with_job : ApplicationView → ApplicationView
with_job app =
    if has_policy app.job_config
    then give_job app.job_config app
    else take_job (job_of (first_service app.services)) app

-- compatibleAppDeprecatedField
unfoldable pub compatible_app_deprecated_field : ApplicationView → ApplicationView
compatible_app_deprecated_field app =
    with_job (with_replica (with_host_network (with_workload app)))
