-- ===== src/Database/Apps/Reading.antt =====
-- UpdateApplication with an application as it was read.
use baetyl_cloud.Common.{
  String, ◌≡◌, refl, Bool, true, false, ◌&&◌, Option, none, some, List, [], ◌∷◌, ◌==◌, eq_refl,
  nat_eq_iff, arith, distinct,
}
use baetyl_cloud.Common.Action.{ok}
use baetyl_cloud.Common.Integers.{ℤ, int_eq, int_eq_iff}
use baetyl_cloud.Spec.{ObjectReference}
use baetyl_cloud.Service.Config.Maps.{keys, same_map_refl}
use baetyl_cloud.Database.{transact}
use baetyl_cloud.Database.Keyed.{Table}
use baetyl_cloud.Database.Apps.{Volume, Resources, Service, AppModel, AppRow, AppFormat}
use baetyl_cloud.Database.Apps.Equality.{
  same_flag, both, same_text, same_pointer, same_list, same_texts, same_reference, same_volume,
  equal_volume, same_resources, same_service, equal_services, equal_app,
}
use baetyl_cloud.Database.Apps.Store.{
  AppConn, AppLibrary, get_application, update_and_get_application, update_application,
}

abbrev pub AllPlain {ℓ} : {A : Type ℓ} → (A → Type ℓ) → List A → Type ℓ
AllPlain P [] = Unit
AllPlain P (x ∷ xs) = P x × AllPlain P xs

abbrev pub HasKeys : Option Resources → Type 0
HasKeys none = Unit
HasKeys (some r) = (distinct (keys r.limits) ≡ true) × (distinct (keys r.requests) ≡ true)

-- A service without probes, whose maps have no repeated keys.
abbrev pub IsPlainService : Service → Type 0
IsPlainService s =
    (s.liveness_probe ≡ none)
    × (s.readiness_probe ≡ none)
    × (distinct (keys s.labels) ≡ true)
    × HasKeys s.resources

abbrev pub IsPlain : AppModel → Type 0
IsPlain a =
    AllPlain IsPlainService a.services
    × AllPlain IsPlainService a.init_services
    × (distinct (keys a.labels) ≡ true)

same_flag_refl : (b : Bool) → same_flag b b ≡ true
same_flag_refl true = refl
same_flag_refl false = refl

both_refl :
    {A : Type 0} (same : A → A → Bool) (o : Option A)
    → ((x : A) → same x x ≡ true)
    → both same o o ≡ true
both_refl same none h = refl
both_refl same (some x) h = h x

same_list_refl :
    {A : Type 0} (same : A → A → Bool) (P : A → Type 0) (xs : List A)
    → ((x : A) → P x → same x x ≡ true)
    → AllPlain P xs
    → same_list same xs xs ≡ true
same_list_refl same P [] h p = refl
same_list_refl same P (x ∷ xs) h p =
    let first = h x p.0 in let rest = same_list_refl same P xs h p.1 in rw (first, rest) refl

same_texts_refl : (xs : List String) → same_texts xs xs ≡ true
same_texts_refl [] = refl
same_texts_refl (x ∷ xs) = let rest = same_texts_refl xs in rw (eq_refl x, rest) refl

all_plain : {A : Type 0} (xs : List A) → AllPlain (λ _. Unit {0}) xs
all_plain [] = tt
all_plain (x ∷ xs) = (tt, all_plain xs)

same_reference_refl : (r : ObjectReference) → same_reference r r ≡ true
same_reference_refl r = rw (eq_refl r.name, eq_refl r.version) refl

same_pair_refl : (p : String × String) → (p.0 == p.0 && p.1 == p.1) ≡ true
same_pair_refl p = rw (eq_refl p.0, eq_refl p.1) refl

same_volume_refl : (v : Volume) → same_volume v v ≡ true
same_volume_refl v =
    rw
      (
        eq_refl v.name,
        both_refl same_reference v.secret same_reference_refl,
        both_refl same_reference v.config same_reference_refl,
        both_refl (λ a b. a == b) v.host_path eq_refl,
        both_refl (λ x y. x.0 == y.0 && x.1 == y.1) v.empty_dir same_pair_refl,
      )
      refl

int_eq_refl : (n : ℤ) → int_eq n n ≡ true
int_eq_refl n = (int_eq_iff n n).1 refl

resources_refl : (o : Option Resources) → HasKeys o → both same_resources o o ≡ true
resources_refl none h = refl
resources_refl (some r) h = rw (same_map_refl r.limits h.0, same_map_refl r.requests h.1) refl

pointer_refl : (o : Option String) → o ≡ none → same_pointer o o ≡ true
pointer_refl none h = refl
pointer_refl (some x) h = cc h

text_refl : (o : Option String) → same_text o o ≡ true
text_refl o = both_refl (λ a b. a == b) o eq_refl

same_service_refl : (s : Service) → IsPlainService s → same_service s s ≡ true
same_service_refl s p = ground (
  arith,
  eq_refl s.name,
  eq_refl s.hostname,
  eq_refl s.image,
  int_eq_refl s.replica,
  same_flag_refl s.host_network,
  eq_refl s.runtime,
  text_refl s.security_context,
  pointer_refl s.liveness_probe p.0,
  pointer_refl s.readiness_probe p.1,
  eq_refl s.image_pull_policy,
  text_refl s.job_config,
  text_refl s.function_config,
  same_texts_refl s.volume_mounts,
  same_texts_refl s.ports,
  same_texts_refl s.devices,
  eq_refl s.working_dir,
  same_texts_refl s.args,
  same_texts_refl s.command,
  same_texts_refl s.env,
  same_map_refl s.labels p.2,
  same_texts_refl s.functions,
  resources_refl s.resources p.3,
)

equal_app_refl : (a : AppModel) → IsPlain a → equal_app a a ≡ true
unfolding equal_app equal_volume equal_services
equal_app_refl a p = ground (
  arith,
  same_list_refl same_volume (λ _. Unit {0}) a.volumes (λ v _. same_volume_refl v)
      (all_plain a.volumes),
  same_list_refl same_service IsPlainService a.services same_service_refl p.0,
  same_list_refl same_service IsPlainService a.init_services same_service_refl p.1,
  int_eq_refl a.cron_status,
  (nat_eq_iff a.cron_time a.cron_time).1 refl,
  same_map_refl a.labels p.2,
  int_eq_refl a.replica,
  same_flag_refl a.host_network,
  same_flag_refl a.preserve_updates,
  eq_refl a.dns_policy,
  eq_refl a.workload,
  eq_refl a.selector,
  eq_refl a.description,
  eq_refl a.node_selector,
  text_refl a.job_config,
  eq_refl a.ota,
  text_refl a.auto_scale,
)

module _ (format : AppFormat) (library : AppLibrary) (ns : String) (a : AppModel)
    (t : Table AppRow) where
  abbrev quiet : AppConn
  quiet = record { faults = []; tables = t }

  rewritten :
      get_application format library ns a.name quiet ≡ (ok a, quiet)
      → IsPlain a
      → update_and_get_application format library ns a quiet ≡ (ok a, quiet)
  unfolding update_and_get_application
  rewritten read plain = let same = equal_app_refl a plain in rw (read, same) refl

  -- Writing back what was read writes nothing: on a connection without errors, an update with an
  -- application that GetApplication answers with there, in a transaction or not, answers with this
  -- application and leaves the table, where its services have no probes and its maps no repeated
  -- keys.
  pub update_application-get_application :
      (in_tx : Bool)
      → get_application format library ns a.name quiet ≡ (ok a, quiet)
      → IsPlain a
      → update_application format library in_tx ns a quiet ≡ (ok a, quiet)
  unfolding update_application transact
  update_application-get_application true read plain = rewritten read plain
  update_application-get_application false read plain =
      let same = rewritten read plain in rw same refl
