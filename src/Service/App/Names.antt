-- ===== src/Service/App/Names.antt =====
-- validName against its purpose: the names within an application are unambiguous.
use baetyl_cloud.Common.{
  String, ◌≡◌, refl, ap, Bool, true, false, not, ◌&&◌, ◌||◌, List, [], ◌∷◌, map, arith, eq_iff, mem,
  distinct,
}
use baetyl_cloud.Common.Action.{Result, ok, err, panicked}
use baetyl_cloud.Spec.{Volume, Service, Application}
use baetyl_cloud.Service.App.{check_volumes, check_mounts, check_services, valid_name, with_volumes}

abbrev pub is_ok : {A : Type 0} → Result A → Bool
is_ok (ok a) = true
is_ok (err e) = false
is_ok panicked = false

-- No name of `xs` stands in `seen` or before it in `xs`.
abbrev pub fresh : List String → List String → Bool
fresh seen [] = true
fresh seen (x ∷ xs) = not (mem x seen) && fresh (x ∷ seen) xs

abbrev all_in : List String → List String → Bool
all_in vf [] = true
all_in vf (m ∷ ms) = mem m vf && all_in vf ms

abbrev mounts_in : List String → List Service → Bool
mounts_in vf [] = true
mounts_in vf (s ∷ ss) = all_in vf s.volume_mounts && mounts_in vf ss

is_ok-check_volumes :
    (seen : List String) (vs : List Volume)
    → is_ok (check_volumes seen vs) ≡ fresh seen (map (λ (v : Volume). v.name) vs)
unfolding check_volumes
is_ok-check_volumes seen [] = refl
is_ok-check_volumes seen (v ∷ vs) = ground (arith, is_ok-check_volumes (v.name ∷ seen) vs)

is_ok-check_mounts : (vf ms : List String) → is_ok (check_mounts vf ms) ≡ all_in vf ms
unfolding check_mounts
is_ok-check_mounts vf [] = refl
is_ok-check_mounts vf (m ∷ ms) = ground (arith, is_ok-check_mounts vf ms)

is_ok-check_services :
    (vf sf : List String) (ss : List Service)
    → is_ok (check_services vf sf ss)
      ≡ (fresh sf (map (λ (s : Service). s.name) ss) && mounts_in vf ss)
unfolding check_services
is_ok-check_services vf sf [] = refl
is_ok-check_services vf sf (s ∷ ss) =
    ground (arith, is_ok-check_mounts vf s.volume_mounts, is_ok-check_services vf (s.name ∷ sf) ss)

abbrev disjoint : List String → List String → Bool
disjoint seen [] = true
disjoint seen (x ∷ xs) = not (mem x seen) && disjoint seen xs

disjoint-cons :
    (x : String) (seen xs : List String)
    → disjoint (x ∷ seen) xs ≡ (not (mem x xs) && disjoint seen xs)
disjoint-cons x seen [] = refl
disjoint-cons x seen (y ∷ ys) = ground (arith, disjoint-cons x seen ys, eq_iff x y, eq_iff y x)

fresh_lem : (seen xs : List String) → fresh seen xs ≡ (distinct xs && disjoint seen xs)
fresh_lem seen [] = refl
fresh_lem seen (x ∷ xs) = ground (arith, fresh_lem (x ∷ seen) xs, disjoint-cons x seen xs)

disjoint-nil : (xs : List String) → disjoint [] xs ≡ true
disjoint-nil [] = refl
disjoint-nil (x ∷ xs) = disjoint-nil xs

fresh-nil : (xs : List String) → fresh [] xs ≡ distinct xs
fresh-nil xs = ground (arith, fresh_lem [] xs, disjoint-nil xs)

abbrev volume_names : Application → List String
volume_names app = map (λ (v : Volume). v.name) app.volumes

abbrev service_names : Application → List String
service_names app = map (λ (s : Service). s.name) app.services

-- The names that the first loop hands to the second.
mem-check_volumes :
    (x : String) (seen : List String) (vs : List Volume) (vf : List String)
    → check_volumes seen vs ≡ ok vf
    → mem x vf ≡ (mem x seen || mem x (map (λ (v : Volume). v.name) vs))
unfolding check_volumes
mem-check_volumes x seen [] vf h = ground arith
mem-check_volumes x seen (v ∷ vs) vf h = ground (arith, mem-check_volumes x (v.name ∷ seen) vs vf)

all_in_cong :
    (vf vf' ms : List String) → ((x : String) → mem x vf ≡ mem x vf') → all_in vf ms ≡ all_in vf' ms
all_in_cong vf vf' [] h = refl
all_in_cong vf vf' (m ∷ ms) h = ground (arith, h m, all_in_cong vf vf' ms h)

mounts_in_cong :
    (vf vf' : List String) (ss : List Service)
    → ((x : String) → mem x vf ≡ mem x vf')
    → mounts_in vf ss ≡ mounts_in vf' ss
mounts_in_cong vf vf' [] h = refl
mounts_in_cong vf vf' (s ∷ ss) h =
    ground (arith, all_in_cong vf vf' s.volume_mounts h, mounts_in_cong vf vf' ss h)

-- validName accepts an application exactly if no two volumes share a name, no two services do,
-- and every mount of a service names a volume.
pub is_ok-valid_name :
    (app : Application)
    → is_ok (valid_name app) ≡ (
        distinct (volume_names app)
        && distinct (service_names app)
        && mounts_in (volume_names app) app.services)
unfolding valid_name
is_ok-valid_name app = accepted (check_volumes [] app.volumes) refl
  where
    accepted :
        (r : Result (List String))
        → check_volumes [] app.volumes ≡ r
        → is_ok (with_volumes r app.services) ≡ (
            distinct (volume_names app)
            && distinct (service_names app)
            && mounts_in (volume_names app) app.services)
    accepted (ok vf) e = ground (
      arith,
      ap is_ok e,
      is_ok-check_volumes [] app.volumes,
      fresh-nil (volume_names app),
      fresh-nil (service_names app),
      is_ok-check_services vf [] app.services,
      mounts_in_cong vf (volume_names app) app.services
          (λ x. mem-check_volumes x [] app.volumes vf e),
    )
    accepted (err x) e =
        ground (arith, ap is_ok e, is_ok-check_volumes [] app.volumes, fresh-nil (volume_names app))
    accepted panicked e =
        ground (arith, ap is_ok e, is_ok-check_volumes [] app.volumes, fresh-nil (volume_names app))
