-- ===== src/Api/Validation/Accepted.antt =====
-- validApplication: the ports of an application that it accepts.
use baetyl_cloud.Common.{
  ℕ, zero, ◌+◌, ◌≤◌, String, ◌≡◌, refl, ap, Bool, true, false, not, ◌&&◌, List, [], ◌∷◌, arith, ltb,
}
use baetyl_cloud.Common.Action.{Result, ok, Action, lift, Ensures, Ensures-pure, Ensures-bind}
use baetyl_cloud.Common.Integers.{ℤ, pos, int_ltb}
use baetyl_cloud.Api.{Service, ServiceView, ApplicationView, AppServices}
use baetyl_cloud.Api.Ports.{UsedPorts, is_valid_port}
use baetyl_cloud.Api.Ports.Binding.{in_use, taken, host_ports, Counts, is_valid_port-Counts}
use baetyl_cloud.Api.Validation.{
  no_ports, guard, valid_service_ports, valid_init_services, valid_services, valid_application,
  valid_volumes, valid_registries, has_program,
}

-- How often the services take a port, and how many ports of the host they ask for.
abbrev pub taken_by : Bool → ℤ → List ServiceView → ℕ
taken_by udp p [] = 0
taken_by udp p (v ∷ vs) = taken udp p v.service.ports + taken_by udp p vs

abbrev pub hosts_of : List ServiceView → ℕ
hosts_of [] = 0
hosts_of (v ∷ vs) = host_ports v.service.ports + hosts_of vs

abbrev pub is_replicated : ℤ → Bool
is_replicated replica = int_ltb (pos 1) replica

module _ {S : Type 0} where
  guard-Ensures : (b : Bool) (text : String) (s : S) → Ensures (λ _ _. b ≡ true) (guard b text s)
  guard-Ensures true text s a t e = refl
  guard-Ensures false text s a t e = cc e

  lift-Ensures : {A : Type 0} (r : Result A) (s : S) → Ensures (λ a _. r ≡ ok a) (lift r s)
  lift-Ensures r s a t e = ap (λ x. x.0) e

  -- Nothing is asked of what a part of a chain leaves.
  any : {A : Type 0} (m : Action S A) (s : S) → Ensures (λ _ _. Unit {0}) (m s)
  any m s a t e = tt

-- The use of a port after ports that take it `k` times and ask for `h` ports of the host.
abbrev pub Added : Bool → ℤ → ℤ → ℕ → ℕ → UsedPorts → UsedPorts → Type 0
Added udp p replica k h used u =
    (in_use udp p u ≤ 1)
    × (in_use udp p u ≡ in_use udp p used + k)
    × (is_replicated replica ≡ true → h ≡ 0)

module _ (udp : Bool) (p replica : ℤ) where
  Counts-Added :
      (s : Service) (m : ℕ) (used u : UsedPorts)
      → Counts udp p s.ports zero m used u
      → not (int_ltb (pos 1) replica && ltb zero m) ≡ true
      → Added udp p replica (taken udp p s.ports) (host_ports s.ports) used u
  Counts-Added s m used u c h = (c.0, c.1, λ r. ground (arith, c, h, r))

  Added-none : (used : UsedPorts) → in_use udp p used ≤ 1 → Added udp p replica 0 0 used used
  Added-none used le = (le, omega arith, λ _. refl)

  Added-both :
      (k h l i : ℕ) (used u v : UsedPorts)
      → Added udp p replica k h used u
      → Added udp p replica l i u v
      → Added udp p replica (k + l) (h + i) used v
  Added-both k h l i used u v a b =
      (b.0, omega (arith, a.1, b.1), λ r. let x = a.2 r in let y = b.2 r in omega (arith, x, y))

  module _ {S : Type 0} where
    valid_service_ports-Ensures :
        (s : Service) (used : UsedPorts) (st : S)
        → in_use udp p used ≤ 1
        → Ensures
            (λ u _. Added udp p replica (taken udp p s.ports) (host_ports s.ports) used u)
            (valid_service_ports replica s used st)
    unfolding valid_service_ports
    valid_service_ports-Ensures s used st le =
        let all : UsedPorts → S → Type 0 =
          λ u _. Added udp p replica (taken udp p s.ports) (host_ports s.ports) used u in
        Ensures-bind (λ r _. is_valid_port s.ports zero used ≡ ok r) all
          (lift (is_valid_port s.ports zero used)) _ st
          (lift-Ensures (is_valid_port s.ports zero used) st)
          λ r st e.
            Ensures-bind (λ _ _. not (int_ltb (pos 1) replica && ltb zero r.0) ≡ true) all
              (guard (not (int_ltb (pos 1) replica && ltb zero r.0))
                "port mapping is only supported under single replica")
              _ st
              (guard-Ensures (not (int_ltb (pos 1) replica && ltb zero r.0))
                "port mapping is only supported under single replica" st)
              λ _ st h. Ensures-pure all r.1 st (
                Counts-Added s r.0 used r.1
                  (is_valid_port-Counts udp p s.ports zero r.0 used r.1 e le) h)

    valid_init_services-Ensures :
        (vs : List ServiceView) (used : UsedPorts) (st : S)
        → in_use udp p used ≤ 1
        → Ensures
            (λ u _. Added udp p replica (taken_by udp p vs) (hosts_of vs) used u)
            (valid_init_services replica vs used st)
    unfolding valid_init_services
    valid_init_services-Ensures [] used st le =
        Ensures-pure (λ u (_ : S). Added udp p replica 0 0 used u) used st (Added-none used le)
    valid_init_services-Ensures (v ∷ vs) used st le =
        Ensures-bind _
          (λ u _. Added udp p replica (taken_by udp p (v ∷ vs)) (hosts_of (v ∷ vs)) used u)
          (valid_service_ports replica v.service used) _ st
          (valid_service_ports-Ensures v.service used st le)
          λ u st a w t e.
            Added-both (taken udp p v.service.ports) (host_ports v.service.ports)
              (taken_by udp p vs) (hosts_of vs) used u w a
              (valid_init_services-Ensures vs u st a.0 w t e)

    module _ (api : AppServices S) (ns : String) where
      valid_services-Ensures :
          (vs : List ServiceView) (used : UsedPorts) (st : S)
          → in_use udp p used ≤ 1
          → Ensures
              (λ u _. Added udp p replica (taken_by udp p vs) (hosts_of vs) used u)
              (valid_services api ns replica vs used st)
      unfolding valid_services
      valid_services-Ensures [] used st le =
          Ensures-pure (λ u (_ : S). Added udp p replica 0 0 used u) used st (Added-none used le)
      valid_services-Ensures (v ∷ vs) used st le =
          let all : UsedPorts → S → Type 0 =
            λ u _. Added udp p replica (taken_by udp p (v ∷ vs)) (hosts_of (v ∷ vs)) used u in
          Ensures-bind (λ _ _. Unit {0}) all (has_program api ns v.program_config) _ st
            (any (has_program api ns v.program_config) st)
            λ _ st _.
              Ensures-bind _ all (valid_service_ports replica v.service used) _ st
                (valid_service_ports-Ensures v.service used st le)
                λ u st a w t e.
                  Added-both (taken udp p v.service.ports) (host_ports v.service.ports)
                    (taken_by udp p vs) (hosts_of vs) used u w a
                    (valid_services-Ensures vs u st a.0 w t e)

-- What is said of the ports of an application.
abbrev pub IsBoundOnce : Bool → ℤ → ApplicationView → Type 0
IsBoundOnce udp p app =
    (taken_by udp p app.services + taken_by udp p app.init_services ≤ 1)
    × (is_replicated app.replica ≡ true → hosts_of app.services + hosts_of app.init_services ≡ 0)

nothing_used : (udp : Bool) (p : ℤ) → in_use udp p no_ports ≡ 0
nothing_used true p = refl
nothing_used false p = refl

within :
    (udp : Bool) (p : ℤ) (app : ApplicationView) (u w : UsedPorts)
    → Added udp p app.replica (taken_by udp p app.services) (hosts_of app.services) no_ports u
    → Added udp p app.replica (taken_by udp p app.init_services) (hosts_of app.init_services) u w
    → IsBoundOnce udp p app
within udp p app u w a b =
    let none = nothing_used udp p in
    (omega (arith, none, a.1, b.0, b.1), λ r. let x = a.2 r in let y = b.2 r in omega (arith, x, y))

-- In an application that validApplication accepts, all services and init services together take
-- each port at most once for UDP and at most once for the other protocols, on the node or on the
-- host, and none of them maps a port of the host where there is more than one replica.
pub valid_application-IsBoundOnce :
    {S : Type 0} (api : AppServices S) (ns : String) (app view : ApplicationView) (s t : S)
    → valid_application api ns app s ≡ (ok view, t)
    → (udp : Bool) (p : ℤ) → IsBoundOnce udp p app
unfolding valid_application
valid_application-IsBoundOnce {S} api ns app view s t e udp p =
    let all : ApplicationView → S → Type 0 = λ _ _. IsBoundOnce udp p app in
    let nothing = nothing_used udp p in
    Ensures-bind (λ _ _. Unit {0}) all (valid_volumes api ns app.volumes) _ s
      (any (valid_volumes api ns app.volumes) s)
      (λ _ s _.
        Ensures-bind (λ _ _. Unit {0}) all (valid_registries api ns app.registries) _ s
          (any (valid_registries api ns app.registries) s)
          λ _ s _.
            Ensures-bind _ all (valid_services api ns app.replica app.services no_ports) _ s
              (valid_services-Ensures udp p app.replica api ns app.services no_ports s
                (omega (arith, nothing)))
              λ u s a.
                Ensures-bind _ all (valid_init_services app.replica app.init_services u) _ s
                  (valid_init_services-Ensures udp p app.replica app.init_services u s a.0)
                  λ w s b _ _ _. within udp p app u w a b)
      view t e
