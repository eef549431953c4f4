-- ===== src/Api/Ports/Binding.antt =====
-- isValidPort: what the ports in use know of the ports that were looked at.
use baetyl_cloud.Common.{
  ℕ, suc, ◌+◌, ◌≤◌, String, ◌≡◌, refl, ap, Bool, true, false, not, ◌&&◌, ◌||◌, List, [], ◌∷◌, ◌==◌,
  if◌then◌else◌, arith,
}
use baetyl_cloud.Common.Action.{Result, ok, err, panicked}
use baetyl_cloud.Common.Integers.{ℤ, int_eq, is_zero, int_eq_iff}
use baetyl_cloud.Api.{ContainerPort}
use baetyl_cloud.Api.Ports.{
  UsedPorts, mem_int, check_duplicate_port, is_node_port, counted, check_port, is_valid_port,
}

-- How often a number stands in a list.
abbrev pub times_in : ℤ → List ℤ → ℕ
times_in p [] = 0
times_in p (x ∷ xs) = if int_eq x p then suc (times_in p xs) else times_in p xs

-- How often a port is in use, by UDP or by another protocol.
abbrev pub in_use : Bool → ℤ → UsedPorts → ℕ
in_use true p used = times_in p used.udp
in_use false p used = times_in p used.tcp

-- Whether a container port takes the port `p`: as the port of the node, or as a port of the host
-- that is not zero.
abbrev pub takes : Bool → ℤ → ContainerPort → Bool
takes udp p c =
    (if udp then c.protocol == "UDP" else not (c.protocol == "UDP"))
    && (if is_node_port c
        then int_eq c.node_port p
        else not (is_zero c.host_port) && int_eq c.host_port p)

abbrev pub taken : Bool → ℤ → List ContainerPort → ℕ
taken udp p [] = 0
taken udp p (c ∷ cs) = if takes udp p c then suc (taken udp p cs) else taken udp p cs

-- The ports of the host that a list of container ports asks for.
abbrev pub host_ports : List ContainerPort → ℕ
host_ports [] = 0
host_ports (c ∷ cs) =
    if is_node_port c || is_zero c.host_port then host_ports cs else suc (host_ports cs)

times_in-not_mem : (p : ℤ) (xs : List ℤ) → mem_int p xs ≡ false → times_in p xs ≡ 0
times_in-not_mem p [] h = refl
times_in-not_mem p (x ∷ xs) h = ground (arith, times_in-not_mem p xs)

-- A port that is added stands once, where it did not stand before.
times_in-cons :
    (p q : ℤ) (xs : List ℤ) → mem_int q xs ≡ false → times_in p xs ≤ 1 → times_in p (q ∷ xs) ≤ 1
times_in-cons p q xs h le = ground (arith, times_in-not_mem p xs, int_eq_iff q p)

-- What one container port adds to the use of the port `p`.
added_port :
    (udp : Bool) (p : ℤ) (protocol : String) (q : ℤ) (used u : UsedPorts)
    → check_duplicate_port protocol q used ≡ ok u
    → in_use udp p used ≤ 1
    → (in_use udp p u ≤ 1)
      × (in_use udp p u
          ≡ in_use udp p used
            + (if (if udp then protocol == "UDP" else not (protocol == "UDP")) && int_eq q p
                then 1
                else 0))
unfolding check_duplicate_port
added_port udp p protocol q used u h le =
    ground (arith, times_in-cons p q used.udp, times_in-cons p q used.tcp)

-- What was added by the ports of a list, when the loop answers: no port is in use twice, the use
-- counts the ports that were taken, and the number counts the ports of the host.
abbrev pub Counts : Bool → ℤ → List ContainerPort → ℕ → ℕ → UsedPorts → UsedPorts → Type 0
Counts udp p cs n m used u =
    (in_use udp p u ≤ 1)
    × (in_use udp p u ≡ in_use udp p used + taken udp p cs)
    × (m ≡ n + host_ports cs)

counted-ok :
    (n m : ℕ) (r : Result UsedPorts) (u : UsedPorts)
    → counted n r ≡ ok (m, u)
    → (r ≡ ok u) × (n ≡ m)
counted-ok n m (ok v) u h = (cc h, cc h)
counted-ok n m (err e) u h = cc h
counted-ok n m panicked u h = cc h

check_port-Counts :
    (udp : Bool) (p : ℤ) (c : ContainerPort) (n m : ℕ) (used u : UsedPorts)
    → check_port c n used ≡ ok (m, u)
    → in_use udp p used ≤ 1
    → Counts udp p (c ∷ []) n m used u
unfolding check_port
check_port-Counts udp p c n m used u h le = ground (
  arith,
  counted-ok n m (check_duplicate_port c.protocol c.node_port used) u,
  counted-ok (suc n) m (check_duplicate_port c.protocol c.host_port used) u,
  added_port udp p c.protocol c.node_port used u,
  added_port udp p c.protocol c.host_port used u,
)

Counts-cons :
    (udp : Bool) (p : ℤ) (c : ContainerPort) (cs : List ContainerPort) (n m k : ℕ)
    (used u v : UsedPorts)
    → Counts udp p (c ∷ []) n m used u
    → Counts udp p cs m k u v
    → Counts udp p (c ∷ cs) n k used v
Counts-cons udp p c cs n m k used u v first rest = ground (arith, first, rest)

after_first :
    (udp : Bool) (p : ℤ) (c : ContainerPort) (cs : List ContainerPort) (n m : ℕ)
    (used u : UsedPorts) (r : Result (ℕ × UsedPorts))
    → check_port c n used ≡ r
    → (elim r [ ok r ↦ is_valid_port cs r.0 r.1 | err e ↦ err e | panicked ↦ panicked ]) ≡ ok (m, u)
    → in_use udp p used ≤ 1
    → ((k : ℕ) (v : UsedPorts)
        → is_valid_port cs k v ≡ ok (m, u)
        → in_use udp p v ≤ 1
        → Counts udp p cs k m v u)
    → Counts udp p (c ∷ cs) n m used u
after_first udp p c cs n m used u (ok (k, v)) e h le ih =
    let first = check_port-Counts udp p c n k used v e le in
    Counts-cons udp p c cs n k m used v u first (ih k v h first.0)
after_first udp p c cs n m used u (err x) e h le ih = cc h
after_first udp p c cs n m used u panicked e h le ih = cc h

pub is_valid_port-Counts :
    (udp : Bool) (p : ℤ) (cs : List ContainerPort) (n m : ℕ) (used u : UsedPorts)
    → is_valid_port cs n used ≡ ok (m, u)
    → in_use udp p used ≤ 1
    → Counts udp p cs n m used u
unfolding is_valid_port
is_valid_port-Counts udp p [] n m used u h le =
    let same : used ≡ u = cc h in
    let number : n ≡ m = cc h in
    let in_both : in_use udp p used ≡ in_use udp p u = ap (in_use udp p) same in
    (omega (arith, in_both, le), omega (arith, in_both), omega (arith, number))
is_valid_port-Counts udp p (c ∷ cs) n m used u h le =
    after_first udp p c cs n m used u (check_port c n used) refl h le
      (λ k v. is_valid_port-Counts udp p cs k m v u)
