-- ===== src/Api/Ports.antt =====
-- isValidPort and checkDuplicatePort. The maps of the ports in use are lists of their keys.
pub mod Binding
use baetyl_cloud.Common.{
  ℕ, suc, String, Bool, true, false, not, ◌||◌, Option, none, some, List, [], ◌∷◌, ◌==◌,
  if◌then◌else◌,
}
use baetyl_cloud.Common.Action.{Error, coded, request_param_invalid, Result, ok, err, panicked}
use baetyl_cloud.Common.Integers.{ℤ, int_eq, is_zero, is_positive}
use baetyl_cloud.Api.{ContainerPort}

pub record UsedPorts : Type 0 where
  pub tcp : List ℤ
  pub udp : List ℤ

abbrev pub invalid : String → Error
invalid text = coded request_param_invalid (("error", text) ∷ [])

abbrev pub mem_int : ℤ → List ℤ → Bool
mem_int a [] = false
mem_int a (x ∷ xs) = int_eq x a || mem_int a xs

-- checkDuplicatePort
unfoldable pub check_duplicate_port : String → ℤ → UsedPorts → Result UsedPorts
check_duplicate_port protocol port used =
    if protocol == "UDP"
    then (if mem_int port used.udp
        then err (invalid "duplicate udp ports")
        else ok (record used { udp = port ∷ used.udp }))
    else if mem_int port used.tcp
    then err (invalid "duplicate tcp ports")
    else ok (record used { tcp = port ∷ used.tcp })

abbrev pub is_node_port : ContainerPort → Bool
is_node_port p = p.service_type == "NodePort"

abbrev pub counted : ℕ → Result UsedPorts → Result (ℕ × UsedPorts)
counted n (ok u) = ok (n, u)
counted n (err e) = err e
counted n panicked = panicked

-- The body of the loop of isValidPort, with the number of host ports so far.
unfoldable pub check_port : ContainerPort → ℕ → UsedPorts → Result (ℕ × UsedPorts)
check_port p n used =
    if is_node_port p
    then (if is_positive p.node_port
        then counted n (check_duplicate_port p.protocol p.node_port used)
        else err (invalid "invalid NodePort"))
    else if is_zero p.host_port
    then ok (n, used)
    else counted (suc n) (check_duplicate_port p.protocol p.host_port used)

-- isValidPort, from a number of host ports on.
unfoldable pub is_valid_port : List ContainerPort → ℕ → UsedPorts → Result (ℕ × UsedPorts)
is_valid_port [] n used = ok (n, used)
is_valid_port (p ∷ ps) n used = elim (check_port p n used) [
  | ok r ↦ is_valid_port ps r.0 r.1
  | err e ↦ err e
  | panicked ↦ panicked
]
