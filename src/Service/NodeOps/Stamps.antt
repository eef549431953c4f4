-- ===== src/Service/NodeOps/Stamps.antt =====
-- The times of node properties: what the loops over a difference write.
use baetyl_cloud.Common.{
  ℕ, String, ◌≡◌, refl, true, false, Option, none, some, List, [], ◌∷◌, mem, arith, eq_iff,
  distinct,
}
use baetyl_cloud.Common.Dict.{Dict, lookup, insert, erase, lookup-insert, lookup-erase}
use baetyl_cloud.Service.NodeOps.{stamp}

abbrev pub keys : Dict (Option String) → List String
keys [] = []
keys (e ∷ es) = e.0 ∷ keys es

-- The time that a difference leaves under a key, where `old` stood before.
abbrev pub stamped : ℕ → Option (Option String) → Option ℕ → Option ℕ
stamped now none old = old
stamped now (some none) old = none
stamped now (some (some v)) old = some now

lookup-absent :
    (key : String) (diff : Dict (Option String))
    → mem key (keys diff) ≡ false
    → lookup key diff ≡ none
unfolding lookup
lookup-absent key [] h = refl
lookup-absent key (e ∷ es) h = ground (arith, lookup-absent key es, eq_iff e.0 key, eq_iff key e.0)

-- A difference without repeated keys stamps each of its properties: the time of a changed one is
-- `now`, that of a removed one is gone, and that of any other stays.
pub lookup-stamp :
    (now : ℕ) (diff : Dict (Option String)) (meta : Dict ℕ) (key : String)
    → distinct (keys diff) ≡ true
    → lookup key (stamp now diff meta) ≡ stamped now (lookup key diff) (lookup key meta)
unfolding stamp lookup
lookup-stamp now [] meta key h = refl
lookup-stamp now ((k, some v) ∷ diff) meta key h = ground (
  arith,
  lookup-stamp now diff (insert k now meta) key,
  lookup-insert k key now meta,
  lookup-absent key diff,
  eq_iff k key,
)
lookup-stamp now ((k, none) ∷ diff) meta key h = ground (
  arith,
  lookup-stamp now diff (erase k meta) key,
  lookup-erase k key meta,
  lookup-absent key diff,
  eq_iff k key,
)
