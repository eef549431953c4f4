-- ===== src/Service/Config/Maps.antt =====
-- models/configuration.go: the comparison of two maps.
use baetyl_cloud.Common.{
  String, ◌≡◌, refl, true, false, List, [], ◌∷◌, arith, eq_iff, eq_refl, mem, distinct,
}
use baetyl_cloud.Common.Dict.{Dict, lookup}
use baetyl_cloud.Service.Config.{covers, same_map}

abbrev pub keys : Dict String → List String
keys [] = []
keys (e ∷ es) = e.0 ∷ keys es

covers-cons :
    (es m : Dict String) (k v : String)
    → mem k (keys es) ≡ false
    → covers es m ≡ true
    → covers es ((k, v) ∷ m) ≡ true
unfolding lookup
covers-cons [] m k v h c = refl
covers-cons (e ∷ es) m k v h c = ground (arith, covers-cons es m k v, eq_iff k e.0)

covers_refl : (m : Dict String) → distinct (keys m) ≡ true → covers m m ≡ true
unfolding lookup
covers_refl [] h = refl
covers_refl (e ∷ es) h =
    ground (arith, covers_refl es, covers-cons es es e.0 e.1, eq_refl e.0, eq_refl e.1)

pub same_map_refl : (m : Dict String) → distinct (keys m) ≡ true → same_map m m ≡ true
unfolding same_map
same_map_refl m h = ground (arith, covers_refl m h)
