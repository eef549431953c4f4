-- ===== src/Service/Listing/Times.antt =====
-- service/node.go: the report times that SetNodeShadowCache gathers.
use baetyl_cloud.Common.{
  String, ◌≡◌, ap, ◌∙◌, Bool, true, false, Option, none, some, List, [], ◌∷◌, map, mem, arith,
  if◌then◌else◌, ◌==◌, eq_iff, is_some, ◌||◌,
}
use baetyl_cloud.Common.Dict.{Dict, lookup, insert, lookup-insert}
use baetyl_cloud.Spec.{Node}
use baetyl_cloud.Service.Listing.{fill_times}

abbrev pub or_never : String → Bool → Option String → Option String
or_never never b (some v) = some v
or_never never true none = some never
or_never never false none = none

abbrev step : String → Node → Dict String → Dict String
step never n m = if is_some (lookup n.name m) then m else insert n.name never m

lookup-step :
    (never : String) (n : Node) (m : Dict String) (name : String)
    → lookup name (step never n m) ≡ or_never never (n.name == name) (lookup name m)
lookup-step never n m name = ground (arith, lookup-insert n.name name never m, eq_iff n.name name)

or_never-or_never :
    (never : String) (a b : Bool) (o : Option String)
    → or_never never a (or_never never b o) ≡ or_never never (b || a) o
or_never-or_never never a b o = ground arith

-- Filling up gives the zero time to the nodes of the list that have no time, leaves every time
-- that is there, and adds no other name.
lookup-fill_times :
    (never : String) (ns : List Node) (m : Dict String) (name : String)
    → lookup name (fill_times never ns m)
      ≡ or_never never (mem name (map (λ (n : Node). n.name) ns)) (lookup name m)
unfolding fill_times
lookup-fill_times never [] m name = ground arith
lookup-fill_times never (n ∷ ns) m name =
    lookup-fill_times never ns (step never n m) name
    ∙ ap (or_never never (mem name (map (λ (n : Node). n.name) ns))) (lookup-step never n m name)
    ∙ or_never-or_never never (mem name (map (λ (n : Node). n.name) ns)) (n.name == name)
        (lookup name m)
