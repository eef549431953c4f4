-- ===== src/Triggers/Flushing.antt =====
-- saveCache: no report time is lost between the waiting ones and the cache.
use baetyl_cloud.Common.{
  ℕ, String, ◌≡◌, refl, true, false, Option, none, some, List, [], ◌∷◌, mem, distinct, arith,
  eq_iff, if◌then◌else◌, ltb,
}
use baetyl_cloud.Common.Dict.{Dict, lookup, insert, lookup-insert}
use baetyl_cloud.Triggers.{SavedTime, flush}

abbrev pub names : Dict SavedTime → List String
names [] = []
names (e ∷ es) = e.0 ∷ names es

-- What the map of times holds under a name after a flush: the waiting time, if it is older than
-- the check, or else what it held.
abbrev pub time_after : ℕ → Option SavedTime → Option String → Option String
time_after check none old = old
time_after check (some v) old = if ltb v.time check then some v.value else old

-- What still waits under a name.
abbrev pub waits_after : ℕ → Option SavedTime → Option SavedTime
waits_after check none = none
waits_after check (some v) = if ltb v.time check then none else some v

lookup-not_named :
    (k : String) (saved : Dict SavedTime) → mem k (names saved) ≡ false → lookup k saved ≡ none
unfolding lookup
lookup-not_named k [] h = refl
lookup-not_named k (e ∷ es) h = ground (arith, lookup-not_named k es, eq_iff e.0 k, eq_iff k e.0)

lookup-flush_waits :
    (check : ℕ) (saved : Dict SavedTime) (times : Dict String) (k : String)
    → distinct (names saved) ≡ true
    → lookup k (flush check saved times).0 ≡ waits_after check (lookup k saved)
unfolding flush lookup
lookup-flush_waits check [] times k d = refl
lookup-flush_waits check ((j, v) ∷ saved) times k d = ground (
  arith,
  lookup-flush_waits check saved (insert j v.value times) k,
  lookup-flush_waits check saved times k,
  lookup-not_named j saved,
  eq_iff j k,
)

lookup-flush_times :
    (check : ℕ) (saved : Dict SavedTime) (times : Dict String) (k : String)
    → distinct (names saved) ≡ true
    → lookup k (flush check saved times).1 ≡ time_after check (lookup k saved) (lookup k times)
unfolding flush lookup
lookup-flush_times check [] times k d = refl
lookup-flush_times check ((j, v) ∷ saved) times k d = ground (
  arith,
  lookup-flush_times check saved (insert j v.value times) k,
  lookup-flush_times check saved times k,
  lookup-insert j k v.value times,
  lookup-not_named j saved,
  eq_iff j k,
)

-- For waiting times without repeated names: a flush writes each time that is older than its check
-- under its name, leaves what the map held under every other name, and keeps waiting exactly the
-- times that are not older.
pub lookup-flush :
    (check : ℕ) (saved : Dict SavedTime) (times : Dict String) (k : String)
    → distinct (names saved) ≡ true
    → (lookup k (flush check saved times).1 ≡ time_after check (lookup k saved) (lookup k times))
      × (lookup k (flush check saved times).0 ≡ waits_after check (lookup k saved))
lookup-flush check saved times k d =
    (lookup-flush_times check saved times k d, lookup-flush_waits check saved times k d)
