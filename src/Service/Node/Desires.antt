-- ===== src/Service/Node/Desires.antt =====
-- RefreshNodeDesireByApp and DeleteNodeDesireByApp on the lists of a desire.
use baetyl_cloud.Common.{
  ℕ, suc, ◌+◌, String, ◌≡◌, refl, ap, Bool, true, false, not, ◌&&◌, Option, none, some, List, [],
  ◌∷◌, ◌++◌, map, arith, ◌==◌, eq_iff, eq_refl, if◌then◌else◌, mem, mem-append, distinct,
}
use baetyl_cloud.Spec.{Application, AppInfo}
use baetyl_cloud.Service.Node.{
  info_of, last_index, set_version, at_index, refresh_infos, delete_infos,
}

abbrev pub names : List AppInfo → List String
names xs = map (λ (a : AppInfo). a.name) xs

abbrev or_version : Option String → Option String → Option String
or_version none v = v
or_version (some w) v = some w

-- The version that a list holds for a name: that of its last entry.
abbrev pub version_of : String → List AppInfo → Option String
version_of name [] = none
version_of name (a ∷ as') =
    let later = version_of name as' in
    or_version later (if a.name == name then some a.version else none)

abbrev or_here : Bool → Option ℕ → Option ℕ
or_here here (some j) = some (suc j)
or_here true none = some 0
or_here false none = none

-- The place of the last entry of a name.
place : String → List AppInfo → Option ℕ
place name [] = none
place name (a ∷ as') = or_here (a.name == name) (place name as')

abbrev shifted : ℕ → Option ℕ → Option ℕ → Option ℕ
shifted i idx none = idx
shifted i idx (some j) = some (i + j)

last_index-place :
    (name : String) (i : ℕ) (idx : Option ℕ) (xs : List AppInfo)
    → last_index name i idx xs ≡ shifted i idx (place name xs)
unfolding last_index place
last_index-place name i idx [] = refl
last_index-place name i idx (a ∷ as') =
    ground (arith, last_index-place name (suc i) (if a.name == name then some i else idx) as')

-- What a refresh does to a list, by recursion.
put : Application → List AppInfo → List AppInfo
put app [] = info_of app ∷ []
put app (a ∷ as') =
    let rest = a ∷ put app as' in
    if a.name == app.name && not (mem app.name (names as'))
    then record a { version = app.version } ∷ as'
    else rest

is_none : Option ℕ → Bool
is_none none = true
is_none (some i) = false

place-mem :
    (name : String) (xs : List AppInfo) → mem name (names xs) ≡ not (is_none (place name xs))
unfolding place is_none
place-mem name [] = refl
place-mem name (a ∷ as') = ground (arith, place-mem name as')

at_index-put :
    (app : Application) (xs : List AppInfo) → at_index (place app.name xs) app xs ≡ put app xs
unfolding place set_version put is_none
at_index-put app [] = refl
at_index-put app (a ∷ as') = ground (arith, at_index-put app as', place-mem app.name as')

shifted-zero : (o : Option ℕ) → shifted 0 none o ≡ o
shifted-zero none = refl
shifted-zero (some i) = ap some (omega arith)

refresh_infos-put : (app : Application) (xs : List AppInfo) → refresh_infos app xs ≡ put app xs
unfolding refresh_infos
refresh_infos-put app xs =
    rw (last_index-place app.name 0 none xs)
      (rw (shifted-zero (place app.name xs)) (at_index-put app xs))

mem-version_of :
    (name : String) (xs : List AppInfo) → mem name (names xs) ≡ false → version_of name xs ≡ none
mem-version_of name [] h = refl
mem-version_of name (a ∷ as') h = ground (arith, mem-version_of name as')

version_of-put :
    (app : Application) (name : String) (xs : List AppInfo)
    → version_of name (put app xs)
      ≡ (if app.name == name then some app.version else version_of name xs)
unfolding put
version_of-put app name [] = ground arith
version_of-put app name (a ∷ as') = ground (
  arith,
  version_of-put app name as',
  mem-version_of app.name as',
  mem-version_of name as',
  eq_iff app.name name,
  eq_iff a.name app.name,
  eq_iff a.name name,
)

-- After a refresh a list holds the application's version under its name, and under every other
-- name the version that it held.
pub version_of-refresh_infos :
    (app : Application) (name : String) (xs : List AppInfo)
    → version_of name (refresh_infos app xs)
      ≡ (if app.name == name then some app.version else version_of name xs)
version_of-refresh_infos app name xs = rw (refresh_infos-put app xs) (version_of-put app name xs)

-- After a deletion a list holds no version under the application's name, and under every other
-- name the version that it held.
pub version_of-delete_infos :
    (app : Application) (name : String) (xs : List AppInfo)
    → version_of name (delete_infos app xs)
      ≡ (if app.name == name then none else version_of name xs)
unfolding delete_infos
version_of-delete_infos app name [] = ground arith
version_of-delete_infos app name (a ∷ as') = ground (
  arith,
  version_of-delete_infos app name as',
  eq_iff app.name name,
  eq_iff a.name app.name,
  eq_iff a.name name,
)

names-put :
    (app : Application) (xs : List AppInfo)
    → names (put app xs) ≡ (if mem app.name (names xs) then names xs else names xs ++ app.name ∷ [])
unfolding put
names-put app [] = refl
names-put app (a ∷ as') = ground (arith, names-put app as', eq_iff a.name app.name)

distinct-append :
    (x : String) (xs : List String)
    → mem x xs ≡ false
    → distinct xs ≡ true
    → distinct (xs ++ x ∷ []) ≡ true
distinct-append x [] h d = refl
distinct-append x (y ∷ ys) h d =
    ground (arith, distinct-append x ys, mem-append y ys (x ∷ []), eq_iff x y, eq_iff y x)

-- A refresh keeps the names of a list distinct.
pub refresh_infos-distinct :
    (app : Application) (xs : List AppInfo)
    → distinct (names xs) ≡ true
    → distinct (names (refresh_infos app xs)) ≡ true
refresh_infos-distinct app xs h =
    rw (refresh_infos-put app xs)
      (ground (arith, names-put app xs, distinct-append app.name (names xs)))

delete_infos-put :
    (app : Application) (xs : List AppInfo) → delete_infos app (put app xs) ≡ delete_infos app xs
unfolding delete_infos put
delete_infos-put app [] = ground (arith, eq_refl app.name)
delete_infos-put app (a ∷ as') = ground (arith, delete_infos-put app as')

-- Deleting an application undoes its refresh, up to the entries that it had before.
pub delete_infos-refresh_infos :
    (app : Application) (xs : List AppInfo)
    → delete_infos app (refresh_infos app xs) ≡ delete_infos app xs
delete_infos-refresh_infos app xs = rw (refresh_infos-put app xs) (delete_infos-put app xs)
