-- ===== src/Database/Index/Rows.antt =====
-- The rows that RefreshIndex leaves, and what each statement selects of them.
use mathlib.Core.Path.{subst}
use mathlib.Core.List.{map-append}
use baetyl_cloud.Common.{
  String, ◌≡◌, ◌≢◌, refl, sym, ap, ◌∙◌, Bool, true, false, not, ◌&&◌, some, List, [], ◌∷◌, ◌++◌,
  map, arith, ◌==◌, eq_refl, keep, keep-append,
}
use baetyl_cloud.Common.Action.{ok, >>=-eq-ok, ◌>>◌}
use baetyl_cloud.Common.Dict.{lookup}
use baetyl_cloud.Database.Index.{
  Resource, application, config, secret, node, resource_name, Row, IndexStore, table_name, text_of,
  selected, select, list_index, clear_found, create_all, refresh_index,
}
use baetyl_cloud.Database.Index.Names.{CacheIsRight, table_name_comm}
use baetyl_cloud.Database.Index.Refresh.{
  entry, without, create_all-ok, delete_index-ok, list_index-ok,
}

keep-not_of_nil :
    {A B : Type 0} (f : A → B) (p : A → Bool) (xs : List A)
    → map f (keep p xs) ≡ []
    → keep (λ x. not (p x)) xs ≡ xs
keep-not_of_nil f p [] h = refl
keep-not_of_nil f p (x ∷ xs) h = ground (arith, keep-not_of_nil f p xs)

-- Between the listing and the inserts the rows of the value are gone, deleted or not there.
clear-ok :
    (ns : String) (a b : Resource) (va : String) (s u w : IndexStore) (res : List String)
    → s.conn.tables ≡ u.conn.tables
    → select (table_name b a) (resource_name b) ns (resource_name a) va s.conn.tables ≡ res
    → CacheIsRight u.cache
    → clear_found ns a b va res u ≡ (ok tt, w)
    → (w.conn.tables ≡ without ns a b va s.conn.tables) × CacheIsRight w.cache
unfolding without select
clear-ok ns a b va s u w [] same found names e =
    let none_left =
      keep-not_of_nil (λ (r : Row). text_of (lookup (resource_name b) r.cells))
        (selected (table_name b a) ns (resource_name a) va) s.conn.tables found in
    (
      sym (ap (λ p. p.1.conn.tables) e) ∙ sym same ∙ sym (rw (table_name_comm a b) none_left),
      subst CacheIsRight (λ i. (e i).1.cache) names,
    )
clear-ok ns a b va s u w (x ∷ xs) same found names e =
    let (rows, names') = delete_index-ok ns b a va u names e in (rw same rows, names')

-- The rows that a refresh leaves.
pub refresh_index-rows :
    (ns : String) (a b : Resource) (va : String) (vbs : List String) (s : IndexStore)
    {t : IndexStore}
    → CacheIsRight s.cache
    → refresh_index ns a b va vbs s ≡ (ok tt, t)
    → (t.conn.tables ≡ without ns a b va s.conn.tables ++ map (entry ns a b va) vbs)
      × CacheIsRight t.cache
unfolding refresh_index
refresh_index-rows ns a b va vbs s {t} h e =
    let (res, u, listed, rest) =
      >>=-eq-ok (list_index ns b a va)
        (λ res. clear_found ns a b va res >> create_all ns a b va vbs) s e in
    let (found, same, names) = list_index-ok ns b a va s h listed in
    let (_, w, cleared, created) =
      >>=-eq-ok (clear_found ns a b va res) (λ _. create_all ns a b va vbs) u rest in
    let (rows, names') = clear-ok ns a b va s u w res (sym same) found names cleared in
    let (rows', names'') = create_all-ok ns a b va vbs w names' created in
    (rw (← rows) rows', names'')

-- Two resources have two names.
name_ne : (a b : Resource) → a ≢ b → (resource_name a == resource_name b) ≡ false
name_ne application application h = absurd (h refl)
name_ne config config h = absurd (h refl)
name_ne secret secret h = absurd (h refl)
name_ne node node h = absurd (h refl)
name_ne application config h = refl
name_ne application _ h = refl
name_ne config application h = refl
name_ne config _ h = refl
name_ne secret application h = refl
name_ne secret _ h = refl
name_ne node application h = refl
name_ne node _ h = refl

module _ (ns : String) (a b : Resource) (apart : a ≢ b) where
  pub selected-entry :
      (ns' v va vb : String)
      → selected (table_name b a) ns' (resource_name a) v (entry ns a b va vb)
        ≡ (ns == ns' && va == v)
  unfolding selected entry lookup
  selected-entry ns' v va vb = simp (table_name_comm b a, eq_refl)

  pub selected-entry_other :
      (ns' v va vb : String)
      → selected (table_name a b) ns' (resource_name b) v (entry ns a b va vb)
        ≡ (ns == ns' && vb == v)
  unfolding selected entry lookup
  selected-entry_other ns' v va vb = simp (name_ne a b apart, eq_refl)

  other-entry : (va vb : String) → lookup (resource_name b) (entry ns a b va vb).cells ≡ some vb
  unfolding entry lookup
  other-entry va vb = simp (name_ne a b apart, eq_refl)

  pub own-entry : (va vb : String) → lookup (resource_name a) (entry ns a b va vb).cells ≡ some va
  unfolding entry lookup
  own-entry va vb = simp eq_refl

  -- Of the new rows, those of the refreshed value are the new values.
  pub select-entries :
      (va : String) (vbs : List String)
      → select
          (table_name b a)
          (resource_name b)
          ns
          (resource_name a)
          va
          (map (entry ns a b va) vbs)
        ≡ vbs
  unfolding select
  select-entries va [] = refl
  select-entries va (vb ∷ vbs) =
      simp (selected-entry, eq_refl, other-entry) (ap (λ r. vb ∷ r) (select-entries va vbs))

pub select-append :
    (t k ns k' v : String) (xs ys : List Row)
    → select t k ns k' v (xs ++ ys) ≡ select t k ns k' v xs ++ select t k ns k' v ys
unfolding select
select-append t k ns k' v xs ys = simp (keep-append, map-append)

keep-keep-not : {A : Type 0} (p : A → Bool) (xs : List A) → keep p (keep (λ x. not (p x)) xs) ≡ []
keep-keep-not p [] = refl
keep-keep-not p (x ∷ xs) = ground (arith, keep-keep-not p xs)

pub select-without :
    (k ns : String) (a b : Resource) (va : String) (rows : List Row)
    → select (table_name b a) k ns (resource_name a) va (without ns a b va rows) ≡ []
unfolding select without
select-without k ns a b va rows = rw (table_name_comm b a) (rw keep-keep-not refl)

pub keep-keep_of_apart :
    {A : Type 0} (p q : A → Bool) (xs : List A)
    → ((x : A) → p x ≡ true → q x ≡ false)
    → keep p (keep (λ x. not (q x)) xs) ≡ keep p xs
keep-keep_of_apart p q [] h = refl
keep-keep_of_apart p q (x ∷ xs) h = ground (arith, h x, keep-keep_of_apart p q xs h)
