-- ===== src/Database/Index/Promise.antt =====
-- What RefreshIndex promises to the callers of ListIndex.
use mathlib.Core.List.{append-nil}
use baetyl_cloud.Common.{
  String, ◌≡◌, ◌≢◌, refl, sym, ◌∙◌, true, false, ◌&&◌, Option, none, some, List, [], ◌∷◌, map,
  arith, ◌==◌, eq_iff, eq_refl, mem, mem-append, Bool-cases, inl, inr,
}
use baetyl_cloud.Common.Action.{ok}
use baetyl_cloud.Common.Dict.{lookup}
use baetyl_cloud.Database.Index.{
  Resource, resource_name, Row, IndexStore, table_name, text_of, cell_is, selected, select,
  list_index, refresh_index,
}
use baetyl_cloud.Database.Index.Names.{CacheIsRight, table_name_comm}
use baetyl_cloud.Database.Index.Refresh.{entry, without, list_index-ok}
use baetyl_cloud.Database.Index.Rows.{
  refresh_index-rows, select-append, select-without, select-entries, keep-keep_of_apart,
  selected-entry, selected-entry_other, own-entry,
}

-- Of two different resources, with a right map of table names: after a refresh that answered, a
-- listing by the refreshed value that answers gives the values of the refresh, in their order.
pub list-refresh :
    (ns : String) (a b : Resource) (va : String) (vbs res : List String) (s t u : IndexStore)
    → a ≢ b
    → CacheIsRight s.cache
    → refresh_index ns a b va vbs s ≡ (ok tt, t)
    → list_index ns b a va t ≡ (ok res, u)
    → res ≡ vbs
list-refresh ns a b va vbs res s t u apart h e e' =
    let (rows, names) = refresh_index-rows ns a b va vbs s h e in
    let (found, _, _) = list_index-ok ns b a va t names e' in
    sym found ∙ rw rows (simp (select-append, select-without) (select-entries ns a b apart va vbs))

cell_text :
    (k va : String) (o : Option String)
    → (va == "") ≡ false
    → cell_is k va o ≡ false
    → (text_of o == va) ≡ false
cell_text k va none named h = ground (arith, eq_iff va "", eq_iff "" va)
cell_text k va (some w) named h = h

cell_apart :
    (k v v' : String) (o : Option String)
    → (v == v') ≡ false
    → cell_is k v' o ≡ true
    → cell_is k v o ≡ false
cell_apart k v v' none h h' = refl
cell_apart k v v' (some w) h h' = ground (arith, eq_iff v v', eq_iff w v, eq_iff w v')

-- A row that was kept does not carry the refreshed value.
kept_row :
    (t ns ka kb va vb : String) (r : Row)
    → (va == "") ≡ false
    → selected t ns ka va r ≡ false
    → selected t ns kb vb r ≡ true
    → (text_of (lookup ka r.cells) == va) ≡ false
unfolding selected
kept_row t ns ka kb va vb r named h h' = cell_text ka va (lookup ka r.cells) named (ground arith)

mem-select-without :
    (ns : String) (a b : Resource) (va vb : String) (rows : List Row)
    → (va == "") ≡ false
    → mem va
        (select (table_name a b) (resource_name a) ns (resource_name b) vb (without ns a b va rows))
      ≡ false
unfolding select without
mem-select-without ns a b va vb [] named = refl
mem-select-without ns a b va vb (r ∷ rows) named = ground (
  arith,
  mem-select-without ns a b va vb rows named,
  kept_row (table_name a b) ns (resource_name a) (resource_name b) va vb r named,
)

mem-select-entries :
    (ns : String) (a b : Resource)
    → a ≢ b
    → (va vb : String) (vbs : List String)
    → mem va (
        select
          (table_name a b)
          (resource_name a)
          ns
          (resource_name b)
          vb
          (map (entry ns a b va) vbs))
      ≡ mem vb vbs
unfolding select
mem-select-entries ns a b apart va vb [] = refl
mem-select-entries ns a b apart va vb (x ∷ vbs) = elim (Bool-cases (x == vb)) [
  | inl e ↦ simp (selected-entry_other ns a b apart, eq_refl, e, own-entry ns a b apart)
  | inr e ↦
      simp (selected-entry_other ns a b apart, eq_refl, e)
        (mem-select-entries ns a b apart va vb vbs)
]

-- Of two different resources, with a right map of table names and a value that is not empty: after
-- a refresh that answered, a listing by any value of the other resource that answers names the
-- refreshed value exactly if that other value was among those given.
pub list-refresh_other_side :
    (ns : String) (a b : Resource) (va vb : String) (vbs res : List String) (s t u : IndexStore)
    → a ≢ b
    → (va == "") ≡ false
    → CacheIsRight s.cache
    → refresh_index ns a b va vbs s ≡ (ok tt, t)
    → list_index ns a b vb t ≡ (ok res, u)
    → mem va res ≡ mem vb vbs
list-refresh_other_side ns a b va vb vbs res s t u apart named h e e' =
    let (rows, names) = refresh_index-rows ns a b va vbs s h e in
    let (found, _, _) = list_index-ok ns a b vb t names e' in
    rw (← found) (
      rw rows (
        simp (select-append, mem-append, mem-select-without ns a b va vb s.conn.tables named)
          (mem-select-entries ns a b apart va vb vbs)))

-- Rows of one namespace and value are not rows of another.
selected_apart :
    (t k ns ns' v v' : String) (r : Row)
    → (ns == ns' && v == v') ≡ false
    → selected t ns' k v' r ≡ true
    → selected t ns k v r ≡ false
unfolding selected
selected_apart t k ns ns' v v' r h h' = ground (
  arith,
  cell_apart k v v' (lookup k r.cells),
  eq_iff ns ns',
  eq_iff r.namespace ns,
  eq_iff r.namespace ns',
)

select-without_other :
    (k ns ns' : String) (a b : Resource) (va v : String) (rows : List Row)
    → (ns == ns' && va == v) ≡ false
    → select (table_name b a) k ns' (resource_name a) v (without ns a b va rows)
      ≡ select (table_name b a) k ns' (resource_name a) v rows
unfolding select without
select-without_other k ns ns' a b va v rows other = rw (table_name_comm b a) (
    rw (
      keep-keep_of_apart (selected (table_name a b) ns' (resource_name a) v)
        (selected (table_name a b) ns (resource_name a) va) rows
        λ r h. selected_apart (table_name a b) (resource_name a) ns ns' va v r other h))

select-entries_other :
    (ns ns' : String) (a b : Resource)
    → a ≢ b
    → (va v : String) (vbs : List String) → (ns == ns' && va == v) ≡ false
    → select (table_name b a) (resource_name b) ns' (resource_name a) v (map (entry ns a b va) vbs)
      ≡ []
unfolding select
select-entries_other ns ns' a b apart va v [] other = refl
select-entries_other ns ns' a b apart va v (x ∷ vbs) other =
    simp (selected-entry ns a b apart, other) (select-entries_other ns ns' a b apart va v vbs other)

-- Of two different resources, with a right map of table names: a listing by another value or in
-- another namespace gives after a refresh what it gave before, its order included, where the three
-- calls answer.
pub list-refresh_other_value :
    (ns ns' : String) (a b : Resource) (va v : String) (vbs before after : List String)
    (s s' t u : IndexStore)
    → a ≢ b
    → (ns == ns' && va == v) ≡ false
    → CacheIsRight s.cache
    → list_index ns' b a v s ≡ (ok before, s')
    → refresh_index ns a b va vbs s' ≡ (ok tt, t)
    → list_index ns' b a v t ≡ (ok after, u)
    → after ≡ before
list-refresh_other_value ns ns' a b va v vbs before after s s' t u apart other h e₀ e e' =
    let (was, same, right) = list_index-ok ns' b a v s h e₀ in
    let (rows, names) = refresh_index-rows ns a b va vbs s' right e in
    let (found, _, _) = list_index-ok ns' b a v t names e' in
    sym found
    ∙ rw rows (
        rw same (
          simp
            (
              select-append,
              select-without_other (resource_name b) ns ns' a b va v s.conn.tables other,
              select-entries_other ns ns' a b apart va v vbs other,
              append-nil,
            )
            was))
