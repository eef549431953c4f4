-- ===== src/Database/Index/Refresh.antt =====
-- RefreshIndex against its promise: afterwards the index relates a value to exactly the values
-- given, seen from either side, and relates every other value as before.
use baetyl_cloud.Common.{String, ◌≡◌, sym, ap, ◌∙◌, not, List, [], ◌∷◌, ◌++◌, map, keep}
use mathlib.Core.Path.{subst}
use mathlib.Core.List.{append-nil, append_assoc}
use baetyl_cloud.Common.Action.{ok, >>=-eq-ok}
use baetyl_cloud.Database.{statement, statement-ok}
use baetyl_cloud.Database.Index.{
  Resource, resource_name, Row, IndexStore, table_name, get_table, on_table, selected, select,
  insert_row, select_rows, delete_rows, create_index, list_index, delete_index, create_all,
}
use baetyl_cloud.Database.Index.Names.{CacheIsRight, get_table_lem, table_name_comm}

unfoldable pub entry : String → Resource → Resource → String → String → Row
entry ns a b va vb = record {
  table = table_name a b;
  namespace = ns;
  cells = (resource_name a, va) ∷ (resource_name b, vb) ∷ [];
}

unfoldable pub without : String → Resource → Resource → String → List Row → List Row
without ns a b va rows = keep (λ r. not (selected (table_name a b) ns (resource_name a) va r)) rows

-- A statement that answered: what it did to the rows, and the map of names.
record Ran {A : Type 0} (s t : IndexStore) (r : A × List Row) (a : A) : Type 0 where
  rows : r ≡ (a, t.conn.tables)
  names : CacheIsRight t.cache

on_table-ok :
    {A : Type 0} (a b : Resource) (f : String → List Row → A × List Row) (s : IndexStore) {v : A}
    {t : IndexStore}
    → CacheIsRight s.cache
    → on_table a b f s ≡ (ok v, t)
    → Ran s t (f (table_name a b) s.conn.tables) v
on_table-ok a b f s {v} {t} h e =
    let (name, right) = get_table_lem a b s.cache h in
    let st = statement (f (get_table a b s.cache).0) s.conn in
    let p : st ≡ (ok v, t.conn) = λ i. ((e i).0, (e i).1.conn) in
    record {
      rows = rw (← name) (statement-ok (f (get_table a b s.cache).0) s.conn p);
      names = subst CacheIsRight (λ i. (e i).1.cache) right;
    }

create_index-ok :
    (ns : String) (a b : Resource) (va vb : String) (s : IndexStore) {t : IndexStore}
    → CacheIsRight s.cache
    → create_index ns a b va vb s ≡ (ok tt, t)
    → (t.conn.tables ≡ s.conn.tables ++ entry ns a b va vb ∷ []) × CacheIsRight t.cache
unfolding create_index entry
create_index-ok ns a b va vb s h e =
    let q = on_table-ok a b (insert_row ns a b va vb) s h e in (sym (ap (λ p. p.1) q.rows), q.names)

pub create_all-ok :
    (ns : String) (a b : Resource) (va : String) (vbs : List String) (s : IndexStore)
    {t : IndexStore}
    → CacheIsRight s.cache
    → create_all ns a b va vbs s ≡ (ok tt, t)
    → (t.conn.tables ≡ s.conn.tables ++ map (entry ns a b va) vbs) × CacheIsRight t.cache
unfolding create_all
create_all-ok ns a b va [] s {t} h e = (
  sym (ap (λ p. p.1.conn.tables) e) ∙ sym (append-nil _),
  subst CacheIsRight (λ i. (e i).1.cache) h,
)
create_all-ok ns a b va (vb ∷ vbs) s {t} h e =
    let (_, u, first, rest) =
      >>=-eq-ok (create_index ns a b va vb) (λ _. create_all ns a b va vbs) s e in
    let (rows, names) = create_index-ok ns a b va vb s h first in
    let (rows', names') = create_all-ok ns a b va vbs u names rest in
    (rows' ∙ simp (rows, append_assoc), names')

pub delete_index-ok :
    (ns : String) (a by : Resource) (v : String) (s : IndexStore) {t : IndexStore}
    → CacheIsRight s.cache
    → delete_index ns a by v s ≡ (ok tt, t)
    → (t.conn.tables ≡ without ns by a v s.conn.tables) × CacheIsRight t.cache
unfolding delete_index without
delete_index-ok ns a by v s h e =
    let q = on_table-ok a by (delete_rows ns by v) s h e in
    (sym (ap (λ p. p.1) q.rows) ∙ rw (table_name_comm a by), q.names)

pub list_index-ok :
    (ns : String) (a by : Resource) (v : String) (s : IndexStore) {res : List String}
    {t : IndexStore}
    → CacheIsRight s.cache
    → list_index ns a by v s ≡ (ok res, t)
    → (select (table_name a by) (resource_name a) ns (resource_name by) v s.conn.tables ≡ res)
      × (t.conn.tables ≡ s.conn.tables)
      × CacheIsRight t.cache
unfolding list_index
list_index-ok ns a by v s h e =
    let q = on_table-ok a by (select_rows ns a by v) s h e in
    (ap (λ p. p.0) q.rows, sym (ap (λ p. p.1) q.rows), q.names)
