-- ===== src/Database/Index/Answers.antt =====
-- plugin/database/index.go: a refresh on a connection without errors.
use mathlib.Core.Path.{subst}
use baetyl_cloud.Common.{String, ◌≡◌, ◌≢◌, refl, List, [], ◌∷◌}
use baetyl_cloud.Common.Action.{Result, ok, Action, and_then}
use baetyl_cloud.Database.Index.{
  Resource, Row, IndexStore, on_table, get_table, insert_row, select_rows, delete_rows,
  create_index, list_index, delete_index, create_all, clear_found, refresh_index,
}
use baetyl_cloud.Database.Index.Names.{CacheIsRight}
use baetyl_cloud.Database.Index.Promise.{list-refresh}

-- A run that answered, on a connection without further errors.
abbrev pub IsAnswered : {A : Type 0} → Result A × IndexStore → Type 0
IsAnswered {A} r = (a : A) × (t : IndexStore) × (r ≡ (ok a, t)) × (t.conn.faults ≡ [])

bind-IsAnswered :
    {A B : Type 0} (r : Result A × IndexStore) (f : A → Action IndexStore B)
    → IsAnswered r
    → ((a : A) (t : IndexStore) → t.conn.faults ≡ [] → IsAnswered (f a t))
    → IsAnswered (and_then r f)
bind-IsAnswered r f (a, t, e, h) rest = rw e (rest a t h)

on_table-IsAnswered :
    {A : Type 0} (a b : Resource) (f : String → List Row → A × List Row) (s : IndexStore)
    → s.conn.faults ≡ []
    → IsAnswered (on_table a b f s)
on_table-IsAnswered a b f s h =
    let (t, cache) = get_table a b s.cache in
    let r = f t s.conn.tables in
    (r.0, record { cache = cache; conn = record s.conn { tables = r.1 } }, rw h refl, h)

create_all-IsAnswered :
    (ns : String) (a b : Resource) (va : String) (vbs : List String) (s : IndexStore)
    → s.conn.faults ≡ []
    → IsAnswered (create_all ns a b va vbs s)
unfolding create_all create_index
create_all-IsAnswered ns a b va [] s h = (tt, s, refl, h)
create_all-IsAnswered ns a b va (vb ∷ vbs) s h =
    bind-IsAnswered (on_table a b (insert_row ns a b va vb) s) (λ _. create_all ns a b va vbs)
      (on_table-IsAnswered a b (insert_row ns a b va vb) s h)
      (λ _ t h'. create_all-IsAnswered ns a b va vbs t h')

clear_found-IsAnswered :
    (ns : String) (a b : Resource) (va : String) (res : List String) (s : IndexStore)
    → s.conn.faults ≡ []
    → IsAnswered (clear_found ns a b va res s)
unfolding delete_index
clear_found-IsAnswered ns a b va [] s h = (tt, s, refl, h)
clear_found-IsAnswered ns a b va (x ∷ xs) s h = on_table-IsAnswered b a (delete_rows ns a va) s h

-- A refresh answers on every connection that has no further errors, and leaves none.
refresh_index-IsAnswered :
    (ns : String) (a b : Resource) (va : String) (vbs : List String) (s : IndexStore)
    → s.conn.faults ≡ []
    → IsAnswered (refresh_index ns a b va vbs s)
unfolding refresh_index list_index
refresh_index-IsAnswered ns a b va vbs s h =
    bind-IsAnswered (on_table b a (select_rows ns b a va) s) _
      (on_table-IsAnswered b a (select_rows ns b a va) s h)
      λ res t h'.
        bind-IsAnswered (clear_found ns a b va res t) _ (clear_found-IsAnswered ns a b va res t h')
          (λ _ u h''. create_all-IsAnswered ns a b va vbs u h'')

-- On a connection without further errors, where the map of table names is right, and for two
-- different resources: a refresh answers, and the listing by the refreshed value that follows it answers with exactly
-- the values of the refresh, in their order.
pub refresh_index-answers :
    (ns : String) (a b : Resource) (va : String) (vbs : List String) (s : IndexStore)
    → a ≢ b
    → CacheIsRight s.cache
    → s.conn.faults ≡ []
    → (t : IndexStore) × (u : IndexStore) × (refresh_index ns a b va vbs s ≡ (ok tt, t))
      × (list_index ns b a va t ≡ (ok vbs, u))
unfolding list_index
refresh_index-answers ns a b va vbs s apart right h =
    let (_, t, refreshed, h') = refresh_index-IsAnswered ns a b va vbs s h in
    let (res, u, listed, _) = on_table-IsAnswered b a (select_rows ns b a va) t h' in
    let same = list-refresh ns a b va vbs res s t u apart right refreshed listed in
    (t, u, refreshed, subst (λ l. list_index ns b a va t ≡ (ok l, u)) same listed)
