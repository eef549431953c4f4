-- ===== src/Database/Index/Contract.antt =====
-- The database meets the contract of the index plugin.
use mathlib.Core.List.{append-nil}
use baetyl_cloud.Common.{
  String, ◌≡◌, ◌≢◌, refl, sym, ap, ◌∙◌, true, false, List, [], ◌∷◌, map, arith, ◌==◌, eq_iff,
  if◌then◌else◌, Bool-cases, inl, inr,
}
use baetyl_cloud.Plugin.{IndexPlugin}
use baetyl_cloud.Plugin.Contract.{IndexContract}
use baetyl_cloud.Database.Index.{
  Resource, application, config, secret, node, resource_name, Row, IndexStore, pair_key, table_name,
  selected, select, list_index, refresh_index,
}
use baetyl_cloud.Database.Index.Names.{CacheIsRight, table_name_comm}
use baetyl_cloud.Database.Index.Refresh.{entry, without, list_index-ok}
use baetyl_cloud.Database.Index.Rows.{
  refresh_index-rows, select-append, select-without, select-entries, keep-keep_of_apart,
}

abbrev pub db_index : IndexPlugin IndexStore
db_index = record { refresh = refresh_index; list = list_index }

-- The reading of the store.
abbrev pub db_related : IndexStore → String → Resource → Resource → String → List String
db_related s ns a by v =
    select (table_name a by) (resource_name a) ns (resource_name by) v s.conn.tables

-- The other resource of a table of `a`.
other_of : Resource → String → Resource
other_of a t =
    if table_name a application == t
    then application
    else if table_name a config == t
    then config
    else if table_name a secret == t
    then secret
    else node

other_of_lem : (a b : Resource) → other_of a (table_name a b) ≡ b
unfolding other_of table_name pair_key
other_of_lem application application = refl
other_of_lem application config = refl
other_of_lem application secret = refl
other_of_lem application node = refl
other_of_lem config application = refl
other_of_lem config config = refl
other_of_lem config secret = refl
other_of_lem config node = refl
other_of_lem secret application = refl
other_of_lem secret config = refl
other_of_lem secret secret = refl
other_of_lem secret node = refl
other_of_lem node application = refl
other_of_lem node config = refl
other_of_lem node secret = refl
other_of_lem node node = refl

-- One resource shares no two tables with different others.
tables_apart : (a b c : Resource) → b ≢ c → (table_name a b == table_name a c) ≡ false
tables_apart a b c apart = elim (Bool-cases (table_name a b == table_name a c)) [
  | inr e ↦ e
  | inl e ↦ absurd (
      apart (
        sym (other_of_lem a b)
        ∙ ap (other_of a) ((eq_iff (table_name a b) (table_name a c)).0 e)
        ∙ other_of_lem a c))
]

selected_table_apart :
    (t t' k ns ns' v v' : String) (r : Row)
    → (t == t') ≡ false
    → selected t' ns' k v' r ≡ true
    → selected t ns k v r ≡ false
unfolding selected
selected_table_apart t t' k ns ns' v v' r apart h =
    ground (arith, eq_iff t t', eq_iff r.table t, eq_iff r.table t')

module _ (ns ns' : String) (a b c : Resource) (apart : b ≢ c) where
  select-without_elsewhere :
      (va v : String) (rows : List Row)
      → select (table_name a c) (resource_name c) ns' (resource_name a) v (without ns a b va rows)
        ≡ select (table_name a c) (resource_name c) ns' (resource_name a) v rows
  unfolding select without
  select-without_elsewhere va v rows = rw (
      keep-keep_of_apart (selected (table_name a c) ns' (resource_name a) v)
        (selected (table_name a b) ns (resource_name a) va) rows
        λ r h.
          selected_table_apart (table_name a b) (table_name a c) (resource_name a) ns ns' va v r
            (tables_apart a b c apart) h)

  entry_elsewhere :
      (va v vb : String)
      → selected (table_name a c) ns' (resource_name a) v (entry ns a b va vb) ≡ false
  unfolding selected entry
  entry_elsewhere va v vb = rw (tables_apart a b c apart)

  select-entries_elsewhere :
      (va v : String) (vbs : List String)
      → select
          (table_name a c)
          (resource_name c)
          ns'
          (resource_name a)
          v
          (map (entry ns a b va) vbs)
        ≡ []
  unfolding select
  select-entries_elsewhere va v [] = refl
  select-entries_elsewhere va v (x ∷ vbs) =
      simp (entry_elsewhere) (select-entries_elsewhere va v vbs)

-- The database's index is an index in the sense of the services.
pub db_index-IndexContract : IndexContract db_index (λ s. CacheIsRight s.cache) db_related
db_index-IndexContract = record {
  listed = λ ns a by v s h e.
      let (found, _, right) = list_index-ok ns a by v s h e in (right, sym found);
  refreshed = λ ns a b va vbs s apart h e.
      let (rows, right) = refresh_index-rows ns a b va vbs s h e in
      (right, rw rows (simp (select-append, select-without) (select-entries ns a b apart va vbs)));
  elsewhere = λ ns ns' a b c va v vbs s apart h e.
      let (rows, right) = refresh_index-rows ns a b va vbs s h e in
      rw (rows, table_name_comm c a)
        (simp (
          select-append,
          select-without_elsewhere ns ns' a b c apart,
          select-entries_elsewhere ns ns' a b c apart,
          append-nil,
        ));
}
