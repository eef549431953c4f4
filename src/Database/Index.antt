-- ===== src/Database/Index.antt =====
-- plugin/database/index.go: the tables that relate resources to one another, in both directions.
-- A listing has no ORDER BY; it is taken to give the rows in the order of their insertion, which SQL
-- does not promise.
pub mod Names
pub mod Refresh
pub mod Rows
pub mod Promise
pub mod Contract
pub mod Answers
use Prim.Native.String.{◌++◌ as str_append, compare}
use text.Mathlib.Text.{is_lt}
use baetyl_cloud.Common.{
  ℕ, zero, suc, String, Bool, true, false, not, ◌&&◌, Option, none, some, List, [], ◌∷◌, ◌++◌, map,
  ◌==◌, if◌then◌else◌, keep, ltb, length,
}
use baetyl_cloud.Common.Action.{Error, Result, ok, err, Action, pure, ◌>>=◌, ◌>>◌, and_then}
use baetyl_cloud.Common.Dict.{Dict, lookup, insert}
use baetyl_cloud.Database.{Conn, statement}

-- The resources of common/constants.go that the index service relates.
pub data Resource : Type 0 where
  application config secret node : Resource

abbrev pub resource_name : Resource → String
resource_name application = "application"
resource_name config = "config"
resource_name secret = "secret"
resource_name node = "node"

-- A row of an index table: the two key columns by their names.
pub record Row : Type 0 where
  pub table : String
  pub namespace : String
  pub cells : Dict String

-- The database, and the process's map of the table names found so far.
pub record IndexStore : Type 0 where
  pub cache : Dict String
  pub conn : Conn (List Row)

unfoldable pub pair_key : Resource → Resource → String
pair_key a b = str_append (resource_name a) (str_append "_" (resource_name b))

unfoldable pub table_name : Resource → Resource → String
table_name a b =
    if is_lt (compare (resource_name a) (resource_name b))
    then str_append "baetyl_index_" (pair_key a b)
    else str_append "baetyl_index_" (pair_key b a)

abbrev or_other : Resource → Resource → Option String → Dict String → String × Dict String
or_other a b (some t) cache = (t, cache)
or_other a b none cache =
    let t = table_name a b in (t, insert (pair_key b a) t (insert (pair_key a b) t cache))

abbrev or_reversed : Resource → Resource → Option String → Dict String → String × Dict String
or_reversed a b (some t) cache = (t, cache)
or_reversed a b none cache = or_other a b (lookup (pair_key b a) cache) cache

-- getTable
unfoldable pub get_table : Resource → Resource → Dict String → String × Dict String
get_table a b cache = or_reversed a b (lookup (pair_key a b) cache) cache

-- WHERE namespace = ? and k = ?
abbrev pub cell_is : String → String → Option String → Bool
cell_is k v none = false
cell_is k v (some w) = w == v

unfoldable pub selected : String → String → String → String → Row → Bool
selected t ns k v r = r.table == t && r.namespace == ns && cell_is k v (lookup k r.cells)

abbrev pub text_of : Option String → String
text_of none = ""
text_of (some v) = v

-- SELECT a FROM t WHERE namespace = ns and b = v
unfoldable pub select : String → String → String → String → String → List Row → List String
select t a ns b v rows =
    map (λ (r : Row). text_of (lookup a r.cells)) (keep (selected t ns b v) rows)

-- A statement on the table of two resources, whose name is looked up first.
abbrev pub on_table :
    {A : Type 0} → Resource → Resource → (String → List Row → A × List Row) → Action IndexStore A
on_table a b f s =
    let (t, cache) = get_table a b s.cache in
    let (r, c) = statement (f t) s.conn in (r, record { cache = cache; conn = c })

-- INSERT INTO t (namespace, a, b) VALUES (ns, va, vb)
abbrev pub insert_row :
    String → Resource → Resource → String → String → String → List Row → Unit {0} × List Row
insert_row ns a b va vb t rows = (
  tt,
  rows
      ++ record {
        table = t;
        namespace = ns;
        cells = (resource_name a, va) ∷ (resource_name b, vb) ∷ [];
      }
        ∷ [],
)

-- SELECT a FROM t WHERE namespace = ns and by = vb, in the order of insertion.
abbrev pub select_rows :
    String → Resource → Resource → String → String → List Row → List String × List Row
select_rows ns a by vb t rows = (select t (resource_name a) ns (resource_name by) vb rows, rows)

-- DELETE FROM t WHERE namespace = ns and by = vb
abbrev pub delete_rows : String → Resource → String → String → List Row → Unit {0} × List Row
delete_rows ns by vb t rows = (tt, keep (λ r. not (selected t ns (resource_name by) vb r)) rows)

-- CreateIndexTx
unfoldable pub create_index :
    String → Resource → Resource → String → String → Action IndexStore (Unit {0})
create_index ns a b va vb = on_table a b (insert_row ns a b va vb)

-- ListIndexTx
unfoldable pub list_index : String → Resource → Resource → String → Action IndexStore (List String)
list_index ns a by vb = on_table a by (select_rows ns a by vb)

-- DeleteIndexTx
unfoldable pub delete_index : String → Resource → Resource → String → Action IndexStore (Unit {0})
delete_index ns a by vb = on_table a by (delete_rows ns by vb)

-- The loop of RefreshIndex.
unfoldable pub create_all :
    String → Resource → Resource → String → List String → Action IndexStore (Unit {0})
create_all ns a b va [] = pure tt
create_all ns a b va (vb ∷ vbs) = create_index ns a b va vb >> create_all ns a b va vbs

-- if len(res) > 0 { DeleteIndexTx }
abbrev pub clear_found :
    String → Resource → Resource → String → List String → Action IndexStore (Unit {0})
clear_found ns a b va [] = pure tt
clear_found ns a b va (x ∷ xs) = delete_index ns b a va

-- RefreshIndex
unfoldable pub refresh_index :
    String → Resource → Resource → String → List String → Action IndexStore (Unit {0})
refresh_index ns a b va vbs = do
  res ← list_index ns b a va
  clear_found ns a b va res
  create_all ns a b va vbs
