-- ===== src/Database/Nodes/Store.antt =====
-- plugin/database/node.go: the node store.
use baetyl_cloud.Common.{
  ℕ, String, Bool, true, false, ◌&&◌, Option, none, some, List, [], ◌∷◌, map, ◌==◌, if◌then◌else◌,
  keep, length, mem,
}
use baetyl_cloud.Common.Action.{
  Error, coded, resource_not_found, Result, ok, err, panicked, Action, pure, raise, lift, ◌>>=◌,
  ◌>>◌,
}
use baetyl_cloud.Common.Dict.{Dict}
use baetyl_cloud.Models.Filter.{Filter, get_fuzzy_name}
use baetyl_cloud.Database.{Conn, statement, transact}
use baetyl_cloud.Database.Keyed.{Table, Key, find, insert, delete}
use baetyl_cloud.Database.Nodes.{
  NodeModel, NodeRow, NodeFormat, to_node_model, from_node_model, equal_node,
}

abbrev pub NodeConn : Type 0
NodeConn = Conn (Table NodeRow)

-- GenResourceVersion, and what listings use of the database and of baetyl-go; `unique` tells
-- whether the schema makes the namespace and the name a key.
pub record NodeLibrary : Type 0 where
  pub gen_version : Action NodeConn String
  pub like : String → String → Bool
  pub newest_first : List NodeRow → List NodeRow
  pub is_label_match : String → Dict String → Result Bool
  pub empty_in : Error
  pub unique : Bool

abbrev pub node_key : Bool → Key NodeRow
node_key unique = record {
  namespace_of = λ r. r.namespace;
  name_of = λ r. r.name;
  stamp = λ i t r. record r { id = i; create_time = t };
  unique = unique;
}

-- CASE name WHEN ... END: the first row of a pass with the name.
unfoldable pub case_name : String → List NodeRow → Option NodeRow
case_name name [] = none
case_name name (r ∷ rs) = let rest = case_name name rs in if r.name == name then some r else rest

-- Sets a column to that of the row that CASE finds.
abbrev set_by : (NodeRow → NodeRow → NodeRow) → List NodeRow → NodeRow → NodeRow
set_by set rows r = elim (case_name r.name rows) [ none ↦ r | some new ↦ set new r ]

-- Changes the rows that pass a test.
unfoldable pub update_rows : (NodeRow → Bool) → (NodeRow → NodeRow) → List NodeRow → List NodeRow
update_rows p f [] = []
update_rows p f (r ∷ rs) = let rest = update_rows p f rs in (if p r then f r else r) ∷ rest

module _ (format : NodeFormat) (library : NodeLibrary) where
  abbrev pub key : Key NodeRow
  key = node_key library.unique

  abbrev model_of : String → Option NodeRow → Action NodeConn NodeModel
  model_of name none = raise (coded resource_not_found (("type", "node") ∷ ("name", name) ∷ []))
  model_of name (some r) = to_node_model format r

  -- GetNode, with GetNodeTx
  unfoldable pub get_node : String → String → Action NodeConn NodeModel
  get_node ns name = do row ← statement (λ t. (find key ns name t.rows, t)); model_of name row

  -- CreateNodeTx
  unfoldable pub create_node_tx : String → NodeModel → Action NodeConn (Unit {0})
  create_node_tx ns n = do
    made ← from_node_model format library.gen_version ns n
    r ← statement (insert key made.0)
    lift r

  -- createAndGetNode
  unfoldable pub create_and_get_node : String → NodeModel → Action NodeConn NodeModel
  create_and_get_node ns n = do create_node_tx ns n; get_node ns n.name

  -- CreateNode; the flag tells whether a transaction is given.
  unfoldable pub create_node : Bool → String → NodeModel → Action NodeConn NodeModel
  create_node true ns n = create_and_get_node ns n
  create_node false ns n = transact (create_and_get_node ns n)

  -- The loop of UpdateNodeTx over the nodes for one field: each node is converted again, and takes
  -- the version of this conversion.
  unfoldable pub pass : String → List NodeModel → Action NodeConn (List NodeRow × List NodeModel)
  pass ns [] = pure ([], [])
  pass ns (n ∷ ns₁) = do
    made ← from_node_model format library.gen_version ns n
    rest ← pass ns ns₁
    pure (made.0 ∷ rest.0, record made.1 { version = made.0.version } ∷ rest.1)

  abbrev first_namespace : List NodeModel → String
  first_namespace [] = ""
  first_namespace (n ∷ ns) = n.namespace

  -- UpdateNodeTx: a pass for each of the seven fields, and one statement.
  unfoldable pub update_node_tx : String → List NodeModel → Action NodeConn (List NodeModel)
  update_node_tx ns nodes = do
    p₁ ← pass ns nodes
    p₂ ← pass ns p₁.1
    p₃ ← pass ns p₂.1
    p₄ ← pass ns p₃.1
    p₅ ← pass ns p₄.1
    p₆ ← pass ns p₅.1
    p₇ ← pass ns p₆.1
    let written : NodeRow → NodeRow = λ r.
        set_by (λ new r. record r { attributes = new.attributes }) p₇.0
          (set_by (λ new r. record r { annotations = new.annotations }) p₆.0
            (set_by (λ new r. record r { labels = new.labels }) p₅.0
              (set_by (λ new r. record r { description = new.description }) p₄.0
                (set_by (λ new r. record r { node_mode = new.node_mode }) p₃.0
                  (set_by (λ new r. record r { core_version = new.core_version }) p₂.0
                    (set_by (λ new r. record r { version = new.version }) p₁.0 r))))))
    let is_meant : NodeRow → Bool = λ r.
        mem r.name (map (λ (n : NodeModel). n.name) nodes) && r.namespace == first_namespace nodes
    statement {A = Unit {0}} (λ t. (tt, record t { rows = update_rows is_meant written t.rows }))
    pure p₇.1

  -- The end of getAndUpdateNodeTx: no statement for no nodes.
  abbrev update_all : String → List NodeModel → Action NodeConn (List NodeModel)
  update_all ns [] = pure []
  update_all ns (n ∷ nodes) = update_node_tx ns (n ∷ nodes)

  -- The loop of getAndUpdateNodeTx: whether one of the nodes is equal to the stored one, up to
  -- which it looks.
  unfoldable pub some_equal : String → List NodeModel → Action NodeConn Bool
  some_equal ns [] = pure false
  some_equal ns (n ∷ nodes) = do
    old ← get_node ns n.name
    if equal_node n old then pure true else some_equal ns nodes

  -- getAndUpdateNodeTx; nothing is written as soon as one node is equal to the stored one.
  unfoldable pub get_and_update_node_tx : String → List NodeModel → Action NodeConn (List NodeModel)
  get_and_update_node_tx ns nodes = do
    equal ← some_equal ns nodes
    if equal then pure nodes else update_all ns nodes

  -- UpdateNode
  unfoldable pub update_node : Bool → String → List NodeModel → Action NodeConn (List NodeModel)
  update_node true ns nodes = get_and_update_node_tx ns nodes
  update_node false ns nodes = transact (get_and_update_node_tx ns nodes)

  -- DeleteNode, with DeleteNodeTx
  unfoldable pub delete_node : String → String → Action NodeConn (Unit {0})
  delete_node ns name = statement (λ t. (tt, delete key ns name t))

  abbrev matched : String → Dict String → Bool
  matched selector labels = elim (library.is_label_match selector labels) [
    | ok b ↦ b
    | err e ↦ false
    | panicked ↦ false
  ]

  -- The loop of ListNodeTx; a selector that cannot be tested leaves a row out.
  unfoldable pub matching_models : String → List NodeRow → Action NodeConn (List NodeModel)
  matching_models selector [] = pure []
  matching_models selector (r ∷ rs) = do
    labels ← lift (format.decode r.labels)
    let rest : Action NodeConn (List NodeModel) = matching_models selector rs
    if matched selector labels
        then (do n ← to_node_model format r; nodes ← rest; pure (n ∷ nodes))
        else rest

  -- ListNode, with ListNodeTx: all that match, and their number; it does not cut a page.
  unfoldable pub list_node : String → String → Filter → Action NodeConn (List NodeModel × ℕ)
  list_node ns selector filter = do
    rows ← statement (λ t. (
      library.newest_first
          (keep (λ r. r.namespace == ns && library.like r.name (get_fuzzy_name filter)) t.rows),
      t,
    ))
    nodes ← matching_models selector rows
    pure (nodes, length nodes)

  -- CountAllNode, with CountAllNodeTx
  unfoldable pub count_all_node : Action NodeConn ℕ
  count_all_node = statement (λ t. (length t.rows, t))

  unfoldable pub models_of : List NodeRow → Action NodeConn (List NodeModel)
  models_of [] = pure []
  models_of (r ∷ rs) = do n ← to_node_model format r; rest ← models_of rs; pure (n ∷ rest)

  -- GetNodeByNames, with GetNodeByNamesTx; sqlx.In refuses an empty list.
  unfoldable pub get_node_by_names : String → List String → Action NodeConn (List NodeModel)
  get_node_by_names ns [] = raise library.empty_in
  get_node_by_names ns (name ∷ names) = do
    rows ← statement (λ t. (
      library.newest_first (keep (λ r. mem r.name (name ∷ names) && r.namespace == ns) t.rows),
      t,
    ))
    models_of rows
