-- ===== src/Database/Nodes.antt =====
-- plugin/database/entities/node.go: the rows of nodes and their conversions. A nil map or slice is
-- taken for an empty one.
pub mod Store
use baetyl_cloud.Common.{
  ℕ, String, Bool, true, false, not, ◌&&◌, ◌||◌, Option, none, some, List, [], ◌∷◌, map, ◌==◌,
  if◌then◌else◌, length, nat_eq,
}
use baetyl_cloud.Common.Action.{
  Error, Result, ok, err, panicked, Action, pure, lift, panic, ◌>>=◌, ◌>>◌,
}
use baetyl_cloud.Common.Dict.{Dict, lookup, insert}
use baetyl_cloud.Service.Config.{same_map}

-- A value in the attributes of a node, of which Go's types for texts and for lists are not told
-- apart; an entry of a list that is no text is `none`.
pub data Attribute : Type 0 where
  text : String → Attribute
  flag : Bool → Attribute
  items : List (Option String) → Attribute
  null : Attribute
  other : String → Attribute

-- specV1.Node, with the fields that the store reads or writes.
pub record NodeModel : Type 0 where
  pub namespace : String
  pub name : String
  pub version : String
  pub creation_timestamp : ℕ
  pub accelerator : String
  pub mode : String
  pub node_mode : String
  pub cluster : Bool
  pub link : String
  pub core_id : String
  pub description : String
  pub annotations : Dict String
  pub attributes : Dict Attribute
  pub labels : Dict String
  pub sys_apps : List String

-- entities.Node
pub record NodeRow : Type 0 where
  pub id : ℕ
  pub namespace : String
  pub name : String
  pub labels : String
  pub version : String
  pub core_version : String
  pub node_mode : String
  pub description : String
  pub annotations : String
  pub attributes : String
  pub create_time : ℕ

-- json of the maps, and the keys and values of baetyl-go.
pub record NodeFormat : Type 0 where
  pub encode : Dict String → Result String
  pub decode : String → Result (Dict String)
  pub encode_attributes : Dict Attribute → Result String
  pub decode_attributes : String → Result (Dict Attribute)
  pub key_accelerator : String
  pub key_sync_mode : String
  pub key_cluster : String
  pub key_link : String
  pub key_core_id : String
  pub key_optional_sys_apps : String
  pub key_core_frequency : String
  pub key_core_api_port : String
  pub key_agent_port : String
  pub key_core_version : String
  pub cloud_mode : String

abbrev text_or_empty : Option Attribute → String
text_or_empty (some (text v)) = v
text_or_empty a = ""

abbrev flag_or_false : Option Attribute → Bool
flag_or_false (some (flag b)) = b
flag_or_false a = false

abbrev item_or_empty : Option String → String
item_or_empty none = ""
item_or_empty (some v) = v

abbrev items_or_none : Option Attribute → List String
items_or_none (some (items vs)) = map item_or_empty vs
items_or_none a = []

abbrev items_of : List String → Attribute
items_of vs = items (map (λ v. some v) vs)

-- Sets a key that is not there.
abbrev put_default : String → Attribute → Dict Attribute → Dict Attribute
put_default key value d = elim (lookup key d) [ none ↦ insert key value d | some v ↦ d ]

module _ (format : NodeFormat) where
  abbrev full_attributes : NodeModel → Dict Attribute
  full_attributes n =
      let given : Dict Attribute = insert format.key_core_id (text n.core_id) (
        insert format.key_link (text n.link) (
          insert format.key_optional_sys_apps (items_of n.sys_apps) (
            insert format.key_cluster (flag n.cluster)
              (insert format.key_accelerator (text n.accelerator) n.attributes)))) in
      put_default format.key_sync_mode (text format.cloud_mode) (
        put_default format.key_agent_port (text "30080") (
          put_default format.key_core_api_port (text "30050")
            (put_default format.key_core_frequency (text "20") given)))

module _ (format : NodeFormat) {S : Type 0} where
  abbrev decoded_attributes : String → Action S (Dict Attribute)
  decoded_attributes t = if t == "" then pure [] else lift (format.decode_attributes t)

  abbrev decoded_annotations : String → Action S (Dict String)
  decoded_annotations t = if t == "" then pure [] else lift (format.decode t)

  -- ToNodeModel
  unfoldable pub to_node_model : NodeRow → Action S NodeModel
  to_node_model r = do
    labels ← lift (format.decode r.labels)
    found ← decoded_attributes r.attributes
    let accelerator : String = text_or_empty (lookup format.key_accelerator found)
    let found₁ : Dict Attribute = insert format.key_accelerator (text accelerator) found
    let mode : String = text_or_empty (lookup format.key_sync_mode found₁)
    let found₂ : Dict Attribute = insert format.key_sync_mode (text mode) found₁
    let cluster : Bool = flag_or_false (lookup format.key_cluster found₂)
    let found₃ : Dict Attribute = insert format.key_cluster (flag cluster) found₂
    let sys_apps : List String = items_or_none (lookup format.key_optional_sys_apps found₃)
    annotations ← decoded_annotations r.annotations
    pure (record {
      namespace = r.namespace;
      name = r.name;
      version = r.version;
      creation_timestamp = r.create_time;
      accelerator = accelerator;
      mode = mode;
      node_mode = r.node_mode;
      cluster = cluster;
      link = text_or_empty (lookup format.key_link found₃);
      core_id = text_or_empty (lookup format.key_core_id found₃);
      description = r.description;
      annotations = annotations;
      attributes = insert format.key_optional_sys_apps (items_of sys_apps) found₃;
      labels = labels;
      sys_apps = sys_apps;
    })

  -- A version that is no text panics.
  abbrev core_version_of : Option Attribute → Action S String
  core_version_of none = pure ""
  core_version_of (some (text v)) = pure v
  core_version_of (some a) = panic

  -- FromNodeModel, which also completes the attributes of the node.
  unfoldable pub from_node_model :
      Action S String → String → NodeModel → Action S (NodeRow × NodeModel)
  from_node_model gen_version ns n = do
    labels ← lift (format.encode n.labels)
    let full : Dict Attribute = full_attributes format n
    core_version ← core_version_of (lookup format.key_core_version full)
    attributes ← lift (format.encode_attributes full)
    annotations ← lift (format.encode n.annotations)
    version ← gen_version
    pure (
      record {
        id = 0;
        namespace = ns;
        name = n.name;
        labels = labels;
        version = version;
        core_version = core_version;
        node_mode = n.node_mode;
        description = n.description;
        annotations = annotations;
        attributes = attributes;
        create_time = 0;
      },
      record n { attributes = full },
    )

abbrev same_item : Option String → Option String → Bool
same_item none none = true
same_item (some a) (some b) = a == b
same_item a b = false

abbrev same_items : List (Option String) → List (Option String) → Bool
same_items [] [] = true
same_items (a ∷ as₁) (b ∷ bs) = same_item a b && same_items as₁ bs
same_items xs ys = false

abbrev same_attribute : Attribute → Attribute → Bool
same_attribute (text a) (text b) = a == b
same_attribute (flag a) (flag b) = if a then b else not b
same_attribute (items a) (items b) = same_items a b
same_attribute null null = true
same_attribute (other a) (other b) = a == b
same_attribute a b = false

abbrev holds : Attribute → Option Attribute → Bool
holds a none = false
holds a (some b) = same_attribute a b

abbrev covers : Dict Attribute → Dict Attribute → Bool
covers [] b = true
covers (e ∷ es) b = holds e.1 (lookup e.0 b) && covers es b

-- EqualNode
unfoldable pub equal_node : NodeModel → NodeModel → Bool
equal_node a b =
    same_map a.labels b.labels
    && a.description == b.description
    && same_map a.annotations b.annotations
    && (nat_eq (length a.attributes) (length b.attributes) && covers a.attributes b.attributes)
    && same_items (map (λ v. some v) a.sys_apps) (map (λ v. some v) b.sys_apps)
    && a.accelerator == b.accelerator
    && a.node_mode == b.node_mode
