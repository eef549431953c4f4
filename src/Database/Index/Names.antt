-- ===== src/Database/Index/Names.antt =====
-- getTable: the name does not depend on the order of the resources, and the process's map of
-- names never holds a wrong one.
use baetyl_cloud.Common.{
  String, ◌≡◌, refl, sym, ap, ◌∙◌, Bool, true, false, Option, none, some, ◌==◌, eq_iff,
  if◌then◌else◌, Option-cases, inl, inr,
}
use baetyl_cloud.Common.Dict.{Dict, lookup, insert, lookup-insert}
use baetyl_cloud.Database.Index.{
  Resource, application, config, secret, node, pair_key, table_name, get_table,
}

-- Both orders of two resources name one table.
pub table_name_comm : (a b : Resource) → table_name a b ≡ table_name b a
unfolding table_name pair_key
table_name_comm application application = refl
table_name_comm application config = refl
table_name_comm application secret = refl
table_name_comm application node = refl
table_name_comm config application = refl
table_name_comm config config = refl
table_name_comm config secret = refl
table_name_comm config node = refl
table_name_comm secret application = refl
table_name_comm secret config = refl
table_name_comm secret secret = refl
table_name_comm secret node = refl
table_name_comm node application = refl
table_name_comm node config = refl
table_name_comm node secret = refl
table_name_comm node node = refl

-- The map of names is right about the pairs that it holds.
abbrev pub CacheIsRight : Dict String → Type 0
CacheIsRight cache =
    (a b : Resource) (t : String) → lookup (pair_key a b) cache ≡ some t → t ≡ table_name a b

-- The table of a key, found among all pairs of resources.
row_of : Resource → String → Option String → Option String
row_of a k rest =
    if pair_key a application == k
    then some (table_name a application)
    else if pair_key a config == k
    then some (table_name a config)
    else if pair_key a secret == k
    then some (table_name a secret)
    else if pair_key a node == k
    then some (table_name a node)
    else rest

table_of_key : String → Option String
table_of_key k = row_of application k (row_of config k (row_of secret k (row_of node k none)))

table_of_key_lem : (a b : Resource) → table_of_key (pair_key a b) ≡ some (table_name a b)
unfolding table_of_key row_of table_name pair_key
table_of_key_lem application application = refl
table_of_key_lem application config = refl
table_of_key_lem application secret = refl
table_of_key_lem application node = refl
table_of_key_lem config application = refl
table_of_key_lem config config = refl
table_of_key_lem config secret = refl
table_of_key_lem config node = refl
table_of_key_lem secret application = refl
table_of_key_lem secret config = refl
table_of_key_lem secret secret = refl
table_of_key_lem secret node = refl
table_of_key_lem node application = refl
table_of_key_lem node config = refl
table_of_key_lem node secret = refl
table_of_key_lem node node = refl

-- Two pairs with one key have one table.
table_of_same_key :
    (a b c d : Resource) → (pair_key a b == pair_key c d) ≡ true → table_name a b ≡ table_name c d
table_of_same_key a b c d h =
    let e : some (table_name a b) ≡ some (table_name c d) =
      sym (table_of_key_lem a b)
      ∙ ap table_of_key ((eq_iff (pair_key a b) (pair_key c d)).0 h)
      ∙ table_of_key_lem c d in
    cc e

insert-CacheIsRight :
    (a b : Resource) (t : String) (cache : Dict String)
    → t ≡ table_name a b
    → CacheIsRight cache
    → CacheIsRight (insert (pair_key a b) t cache)
insert-CacheIsRight a b t cache e h c d u found =
    inserted (pair_key a b == pair_key c d) refl (rw lookup-insert at found)
  where
    inserted :
        (q : Bool)
        → (pair_key a b == pair_key c d) ≡ q
        → (if q then some t else lookup (pair_key c d) cache) ≡ some u
        → u ≡ table_name c d
    inserted true same f = cc (table_of_same_key a b c d same)
    inserted false other f = h c d u f

-- With a right map, a lookup of a table gives its name, and leaves a map that is right.
pub get_table_lem :
    (a b : Resource) (cache : Dict String)
    → CacheIsRight cache
    → ((get_table a b cache).0 ≡ table_name a b) × CacheIsRight (get_table a b cache).1
unfolding get_table
get_table_lem a b cache h = elim (Option-cases (lookup (pair_key a b) cache)) [
  | inr (t, e) ↦ rw e (h a b t e, h)
  | inl e ↦ rw e (elim (Option-cases (lookup (pair_key b a) cache)) [
    | inr (t, f) ↦ rw f (h b a t f ∙ table_name_comm b a, h)
    | inl f ↦ rw f (
      refl,
      insert-CacheIsRight b a (table_name a b) _ (table_name_comm a b)
          (insert-CacheIsRight a b (table_name a b) cache refl h),
    )
  ])
]
