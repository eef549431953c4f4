-- ===== src/Database/Shadows/Queries.antt =====
-- plugin/database/shadow.go: the store, the transactions whose handler writes a variable outside, and
-- the queries.
use baetyl_cloud.Common.{
  String, Bool, true, false, ◌&&◌, Option, none, some, List, [], ◌∷◌, ◌==◌, if◌then◌else◌, keep,
  mem,
}
use baetyl_cloud.Common.Action.{plain, Result, ok, err, panicked, Action, lift, ◌>>=◌}
use baetyl_cloud.Plugin.{Shadow}
use baetyl_cloud.Database.{Conn, statement, restore}
use baetyl_cloud.Database.Shadows.{ShadowRow, ShadowTable}

pub record Site (C : Type 0) : Type 0 where
  pub conn : Conn ShadowTable
  pub cache : C

module _ {A : Type 0} where
  abbrev pub on_conn : {C : Type 0} → Action (Conn ShadowTable) A → Action (Site C) A
  on_conn m s = let r = m s.conn in (r.0, record s { conn = r.1 })

  -- The end of a transaction whose handler writes a variable outside: its value is kept where the
  -- handler wrote it, also where the commit fails.
  abbrev pub captured :
      ShadowTable → Result A × Conn ShadowTable → Option A × (Result (Unit {0}) × Conn ShadowTable)
  captured old (ok a, c) = (some a, restore old (statement (λ t. (tt, t)) c))
  captured old (err e, c) = (none, restore old (err e, c))
  captured old (panicked, c) = (none, restore old (panicked, c))

  abbrev pub after_begin :
      ShadowTable
      → Action (Conn ShadowTable) A
      → Result (Unit {0}) × Conn ShadowTable
      → Option A × (Result (Unit {0}) × Conn ShadowTable)
  after_begin old handler (ok u, c) = captured old (handler c)
  after_begin old handler (err e, c) = (none, restore old (err e, c))
  after_begin old handler (panicked, c) = (none, restore old (panicked, c))

  -- Transact with such a handler.
  unfoldable pub transact_captured :
      Action (Conn ShadowTable) A
      → Conn ShadowTable
      → Option A × (Result (Unit {0}) × Conn ShadowTable)
  transact_captured handler c = after_begin c.tables handler (statement (λ t. (tt, t)) c)

abbrev pub joined : Option (Option Shadow) → Option Shadow
joined none = none
joined (some o) = o

abbrev pub is_empty : {A : Type 0} → List A → Bool
is_empty [] = true
is_empty (x ∷ xs) = false

-- NULL cannot be scanned into a text.
abbrev pub scanned : List ShadowRow → Result (List ShadowRow)
scanned rows =
    if is_empty (keep (λ (r : ShadowRow). r.has_null) rows)
    then ok rows
    else err (plain "converting NULL to string is unsupported")

-- SELECT ... WHERE
abbrev pub select : (ShadowRow → Bool) → Action (Conn ShadowTable) (List ShadowRow)
select p = statement (λ t. (keep p t.rows, t)) >>= λ rows. lift (scanned rows)

-- WHERE namespace = ? AND name IN (?)
abbrev pub is_among : String → List String → ShadowRow → Bool
is_among ns names r = r.namespace == ns && mem r.name names
