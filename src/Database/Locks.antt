-- ===== src/Database/Locks.antt =====
-- plugin/database/lock.go: named locks that expire. The result of a statement is the number of
-- rows that it changed; an expiry is an unsigned number of seconds, and the clock counts seconds.
pub mod Takeover
use baetyl_cloud.Common.{
  ℕ, suc, ◌+◌, String, Bool, true, false, not, ◌&&◌, ◌||◌, List, [], ◌∷◌, ◌++◌, ◌==◌, if◌then◌else◌,
  keep, length, ltb, nat_eq,
}
use baetyl_cloud.Common.Action.{
  Error, plain, coded, resource_not_found, Result, ok, err, panicked, Action, pure, raise, lift,
  ◌>>=◌, ◌>>◌,
}
use baetyl_cloud.Database.{Conn, statement}

-- models.Lock
pub record Lock : Type 0 where
  pub name : String
  pub version : String
  pub ttl : ℕ

-- A row of baetyl_lock.
pub record LockRow : Type 0 where
  pub id : ℕ
  pub name : String
  pub version : String
  pub expire : ℕ
  pub create_time : ℕ

-- The table; `unique` tells whether the schema makes the name a key.
pub record LockTable : Type 0 where
  pub rows : List LockRow
  pub next_id : ℕ
  pub clock : ℕ
  pub unique : Bool

abbrev pub is_named : String → LockRow → Bool
is_named name r = r.name == name

-- NOW() > DATE_ADD(create_time, INTERVAL expire SECOND)
abbrev pub is_expired : ℕ → LockRow → Bool
is_expired now r = ltb (r.create_time + r.expire) now

unfoldable pub has_name : String → List LockRow → Bool
has_name name [] = false
has_name name (r ∷ rs) = let rest = has_name name rs in if is_named name r then true else rest

abbrev pub row_of : Lock → LockTable → LockRow
row_of l t = record {
  id = t.next_id;
  name = l.name;
  version = l.version;
  expire = l.ttl;
  create_time = t.clock;
}

-- The statement of InsertLockTx.
unfoldable pub insert_lock_tx : Lock → LockTable → Result (Unit {0}) × LockTable
insert_lock_tx l t =
    if t.unique && has_name l.name t.rows
    then (err (plain "Duplicate entry"), t)
    else (ok tt, record t { rows = t.rows ++ row_of l t ∷ []; next_id = suc t.next_id })

-- InsertLock
unfoldable pub insert_lock : Lock → Action (Conn LockTable) (Unit {0})
insert_lock l = statement (insert_lock_tx l) >>= lift

-- How many rows pass a test.
unfoldable pub count : (LockRow → Bool) → List LockRow → ℕ
count p [] = 0
count p (r ∷ rs) = let rest = count p rs in if p r then suc rest else rest

-- A deletion that answers with the number of its rows.
unfoldable pub delete_rows : (LockRow → Bool) → LockTable → ℕ × LockTable
delete_rows p t = (count p t.rows, record t { rows = keep (λ r. not (p r)) t.rows })

abbrev pub one_row : String → ℕ → Action (Conn LockTable) (Unit {0})
one_row name n =
    if nat_eq n 1
    then pure tt
    else raise (coded resource_not_found (("type", "lock") ∷ ("name", name) ∷ []))

-- DeleteLock, with DeleteLockTx: only the version that was taken.
unfoldable pub delete_lock : Lock → Action (Conn LockTable) (Unit {0})
delete_lock l =
    statement (delete_rows (λ r. is_named l.name r && r.version == l.version)) >>= one_row l.name

-- DeleteExpiredLock, with DeleteExpiredLockTx
unfoldable pub delete_expired_lock : Lock → Action (Conn LockTable) (Unit {0})
delete_expired_lock l =
    statement (λ t. delete_rows (λ r. is_named l.name r && is_expired t.clock r) t)
    >>= one_row l.name
