-- ===== src/Database/Locks/Takeover.antt =====
-- An expired lock can be taken over.
use baetyl_cloud.Common.{
  ℕ, suc, ◌≤◌, String, ◌≡◌, refl, false, not, ◌&&◌, List, [], ◌∷◌, ◌++◌, keep, arith,
}
use baetyl_cloud.Common.Action.{ok, ◌>>◌}
use baetyl_cloud.Database.Locks.{
  Lock, LockRow, LockTable, is_named, is_expired, has_name, row_of, insert_lock_tx, insert_lock,
  count, delete_rows, delete_expired_lock,
}

count-le :
    (name : String) (now : ℕ) (rs : List LockRow)
    → count (λ r. is_named name r && is_expired now r) rs ≤ count (is_named name) rs
unfolding count
count-le name now [] = omega arith
count-le name now (r ∷ rs) = ground (arith, count-le name now rs)

-- Where every row of a name has expired, none of them is left.
has_name-keep :
    (name : String) (now : ℕ) (rs : List LockRow)
    → count (λ r. is_named name r && is_expired now r) rs ≡ count (is_named name) rs
    → has_name name (keep (λ r. not (is_named name r && is_expired now r)) rs) ≡ false
unfolding count has_name
has_name-keep name now [] h = refl
has_name-keep name now (r ∷ rs) h = ground (arith, has_name-keep name now rs, count-le name now rs)

-- The table after the deletion and the insert.
abbrev pub taken : Lock → LockTable → LockTable
taken l t = record t {
  rows = keep (λ r. not (is_named l.name r && is_expired t.clock r)) t.rows ++ row_of l t ∷ [];
  next_id = suc t.next_id;
}

-- A lock that one row holds, which has expired, is free for any other owner: on a connection
-- without errors, deleting the expired lock and inserting one's own both succeed, and the row is
-- the new owner's.
pub delete_expired_lock-insert_lock :
    (l : Lock) (t : LockTable)
    → count (is_named l.name) t.rows ≡ 1
    → count (λ r. is_named l.name r && is_expired t.clock r) t.rows ≡ 1
    → (delete_expired_lock l >> insert_lock l) (record { faults = []; tables = t })
      ≡ (ok tt, record { faults = []; tables = taken l t })
unfolding delete_expired_lock insert_lock delete_rows insert_lock_tx
delete_expired_lock-insert_lock l t held expired =
    let free = has_name-keep l.name t.clock t.rows (ground (arith, held, expired)) in
    ground (arith, expired, free)
