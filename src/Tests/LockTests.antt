-- ===== src/Tests/LockTests.antt =====
-- Locks at a concrete table.
use baetyl_cloud.Common.{◌≡◌, refl, true, [], ◌∷◌}
use baetyl_cloud.Common.Action.{ok, ◌>>◌}
use baetyl_cloud.Database.Locks.{Lock, LockRow, LockTable, insert_lock, delete_expired_lock, count}
use baetyl_cloud.Database.Locks.Takeover.{taken, delete_expired_lock-insert_lock}

abbrev a_lock : Lock
a_lock = record { name = "cron"; version = "b"; ttl = 5 }

abbrev an_old_row : LockRow
an_old_row = record { id = 1; name = "cron"; version = "a"; expire = 5; create_time = 0 }

abbrev a_new_row : LockRow
a_new_row = record { id = 2; name = "task"; version = "a"; expire = 5; create_time = 6 }

abbrev lock_table : LockTable
lock_table = record { rows = an_old_row ∷ a_new_row ∷ []; next_id = 3; clock = 7; unique = true }

delete_expired_lock-insert_lock_example :
    (delete_expired_lock a_lock >> insert_lock a_lock) (record { faults = []; tables = lock_table })
    ≡ (ok tt, record { faults = []; tables = taken a_lock lock_table })
unfolding count
delete_expired_lock-insert_lock_example =
    delete_expired_lock-insert_lock a_lock lock_table refl refl
