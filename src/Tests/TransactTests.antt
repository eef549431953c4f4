-- ===== src/Tests/TransactTests.antt =====
-- plugin/database/db.go at a concrete handler.
use Prim.Native.Nat.{ℕ}
use baetyl_cloud.Common.{◌≡◌, refl, none, some, [], ◌∷◌}
use baetyl_cloud.Common.Action.{plain, err, Action, ◌>>◌}
use baetyl_cloud.Database.{Conn, statement, transact}
use baetyl_cloud.Database.Atomic.{IsAtomic, transact-IsAtomic}

abbrev set_to : ℕ → Action (Conn ℕ) (Unit {0})
set_to n = statement (λ t. (tt, n))

-- The second statement of the handler fails.
abbrev failing : Conn ℕ
failing = record { faults = none ∷ none ∷ some (plain "deadlock") ∷ []; tables = 7 }

transact-IsAtomic_example :
    IsAtomic (set_to 8 >> set_to 9) failing (transact (set_to 8 >> set_to 9) failing)
transact-IsAtomic_example = transact-IsAtomic (set_to 8 >> set_to 9) failing

rolled_back :
    transact (set_to 8 >> set_to 9) failing
    ≡ (err (plain "deadlock"), record { faults = []; tables = 7 })
unfolding transact
rolled_back = refl
