-- ===== src/Database/Atomic.antt =====
-- plugin/database/db.go: a transaction takes effect as a whole or not at all.
use baetyl_cloud.Common.{◌≡◌, refl, Option, none, some, List, [], ◌∷◌}
use baetyl_cloud.Common.Action.{Error, Result, ok, err, panicked, Action, and_then}
use baetyl_cloud.Database.{Conn, statement, restore, outcome, transact}

module _ {T A : Type 0} where
  -- What a transaction on `c` may answer: with `ok`, the tables that the handler left when it
  -- started with those of `c`; with an error or a panic, the tables of `c`.
  abbrev pub IsAtomic : Action (Conn T) A → Conn T → Result A × Conn T → Type 0
  IsAtomic h c (ok a, d) =
      (b : Conn T) × (e : Conn T) × (b.tables ≡ c.tables)
      × (h b ≡ (ok a, e))
      × (d.tables ≡ e.tables)
  IsAtomic h c (err x, d) = d.tables ≡ c.tables
  IsAtomic h c (panicked, d) = d.tables ≡ c.tables

  committed :
      (h : Action (Conn T) A) (c b e : Conn T) (a : A) (fs : List (Option Error))
      → b.tables ≡ c.tables
      → h b ≡ (ok a, e)
      → IsAtomic h c (restore c.tables (outcome fs (λ t. (a, t)) e))
  committed h c b e a [] p q = (b, e, p, q, refl)
  committed h c b e a (none ∷ rest) p q = (b, e, p, q, refl)
  committed h c b e a (some x ∷ rest) p q = refl

  handled :
      (h : Action (Conn T) A) (c b : Conn T) (r : Result A × Conn T)
      → b.tables ≡ c.tables
      → h b ≡ r
      → IsAtomic h c (restore c.tables (and_then r (λ a. statement (λ t. (a, t)))))
  handled h c b (ok a, e) p q = committed h c b e a e.faults p q
  handled h c b (err x, e) p q = refl
  handled h c b (panicked, e) p q = refl

  begun :
      (h : Action (Conn T) A) (c : Conn T) (fs : List (Option Error))
      → IsAtomic h c (
          restore c.tables (
            and_then
              (outcome {T = T} {A = Unit {0}} fs (λ t. (tt, t)) c)
              (λ _ d. and_then (h d) (λ a. statement (λ t. (a, t))))))
  begun h c [] =
      handled h c (record c { tables = c.tables }) (h (record c { tables = c.tables })) refl refl
  begun h c (none ∷ rest) =
      handled h c (record { faults = rest; tables = c.tables })
        (h (record { faults = rest; tables = c.tables })) refl refl
  begun h c (some x ∷ rest) = refl

  -- For every handler and every connection: where a transaction returns `ok a`, the handler,
  -- started on the tables that stood before, returned `ok a`, and the tables are those it left;
  -- where it returns an error or panics, whether in its start, in the handler or in its commit,
  -- the tables are those that stood before.
  pub transact-IsAtomic : (h : Action (Conn T) A) (c : Conn T) → IsAtomic h c (transact h c)
  unfolding transact
  transact-IsAtomic h c = begun h c c.faults
