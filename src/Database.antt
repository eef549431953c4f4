-- ===== src/Database.antt =====
-- The connection of plugin/database/db.go. Every statement takes the next entry of `faults`: the
-- error that the server answers with, or `none` where the statement runs. After the last entry
-- no statement fails. A connection outside a transaction commits each statement at once.
pub mod Atomic
pub mod Index
pub mod Tasks
pub mod Shadows
pub mod Keyed
pub mod Configs
pub mod Locks
pub mod Nodes
pub mod Apps
pub mod Secrets
pub mod Modules
use baetyl_cloud.Common.{◌≡◌, Option, none, some, List, [], ◌∷◌}
use baetyl_cloud.Common.Action.{Error, Result, ok, err, panicked, Action, and_then}

pub record Conn (T : Type 0) : Type 0 where
  pub faults : List (Option Error)
  pub tables : T

module _ {T A : Type 0} where
  abbrev pub outcome : List (Option Error) → (T → A × T) → Action (Conn T) A
  outcome [] f c = let (a, t) = f c.tables in (ok a, record c { tables = t })
  outcome (none ∷ rest) f c =
      let (a, t) = f c.tables in (ok a, record { faults = rest; tables = t })
  outcome (some e ∷ rest) f c = (err e, record c { faults = rest })

  -- Exec and Query: one statement, which changes the tables and answers.
  abbrev pub statement : (T → A × T) → Action (Conn T) A
  statement f c = outcome c.faults f c

  -- Leaves the old tables, unless the handler and the commit went well.
  abbrev pub restore : T → Result A × Conn T → Result A × Conn T
  restore old (ok a, c) = (ok a, c)
  restore old (err e, c) = (err e, record c { tables = old })
  restore old (panicked, c) = (panicked, record c { tables = old })

module _ {T A : Type 0} where
  -- Transact: begin, run, then commit; an error or a panic of the handler rolls back.
  unfoldable pub transact : Action (Conn T) A → Action (Conn T) A
  transact handler c =
      let begin = statement {T = T} {A = Unit {0}} (λ t. (tt, t)) c in
      restore c.tables (and_then begin (λ _ d. and_then (handler d) (λ a. statement (λ t. (a, t)))))

module _ {T A : Type 0} where
  outcome-ok :
      (fs : List (Option Error)) (f : T → A × T) (c : Conn T) {a : A} {d : Conn T}
      → outcome fs f c ≡ (ok a, d)
      → f c.tables ≡ (a, d.tables)
  outcome-ok [] f c h = cc
  outcome-ok (none ∷ rest) f c h = cc
  outcome-ok (some e ∷ rest) f c h = cc

  -- A statement that answers has done what it says.
  pub statement-ok :
      (f : T → A × T) (c : Conn T) {a : A} {d : Conn T}
      → statement f c ≡ (ok a, d)
      → f c.tables ≡ (a, d.tables)
  statement-ok f c h = outcome-ok c.faults f c h
