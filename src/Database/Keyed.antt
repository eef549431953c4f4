-- ===== src/Database/Keyed.antt =====
-- What the tables of plugin/database share: rows with a namespace and a name, and the statements
-- on them. Whether the schema makes the two a unique key is a parameter of the tables.
use baetyl_cloud.Common.{
  ℕ, suc, String, ◌≡◌, sym, ap, ◌∙◌, Bool, true, false, not, ◌&&◌, Option, none, some, List, [],
  ◌∷◌, ◌++◌, ◌==◌, eq_refl, if◌then◌else◌, arith, keep, Option-cases, inl, inr,
}
use baetyl_cloud.Common.Action.{plain, Result, ok, err}

-- The rows, with the next id and the database's clock.
pub record Table (R : Type 0) : Type 0 where
  pub rows : List R
  pub next_id : ℕ
  pub clock : ℕ

-- How a row tells its key, and how the database sets its id and times.
pub record Key (R : Type 0) : Type 0 where
  pub namespace_of : R → String
  pub name_of : R → String
  pub stamp : ℕ → ℕ → R → R
  pub unique : Bool

-- Setting the id and the times leaves the key.
pub record KeyLaws {R : Type 0} (key : Key R) : Type 0 where
  pub namespace_of-stamp :
      (i t : ℕ) (r : R) → key.namespace_of (key.stamp i t r) ≡ key.namespace_of r
  pub name_of-stamp : (i t : ℕ) (r : R) → key.name_of (key.stamp i t r) ≡ key.name_of r

module _ {R : Type 0} (key : Key R) where
  -- WHERE namespace = ? AND name = ?
  abbrev pub is_at : String → String → R → Bool
  is_at ns name r = key.namespace_of r == ns && key.name_of r == name

  -- SELECT ... WHERE, of which the first row is taken.
  unfoldable pub find : String → String → List R → Option R
  find ns name [] = none
  find ns name (r ∷ rs) = let rest = find ns name rs in if is_at ns name r then some r else rest

  abbrev is_found : Option R → Bool
  is_found none = false
  is_found (some r) = true

  -- INSERT INTO
  unfoldable pub insert : R → Table R → Result (Unit {0}) × Table R
  insert r t =
      if key.unique && is_found (find (key.namespace_of r) (key.name_of r) t.rows)
      then (err (plain "Duplicate entry"), t)
      else (
        ok tt,
        record t { rows = t.rows ++ key.stamp t.next_id t.clock r ∷ []; next_id = suc t.next_id },
      )

  -- UPDATE ... WHERE namespace = ? AND name = ?
  unfoldable pub update : String → String → (R → R) → List R → List R
  update ns name f [] = []
  update ns name f (r ∷ rs) =
      let rest = update ns name f rs in (if is_at ns name r then f r else r) ∷ rest

  -- DELETE FROM ... WHERE namespace = ? AND name = ?
  abbrev pub delete : String → String → Table R → Table R
  delete ns name t = record t { rows = keep (λ r. not (is_at ns name r)) t.rows }

  find-append_one :
      (ns name : String) (new : R) (rs : List R)
      → find ns name rs ≡ none
      → is_at ns name new ≡ true
      → find ns name (rs ++ new ∷ []) ≡ some new
  unfolding find
  find-append_one ns name new [] h at = ground arith
  find-append_one ns name new (r ∷ rs) h at = ground (arith, find-append_one ns name new rs)

  -- An insert under a unique key that answers found no row at its key, and added one.
  insert-ok :
      (r : R) (t u : Table R)
      → key.unique ≡ true
      → insert r t ≡ (ok tt, u)
      → (find (key.namespace_of r) (key.name_of r) t.rows ≡ none)
        × (u.rows ≡ t.rows ++ key.stamp t.next_id t.clock r ∷ [])
  unfolding insert
  insert-ok r t u unique e =
      elim (Option-cases (find (key.namespace_of r) (key.name_of r) t.rows)) [
        | inl h ↦ (h, ap (λ x. x.1.rows) (sym (rw (h, unique) at e)))
        | inr (x, h) ↦ let e' = rw (h, unique) at e in cc e'
      ]

  module _ (laws : KeyLaws key) where
    -- A row that a unique key let in is the row at its key.
    pub find-insert :
        (r : R) (t u : Table R)
        → key.unique ≡ true
        → insert r t ≡ (ok tt, u)
        → find (key.namespace_of r) (key.name_of r) u.rows ≡ some (key.stamp t.next_id t.clock r)
    find-insert r t u unique e =
        let (absent, rows) = insert-ok r t u unique e in
        let at : is_at (key.namespace_of r) (key.name_of r) (key.stamp t.next_id t.clock r) ≡ true =
          ground (
            arith,
            laws.namespace_of-stamp t.next_id t.clock r,
            laws.name_of-stamp t.next_id t.clock r,
            eq_refl (key.namespace_of r),
            eq_refl (key.name_of r),
          ) in
        ap (find (key.namespace_of r) (key.name_of r)) rows
        ∙ find-append_one (key.namespace_of r) (key.name_of r) (key.stamp t.next_id t.clock r)
            t.rows absent at

  -- An update that keeps the key is read at its key.
  pub find-update :
      (ns name : String) (f : R → R) (rs : List R) (r : R)
      → ((x : R) → is_at ns name (f x) ≡ is_at ns name x)
      → find ns name rs ≡ some r
      → find ns name (update ns name f rs) ≡ some (f r)
  unfolding find update
  find-update ns name f [] r same h = cc h
  find-update ns name f (x ∷ rs) r same h = ground (arith, find-update ns name f rs r same, same x)
