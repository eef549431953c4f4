-- ===== src/Database/Shadows/View.antt =====
-- The shadow table as a map from namespaces and names to rows, and what the conditions of its
-- statements come to on the map.
use baetyl_cloud.Common.{
  String, ◌≡◌, refl, ap, ◌∙◌, Bool, true, false, not, ◌&&◌, Option, none, some, List, [], ◌∷◌, ◌++◌,
  ◌==◌, eq_iff, if◌then◌else◌, arith, keep, Option-cases, inl, inr, is_some,
}
use baetyl_cloud.Common.Action.{ok}
use baetyl_cloud.Database.Shadows.{ShadowRow, ShadowTable, is_at, update_where, has_row, insert_row}

-- The first row at a key.
unfoldable pub row_at : String → String → List ShadowRow → Option ShadowRow
row_at ns name [] = none
row_at ns name (r ∷ rs) = let rest = row_at ns name rs in if is_at ns name r then some r else rest

-- A map from keys to rows, and a change of it at one key.
abbrev pub RowMap : Type 0
RowMap = String → String → Option ShadowRow

abbrev pub change : String → String → (Option ShadowRow → Option ShadowRow) → RowMap → RowMap
change ns name f m ns' name' = if ns == ns' && name == name' then f (m ns' name') else m ns' name'

abbrev pub or_new : ShadowRow → Option ShadowRow → Option ShadowRow
or_new r none = some r
or_new r (some old) = some old

abbrev pub on_row : (ShadowRow → ShadowRow) → Option ShadowRow → Option ShadowRow
on_row f none = none
on_row f (some r) = some (f r)

abbrev pub if_version : String → (ShadowRow → ShadowRow) → ShadowRow → ShadowRow
if_version old f r = if r.desire_version == old then f r else r

-- The row with its id and time.
abbrev pub stamped : ShadowTable → ShadowRow → ShadowRow
stamped t r = record r { id = t.next_id; create_time = t.clock }

has_row-row_at :
    (ns name : String) (rs : List ShadowRow) → has_row ns name rs ≡ is_some (row_at ns name rs)
unfolding has_row row_at
has_row-row_at ns name [] = refl
has_row-row_at ns name (r ∷ rs) = ground (arith, has_row-row_at ns name rs)

-- An update that keeps the key, as a change of the map.
row_at-update_where :
    (p : ShadowRow → Bool) (f : ShadowRow → ShadowRow) (ns name ns' name' : String)
    (rs : List ShadowRow)
    → ((r : ShadowRow) → ((f r).namespace ≡ r.namespace) × ((f r).name ≡ r.name))
    → ((r : ShadowRow) → is_at ns name r ≡ false → p r ≡ false)
    → row_at ns' name' (update_where p f rs)
      ≡ change ns name (on_row (λ r. if p r then f r else r)) (λ a b. row_at a b rs) ns' name'
unfolding row_at update_where has_row
row_at-update_where p f ns name ns' name' [] same apart = ground arith
row_at-update_where p f ns name ns' name' (r ∷ rs) same apart = ground (
  arith,
  row_at-update_where p f ns name ns' name' rs same apart,
  same r,
  apart r,
  eq_iff r.namespace ns,
  eq_iff r.name name,
  eq_iff r.namespace ns',
  eq_iff r.name name',
  eq_iff ns ns',
  eq_iff name name',
)

pub row_at-keep :
    (ns name ns' name' : String) (rs : List ShadowRow)
    → row_at ns' name' (keep (λ r. not (is_at ns name r)) rs)
      ≡ change ns name (λ _. none) (λ a b. row_at a b rs) ns' name'
unfolding row_at
row_at-keep ns name ns' name' [] = ground arith
row_at-keep ns name ns' name' (r ∷ rs) = ground (
  arith,
  row_at-keep ns name ns' name' rs,
  eq_iff r.namespace ns,
  eq_iff r.name name,
  eq_iff r.namespace ns',
  eq_iff r.name name',
  eq_iff ns ns',
  eq_iff name name',
)

row_at-append_one :
    (new : ShadowRow) (ns name : String) (rs : List ShadowRow)
    → row_at ns name (rs ++ new ∷ []) ≡ (
        if is_some (row_at ns name rs)
        then row_at ns name rs
        else if is_at ns name new
        then some new
        else none)
unfolding row_at
row_at-append_one new ns name [] = ground arith
row_at-append_one new ns name (r ∷ rs) = ground (arith, row_at-append_one new ns name rs)

row_at-insert_row :
    (r : ShadowRow) (t : ShadowTable) (ns name : String)
    → row_at ns name (insert_row r t).1.rows
      ≡ change r.namespace r.name (or_new (stamped t r)) (λ a b. row_at a b t.rows) ns name
unfolding insert_row
row_at-insert_row r t ns name = ground (
  arith,
  has_row-row_at r.namespace r.name t.rows,
  row_at-append_one (stamped t r) ns name t.rows,
  eq_iff r.namespace ns,
  eq_iff r.name name,
)

-- The row that is found at a key has that key.
is_at-row_at :
    (ns name : String) (rs : List ShadowRow) (r : ShadowRow)
    → row_at ns name rs ≡ some r
    → is_at ns name r ≡ true
unfolding row_at
is_at-row_at ns name [] r h = cc
is_at-row_at ns name (x ∷ rs) r h = ground (arith, is_at-row_at ns name rs r)

on_row-is_at :
    (f : ShadowRow → ShadowRow) (ns name : String) (rs : List ShadowRow) (p : ShadowRow → Bool)
    (g : ShadowRow → ShadowRow)
    → ((r : ShadowRow) → is_at ns name r ≡ true → (if p r then f r else r) ≡ g r)
    → on_row (λ r. if p r then f r else r) (row_at ns name rs) ≡ on_row g (row_at ns name rs)
on_row-is_at f ns name rs p g h = elim (Option-cases (row_at ns name rs)) [
  | inl e ↦ rw e refl
  | inr (r, e) ↦ rw e (ap some (h r (is_at-row_at ns name rs r e)))
]

change_cong :
    (ns name : String) (f g : Option ShadowRow → Option ShadowRow) (m : RowMap) (ns' name' : String)
    → f (m ns name) ≡ g (m ns name)
    → change ns name f m ns' name' ≡ change ns name g m ns' name'
change_cong ns name f g m ns' name' h = ground (arith, eq_iff ns ns', eq_iff name name')

-- An update that keeps the key, and does `g` to a row with the key.
pub row_at-update_at :
    (p : ShadowRow → Bool) (f g : ShadowRow → ShadowRow) (ns name ns' name' : String)
    (rs : List ShadowRow)
    → ((r : ShadowRow) → ((f r).namespace ≡ r.namespace) × ((f r).name ≡ r.name))
    → ((r : ShadowRow) → is_at ns name r ≡ false → p r ≡ false)
    → ((r : ShadowRow) → is_at ns name r ≡ true → (if p r then f r else r) ≡ g r)
    → row_at ns' name' (update_where p f rs)
      ≡ change ns name (on_row g) (λ a b. row_at a b rs) ns' name'
row_at-update_at p f g ns name ns' name' rs same apart h =
    row_at-update_where p f ns name ns' name' rs same apart
    ∙ change_cong ns name (on_row (λ r. if p r then f r else r)) (on_row g) (λ a b. row_at a b rs)
        ns' name' (on_row-is_at f ns name rs p g h)

-- An insert that is answered found no row at the key and added one.
pub row_at-inserted :
    (r : ShadowRow) (t u : ShadowTable) (ns name : String)
    → insert_row r t ≡ (ok tt, u)
    → ((if r.namespace == ns && r.name == name then row_at ns name t.rows else none) ≡ none)
      × (row_at ns name u.rows ≡ (
          if r.namespace == ns && r.name == name
          then some (stamped t r)
          else row_at ns name t.rows))
unfolding insert_row
row_at-inserted r t u ns name h = ground (
  arith,
  has_row-row_at r.namespace r.name t.rows,
  row_at-append_one (stamped t r) ns name t.rows,
  eq_iff r.namespace ns,
  eq_iff r.name name,
)
