-- ===== src/Database/Shadows/Batches.antt =====
-- ListShadowByNamesTx: the batches find what one query for all the names would.
use baetyl_cloud.Common.{
  ℕ, zero, suc, ◌+◌, ◌≤◌, String, ◌≡◌, refl, sym, ap, ◌∙◌, Bool, true, false, ◌&&◌, List, [], ◌∷◌,
  ◌++◌, arith, eq_iff, if◌then◌else◌, keep, keep-append, length-append, mem, mem-append, distinct,
  take, drop, length,
}
use baetyl_cloud.Common.Action.{plain, ok, err, Action, lift, Ensures, Ensures-pure, Ensures-bind}
use baetyl_cloud.Plugin.{Shadow}
use baetyl_cloud.Database.{Conn, statement, statement-ok}
use baetyl_cloud.Database.Shadows.{ShadowRow, ShadowTable, ShadowFormat}
use baetyl_cloud.Database.Shadows.Queries.{Site, select, scanned, is_among, is_empty}
use baetyl_cloud.Database.Shadows.Store.{list_batches, list_rows_by_names_tx}

not_both :
    (xs ys : List String) (x : String) → distinct (xs ++ ys) ≡ true → (mem x xs && mem x ys) ≡ false
not_both [] ys x d = refl
not_both (a ∷ xs) ys x d = ground (arith, not_both xs ys x, mem-append a xs ys, eq_iff a x)

distinct-append_right : (xs ys : List String) → distinct (xs ++ ys) ≡ true → distinct ys ≡ true
distinct-append_right [] ys d = d
distinct-append_right (x ∷ xs) ys d = distinct-append_right xs ys (ground arith)

take-append-drop : (n : ℕ) (xs : List String) → take n xs ++ drop n xs ≡ xs
take-append-drop zero xs = refl
take-append-drop (suc n) [] = refl
take-append-drop (suc n) (x ∷ xs) = ap (λ ys. x ∷ ys) (take-append-drop n xs)

length-drop : (n : ℕ) (xs : List String) → length (drop (suc n) xs) ≤ length xs
length-drop n [] = omega arith
length-drop zero (x ∷ xs) = omega arith
length-drop (suc n) (x ∷ xs) = omega (arith, length-drop n xs)

scanned-Ensures :
    (p : ShadowRow → Bool) (s t : Conn ShadowTable) (rows nulls : List ShadowRow)
    → (rows ≡ keep p s.tables.rows) × (t.tables ≡ s.tables)
    → Ensures
        (λ rows t. (rows ≡ keep p s.tables.rows) × (t.tables ≡ s.tables))
        (lift
          (if is_empty nulls
            then ok rows
            else err (plain "converting NULL to string is unsupported"))
          t)
scanned-Ensures p s t rows [] h =
    Ensures-pure (λ rows t. (rows ≡ keep p s.tables.rows) × (t.tables ≡ s.tables)) rows t h
scanned-Ensures p s t rows (x ∷ xs) h = λ r u e. cc e

-- A query that answers gives the rows that pass, and leaves the table.
select-Ensures :
    (p : ShadowRow → Bool) (s : Conn ShadowTable)
    → Ensures (λ rows t. (rows ≡ keep p s.tables.rows) × (t.tables ≡ s.tables)) (select p s)
select-Ensures p s =
    let all : List ShadowRow → Conn ShadowTable → Type 0 =
      λ rows t. (rows ≡ keep p s.tables.rows) × (t.tables ≡ s.tables) in
    Ensures-bind all all (statement (λ t. (keep p t.rows, t))) (λ rows. lift (scanned rows)) s
      (λ rows t e.
        let h = statement-ok (λ t. (keep p t.rows, t)) s e in
        (ap (λ x. x.0) (sym h), ap (λ x. x.1) (sym h)))
      λ rows t h. scanned-Ensures p s t rows (keep (λ r. r.has_null) rows) h

module _ (q : ShadowRow → Bool) (ns : String) where
  -- How many rows of these names pass `q`.
  abbrev pub found : List String → List ShadowRow → ℕ
  found names rows = length (keep q (keep (is_among ns names) rows))

  found-append :
      (xs ys : List String) (rows : List ShadowRow)
      → distinct (xs ++ ys) ≡ true
      → found (xs ++ ys) rows ≡ found xs rows + found ys rows
  found-append xs ys [] d = omega arith
  found-append xs ys (r ∷ rs) d =
      ground (arith, found-append xs ys rs, mem-append r.name xs ys, not_both xs ys r.name d)

  found-none : (rows : List ShadowRow) → found [] rows ≡ 0
  found-none [] = refl
  found-none (r ∷ rs) = ground (arith, found-none rs)

  shorter :
      (size : ℕ) (x : String) (xs : List String) (fuel : ℕ)
      → length (x ∷ xs) ≤ suc fuel
      → length (drop (suc size) (x ∷ xs)) ≤ fuel
  shorter zero x xs fuel h = omega arith
  shorter (suc size) x xs fuel h = omega (arith, length-drop size xs)

  summed :
      (rows rest : List ShadowRow) (first left names : List String) (s t : Conn ShadowTable)
      → rows ≡ keep (is_among ns first) s.tables.rows
      → t.tables ≡ s.tables
      → length (keep q rest) ≡ found left t.tables.rows
      → first ++ left ≡ names
      → distinct (first ++ left) ≡ true
      → length (keep q rows) + length (keep q rest) ≡ found names s.tables.rows
  summed rows rest first left names s t is_rows same is_rest whole apart =
      let head : length (keep q rows) ≡ found first s.tables.rows =
        ap (λ rs. length (keep q rs)) is_rows in
      let tail : length (keep q rest) ≡ found left s.tables.rows =
        is_rest ∙ ap (λ u. found left u.rows) same in
      let parts = found-append first left s.tables.rows apart in
      omega (arith, head, tail, parts) ∙ ap (λ ns. found ns s.tables.rows) whole

  module _ {C : Type 0} (format : ShadowFormat) (gen_version : Action (Conn ShadowTable) String)
      (on_set : Shadow → Action (Site C) (Unit {0}))
      (on_delete : String → String → Action (Site C) (Unit {0})) where
    list_batches-Ensures :
        (fuel size : ℕ) (names : List String) (s : Conn ShadowTable)
        → length names ≤ fuel
        → distinct names ≡ true
        → Ensures
            (λ rows _. length (keep q rows) ≡ found names s.tables.rows)
            (list_batches format gen_version on_set on_delete fuel (suc size) ns names s)
    unfolding list_batches
    list_batches-Ensures zero size [] s h d =
        Ensures-pure (λ rows (_ : Conn ShadowTable). length (keep q rows) ≡ found [] s.tables.rows)
          [] s (sym (found-none s.tables.rows))
    list_batches-Ensures zero size (x ∷ xs) s h d = absurd (omega arith)
    list_batches-Ensures (suc fuel) size [] s h d =
        Ensures-pure (λ rows (_ : Conn ShadowTable). length (keep q rows) ≡ found [] s.tables.rows)
          [] s (sym (found-none s.tables.rows))
    list_batches-Ensures (suc fuel) size (x ∷ xs) s h d =
        let names : List String = x ∷ xs in
        let first : List String = take (suc size) names in
        let left : List String = drop (suc size) names in
        let whole : first ++ left ≡ names = take-append-drop (suc size) names in
        let apart : distinct (first ++ left) ≡ true = ap distinct whole ∙ d in
        let all : List ShadowRow → Conn ShadowTable → Type 0 =
          λ rows _. length (keep q rows) ≡ found names s.tables.rows in
        Ensures-bind
          (λ rows t. (rows ≡ keep (is_among ns first) s.tables.rows) × (t.tables ≡ s.tables)) all
          (select (is_among ns first)) _ s (select-Ensures (is_among ns first) s)
          λ rows t (is_rows, same).
            Ensures-bind (λ rest _. length (keep q rest) ≡ found left t.tables.rows) all
              (list_batches format gen_version on_set on_delete fuel (suc size) ns left) _ t
              (list_batches-Ensures fuel size left t (shorter size x xs fuel h)
                (distinct-append_right first left apart))
              λ rest u is_rest. Ensures-pure all (rows ++ rest) u (
                ap length (keep-append q rows rest)
                ∙ length-append (keep q rows) (keep q rest)
                ∙ summed rows rest first left names s t is_rows same is_rest whole apart)

    -- Of distinct names, a listing in batches that answered finds as many rows of any kind as one
    -- query for all the names would find in the table.
    pub list_rows_by_names_tx-count :
        (names : List String) (rows : List ShadowRow) (s t : Conn ShadowTable)
        → distinct names ≡ true
        → list_rows_by_names_tx format gen_version on_set on_delete ns names s ≡ (ok rows, t)
        → length (keep q rows) ≡ length (keep q (keep (is_among ns names) s.tables.rows))
    unfolding list_rows_by_names_tx
    list_rows_by_names_tx-count names rows s t d e =
        list_batches-Ensures (length names) 199 names s (omega arith) d rows t e
