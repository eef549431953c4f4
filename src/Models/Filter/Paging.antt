-- ===== src/Models/Filter/Paging.antt =====
-- GetPagingParam and the slice that its callers take: a page of the list, as long as the product
-- of its number and size fits in an int.
use baetyl_cloud.Common.{
  ℕ, zero, suc, ◌+◌, ◌-◌, ◌*◌, ◌%◌, ◌≤◌, ◌<◌, ◌≡◌, refl, ap, sym, ◌∙◌, true, List, [], ◌∷◌, arith,
  if◌then◌else◌, length, take, drop,
}
use native.Mathlib.Decide.{dec_lt}
use baetyl_cloud.Common.Action.{Result, ok, panicked}
use baetyl_cloud.Models.Filter.{
  Filter, int_mod, int_half, int_lt, get_limit_number, get_limit_offset, clamped, get_paging_param,
  slice,
}

-- The page of a list that a filter asks for, as service/node.go takes it.
abbrev pub paged {ℓ} : {A : Type ℓ} → Filter → List A → Result (List A)
paged f xs = let (bounds, f') = get_paging_param f (length xs) in slice xs bounds.0 bounds.1

-- The page number that counts: one where none is given.
abbrev pub page_of : Filter → ℕ
page_of f = if int_lt 0 f.page_no then f.page_no else 1

module _ (f : Filter) (named : page_of f < int_half) where
  page_pos : 1 ≤ page_of f
  page_pos = ground arith

  page_pred : (page_of f + int_mod - 1) % int_mod ≡ page_of f - 1
  page_pred = omega (arith, page_pos)

  get_limit_offset_lem : (get_limit_offset f).0 ≡ (page_of f - 1) * f.page_size % int_mod
  unfolding get_limit_offset
  get_limit_offset_lem = ap (λ (p : ℕ). p * f.page_size % int_mod) page_pred

  page_again : (if int_lt 0 (page_of f) then page_of f else 1) ≡ page_of f
  page_again = ground arith

  offset_again :
      (get_limit_offset (get_limit_offset f).1).0 ≡ (page_of f - 1) * f.page_size % int_mod
  unfolding get_limit_offset
  offset_again = rw page_again (ap (λ (p : ℕ). p * f.page_size % int_mod) page_pred)

  size_again : get_limit_number (get_limit_offset (get_limit_offset f).1).1 ≡ f.page_size
  unfolding get_limit_number get_limit_offset
  size_again = refl

  -- The offset that both calls compute.
  abbrev offset : ℕ
  offset = (page_of f - 1) * f.page_size % int_mod

  bounds_lem :
      (len : ℕ)
      → int_lt 0 f.page_size ≡ true
      → (get_paging_param f len).0 ≡ clamped offset ((offset + f.page_size) % int_mod) len
  unfolding get_paging_param
  bounds_lem len h =
      let sized : int_lt 0 (get_limit_number f) ≡ true = unfold get_limit_number in h in
      rw (sized, size_again, get_limit_offset_lem, offset_again)

clamped_past : (q end len : ℕ) → len < q → end < int_half → q ≤ end → clamped q end len ≡ (0, 0)
unfolding clamped
clamped_past q end len h fits le = ground arith

clamped_last : (q end len : ℕ) → q ≤ len → len < end → end < int_half → clamped q end len ≡ (q, len)
unfolding clamped
clamped_last q end len h k fits = ground arith

clamped_full : (q end len : ℕ) → q ≤ end → end ≤ len → len < int_half → clamped q end len ≡ (q, end)
unfolding clamped
clamped_full q end len h k short = ground arith

clamped_negative :
    (q end len : ℕ)
    → int_half ≤ q
    → q ≤ end
    → end < int_mod
    → len < int_half
    → clamped q end len ≡ (q, end)
unfolding clamped
clamped_negative q end len h le fits short = ground arith

module _ {A : Type 0} where
  take_all : (n : ℕ) (xs : List A) → length xs ≤ n → take n xs ≡ xs
  take_all zero [] h = refl
  take_all (suc n) [] h = refl
  take_all zero (x ∷ xs) h = absurd (omega arith)
  take_all (suc n) (x ∷ xs) h = ap (λ r. x ∷ r) (take_all n xs (omega arith))

  drop_all : (n : ℕ) (xs : List A) → length xs ≤ n → drop n xs ≡ []
  drop_all zero [] h = refl
  drop_all (suc n) [] h = refl
  drop_all zero (x ∷ xs) h = absurd (omega arith)
  drop_all (suc n) (x ∷ xs) h = drop_all n xs (omega arith)

  length-drop : (n : ℕ) (xs : List A) → length (drop n xs) ≡ length xs - n
  length-drop zero xs = omega arith
  length-drop (suc n) [] = omega arith
  length-drop (suc n) (x ∷ xs) = omega (arith, length-drop n xs)

  slice_ok :
      (xs : List A) (start end : ℕ)
      → start ≤ end
      → end ≤ length xs
      → end < int_half
      → slice xs start end ≡ ok (take (end - start) (drop start xs))
  unfolding slice
  slice_ok xs start end h k l = ground arith

  slice_negative : (xs : List A) (start end : ℕ) → int_half ≤ start → slice xs start end ≡ panicked
  unfolding slice
  slice_negative xs start end h = ground arith

  -- Within the bounds of an int the clamped slice is a page.
  slice-clamped :
      (xs : List A) (q size : ℕ)
      → q + size < int_half
      → length xs < int_half
      → slice xs (clamped q (q + size) (length xs)).0 (clamped q (q + size) (length xs)).1
        ≡ ok (take size (drop q xs))
  slice-clamped xs q size fits short = elim (dec_lt (length xs) q) [
    | yes h ↦ rw (clamped_past q (q + size) (length xs) h fits (omega arith)) (
        slice_ok xs 0 0 (omega arith) (omega arith) (omega arith)
        ∙ sym (
            ap (λ ys. ok (take size ys)) (drop_all q xs (omega arith))
            ∙ ap ok (take_all size [] (omega arith))))
    | no h ↦ elim (dec_lt (length xs) (q + size)) [
      | yes k ↦ rw (clamped_last q (q + size) (length xs) (omega arith) k fits) (
          slice_ok xs q (length xs) (omega arith) (omega arith) short
          ∙ ap ok (
              take_all (length xs - q) (drop q xs) (omega (arith, length-drop q xs))
              ∙ sym (take_all size (drop q xs) (omega (arith, length-drop q xs)))))
      | no k ↦ rw (clamped_full q (q + size) (length xs) (omega arith) (omega arith) short) (
          slice_ok xs q (q + size) (omega arith) (omega arith) fits
          ∙ ap (λ n. ok (take n (drop q xs))) (omega arith))
    ]
  ]

  -- A filter with a positive size takes the page of its number, where that number, the end of the
  -- page and the length of the list are below the bound of an int: it does not panic, and gives as
  -- many entries as the size says, behind those of the pages before, as far as the list goes.
  pub paged_lem :
      (f : Filter) (xs : List A)
      → page_of f < int_half
      → 0 < f.page_size
      → (page_of f - 1) * f.page_size + f.page_size < int_half
      → length xs < int_half
      → paged f xs ≡ ok (take f.page_size (drop ((page_of f - 1) * f.page_size) xs))
  paged_lem f xs named sized fits short =
      let q : ℕ = (page_of f - 1) * f.page_size in
      let whole : q % int_mod ≡ q = omega arith in
      let end : (q + f.page_size) % int_mod ≡ q + f.page_size = omega arith in
      rw (bounds_lem f named (length xs) (ground arith))
        (rw (whole, end) (slice-clamped xs q f.page_size fits short))

  -- Where the page number, the positive size and the length of the list are ints, and the offset
  -- of the page is past the bound of an int while the page's end does not wrap around to zero, the
  -- slice of the list panics.
  pub paged_overflow :
      (f : Filter) (xs : List A)
      → page_of f < int_half
      → 0 < f.page_size
      → f.page_size < int_half
      → int_half ≤ (page_of f - 1) * f.page_size
      → (page_of f - 1) * f.page_size + f.page_size < int_mod
      → length xs < int_half
      → paged f xs ≡ panicked
  paged_overflow f xs named sized small wraps fits short =
      let q : ℕ = (page_of f - 1) * f.page_size in
      let whole : q % int_mod ≡ q = omega arith in
      let end : (q + f.page_size) % int_mod ≡ q + f.page_size = omega arith in
      rw (bounds_lem f named (length xs) (ground arith)) (
        rw (whole, end)
          (rw (clamped_negative q (q + f.page_size) (length xs) wraps (omega arith) fits short)
            (slice_negative xs q (q + f.page_size) wraps)))
