-- ===== src/Tests/FilterTests.antt =====
-- models/filter.go at concrete lists.
use baetyl_cloud.Common.{ℕ, ◌≡◌, refl, [], ◌∷◌, arith}
use baetyl_cloud.Common.Action.{ok, panicked}
use baetyl_cloud.Models.Filter.{
  Filter, get_limit_number, get_limit_offset, clamped, get_paging_param, slice,
}
use baetyl_cloud.Models.Filter.Paging.{paged, paged_lem, paged_overflow}

abbrev second_page : Filter
second_page = record { page_no = 2; page_size = 2; name = "" }

paged_lem_example : paged {A = ℕ} second_page (1 ∷ 2 ∷ 3 ∷ []) ≡ ok (3 ∷ [])
paged_lem_example =
    paged_lem second_page (1 ∷ 2 ∷ 3 ∷ []) (omega arith) (omega arith) (omega arith) (omega arith)

abbrev far_page : Filter
far_page = record { page_no = 4611686018427387905; page_size = 2; name = "" }

paged_overflow_example : paged {A = ℕ} far_page (1 ∷ []) ≡ panicked
paged_overflow_example =
    paged_overflow far_page (1 ∷ []) (omega arith) (omega arith) (omega arith) (omega arith)
      (omega arith) (omega arith)

-- No page number is the first page, and a page behind the end is empty.
first_page_run :
    paged {A = ℕ} (record { page_no = 0; page_size = 2; name = "" }) (1 ∷ 2 ∷ 3 ∷ [])
    ≡ ok (1 ∷ 2 ∷ [])
unfolding get_limit_number get_limit_offset clamped get_paging_param slice
first_page_run = refl

past_end_run :
    paged {A = ℕ} (record { page_no = 9; page_size = 2; name = "" }) (1 ∷ 2 ∷ 3 ∷ []) ≡ ok []
unfolding get_limit_number get_limit_offset clamped get_paging_param slice
past_end_run = refl
