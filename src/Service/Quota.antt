-- ===== src/Service/Quota.antt =====
-- service/quota.go. Counts and limits are Go ints, words of 64 bits; a nil map is `none`.
use baetyl_cloud.Common.{
  ℕ, String, ◌≡◌, refl, Bool, true, not, ◌&&◌, ◌||◌, Option, none, some, [], ◌∷◌, nat_eq,
  if◌then◌else◌, arith,
}
use baetyl_cloud.Common.Action.{coded, license_quota, Result, ok, err, Action, lift, ◌>>=◌}
use baetyl_cloud.Common.Dict.{Dict, lookup}
use baetyl_cloud.Models.Filter.{int_lt}
use baetyl_cloud.Service.App.Names.{is_ok}

-- limits[k], which is zero for a missing key.
abbrev or_zero : Option ℕ → ℕ
or_zero none = 0
or_zero (some n) = n

-- The loop of CheckQuota; the limit in the error is left out.
unfoldable pub check_counts : Dict ℕ → Dict ℕ → Result (Unit {0})
check_counts limits [] = ok tt
check_counts limits ((k, v) ∷ counts) =
    let rest = check_counts limits counts in
    if not (nat_eq (or_zero (lookup k limits)) 0) && not (int_lt v (or_zero (lookup k limits)))
    then err (coded license_quota (("name", k) ∷ []))
    else rest

abbrev check_both : Option (Dict ℕ) → Option (Dict ℕ) → Result (Unit {0})
check_both none limits = ok tt
check_both (some counts) none = ok tt
check_both (some counts) (some limits) = check_counts limits counts

-- CheckQuota
unfoldable pub check_quota :
    {S : Type 0}
    → (String → Action S (Option (Dict ℕ)))
    → (String → Action S (Option (Dict ℕ)))
    → String
    → Action S (Unit {0})
check_quota get_quota collector ns = do
  limits ← get_quota ns
  counts ← collector ns
  lift (check_both counts limits)

-- Every count is below its limit, where it has one other than zero.
abbrev pub within : Dict ℕ → Dict ℕ → Bool
within limits [] = true
within limits ((k, v) ∷ counts) =
    (nat_eq (or_zero (lookup k limits)) 0 || int_lt v (or_zero (lookup k limits)))
    && within limits counts

-- The loop lets counts pass exactly if each is below its limit or has none, whatever the order in
-- which the map is walked.
pub is_ok-check_counts :
    (limits counts : Dict ℕ) → is_ok (check_counts limits counts) ≡ within limits counts
unfolding check_counts
is_ok-check_counts limits [] = refl
is_ok-check_counts limits ((k, v) ∷ counts) = ground (arith, is_ok-check_counts limits counts)
