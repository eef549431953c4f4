-- ===== src/Models/Filter.antt =====
-- models/filter.go. Go's int has 64 bits: a word below 2 ^ 64 whose upper half stands for the
-- negative numbers. Sums and products wrap around.
pub mod Paging
use Prim.Native.String.{◌++◌ as str_append}
use baetyl_cloud.Common.{
  ℕ, zero, suc, ◌+◌, ◌-◌, ◌*◌, ◌%◌, ◌^◌, String, Bool, true, false, not, ◌&&◌, ◌||◌, List, [], ◌∷◌,
  ◌==◌, if◌then◌else◌, ltb, leb, nat_eq, length, take, drop, contains,
}
use baetyl_cloud.Common.Action.{Error, plain, Result, ok, err, panicked}

abbrev pub int_mod : ℕ
int_mod = 18446744073709551616

abbrev pub int_half : ℕ
int_half = 9223372036854775808

abbrev pub is_negative : ℕ → Bool
is_negative w = leb int_half w

-- The order of the words as integers.
abbrev pub int_lt : ℕ → ℕ → Bool
int_lt a b = ltb ((a + int_half) % int_mod) ((b + int_half) % int_mod)

pub record Filter : Type 0 where
  pub page_no : ℕ
  pub page_size : ℕ
  pub name : String

pub record NodeOptions : Type 0 where
  pub cluster : String
  pub ready : String
  pub create_sort : String

-- The part of ListOptions that the modelled code reads.
pub record ListOptions : Type 0 where
  pub filter : Filter
  pub node_options : NodeOptions
  pub keyword : String
  pub alias : String

-- GetLimitNumber
unfoldable pub get_limit_number : Filter → ℕ
get_limit_number f = f.page_size

-- GetLimitOffset, with the page number that it writes back.
unfoldable pub get_limit_offset : Filter → ℕ × Filter
get_limit_offset f =
    let page = if int_lt 0 f.page_no then f.page_no else 1 in
    ((page + int_mod - 1) % int_mod * f.page_size % int_mod, record f { page_no = page })

-- The common body of GetFuzzyName, GetFuzzyKeyword and GetFuzzyAlias.
abbrev fuzzy : String → String
fuzzy s =
    if s == "" then "%" else if not (contains s "%") then str_append "%" (str_append s "%") else s

-- GetFuzzyName
unfoldable pub get_fuzzy_name : Filter → String
get_fuzzy_name f = fuzzy f.name

-- GetFuzzyKeyword
unfoldable pub get_fuzzy_keyword : ListOptions → String
get_fuzzy_keyword l = fuzzy l.keyword

-- GetFuzzyAlias
unfoldable pub get_fuzzy_alias : ListOptions → String
get_fuzzy_alias l = fuzzy l.alias

-- The bounds cut to the length of the result.
unfoldable pub clamped : ℕ → ℕ → ℕ → ℕ × ℕ
clamped start end res_len =
    if int_lt res_len start then (0, 0) else (start, if int_lt res_len end then res_len else end)

-- GetPagingParam, with the filter that its calls leave.
unfoldable pub get_paging_param : Filter → ℕ → (ℕ × ℕ) × Filter
get_paging_param f res_len =
    if int_lt 0 (get_limit_number f)
    then (let (start, f₁) = get_limit_offset f in
        let (offset, f₂) = get_limit_offset f₁ in
        (clamped start ((offset + get_limit_number f₂) % int_mod) res_len, f₂))
    else ((0, res_len), f)

-- items[start:end]; the capacity is taken to be the length.
unfoldable pub slice {ℓ} : {A : Type ℓ} → List A → ℕ → ℕ → Result (List A)
slice xs start end =
    if is_negative start || is_negative end || ltb end start || ltb (length xs) end
    then panicked
    else ok (take (end - start) (drop start xs))

abbrev bad_value : String → Error
bad_value text = plain text

-- NodeOptionsCheck
unfoldable pub node_options_check : NodeOptions → Result (Unit {0})
node_options_check o =
    if not (o.ready == "")
      && not (o.ready == "online")
      && not (o.ready == "offline")
      && not (o.ready == "uninstall")
    then err (bad_value "filter node ready  value error ")
    else if not (o.cluster == "") && not (o.cluster == "cluster") && not (o.cluster == "single")
    then err (bad_value "filter node cluster  value error ")
    else if not (o.create_sort == "")
        && not (o.create_sort == "asc")
        && not (o.create_sort == "desc")
    then err (bad_value "filter node create sort  value error ")
    else ok tt
