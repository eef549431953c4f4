-- ===== src/Service/Listing/Orders.antt =====
-- service/node.go: the orders in which nodes are listed.
use baetyl_cloud.Common.{
  ℕ, zero, suc, ◌+◌, ◌≤◌, String, ◌≡◌, refl, sym, ap, ◌∙◌, Bool, true, false, ◌&&◌, ◌||◌, List, [],
  ◌∷◌, ◌++◌, arith, nat_eq, length, keep, keep-append, length-append,
}
use baetyl_cloud.Common.Action.{ok, Ensures, Ensures-pure, Ensures-bind}
use baetyl_cloud.Common.Dict.{Dict}
use baetyl_cloud.Spec.{Node}
use baetyl_cloud.Service.Listing.{
  DataCache, Formats, ListingPlugin, init, swap_ends, reverse_nodes, is_ready, is_online, sorted_in,
  split_online, default_list_node,
}

module _ {ℓ} {A : Type ℓ} where
  abbrev pub reverse : List A → List A
  reverse [] = []
  reverse (x ∷ xs) = reverse xs ++ x ∷ []

  init-append : (y : A) (ys : List A) → (init y ys).0 ++ (init y ys).1 ∷ [] ≡ y ∷ ys
  init-append y [] = refl
  init-append y (z ∷ zs) = ap (λ xs. y ∷ xs) (init-append z zs)

  reverse-append_one : (xs : List A) (y : A) → reverse (xs ++ y ∷ []) ≡ y ∷ reverse xs
  reverse-append_one [] y = refl
  reverse-append_one (x ∷ xs) y = ap (λ zs. zs ++ x ∷ []) (reverse-append_one xs y)

  length-init : (y : A) (ys : List A) → length (init y ys).0 ≡ length ys
  length-init y [] = refl
  length-init y (z ∷ zs) = ap suc (length-init z zs)

  swap_ends-reverse : (n : ℕ) (xs : List A) → length xs ≤ n → swap_ends n xs ≡ reverse xs
  unfolding swap_ends
  swap_ends-reverse zero [] h = refl
  swap_ends-reverse zero (x ∷ xs) h = ground arith
  swap_ends-reverse (suc n) [] h = refl
  swap_ends-reverse (suc n) (x ∷ []) h = refl
  swap_ends-reverse (suc n) (x ∷ y ∷ ys) h =
      let mid : List A = (init y ys).0 in
      let rest : swap_ends n mid ≡ reverse mid =
        swap_ends-reverse n mid (omega (arith, length-init y ys)) in
      let whole : reverse (y ∷ ys) ≡ (init y ys).1 ∷ reverse mid =
        ap reverse (sym (init-append y ys)) ∙ reverse-append_one mid (init y ys).1 in
      rw rest (ap (λ zs. zs ++ x ∷ []) (sym whole))

  -- The loop that swaps the ends of a slice, on its whole length, reverses it.
  pub reverse_nodes-reverse : (xs : List A) → reverse_nodes xs ≡ reverse xs
  unfolding reverse_nodes
  reverse_nodes-reverse xs = swap_ends-reverse (length xs) xs (omega arith)

-- At any one instant, a node that ever reported passes the online filter or the offline filter;
-- one that never did passes the uninstall filter and not the offline filter.
is_ready-cover :
    (now reported deadline : ℕ)
    → (nat_eq reported 0 ≡ false
        → (is_ready "online" now reported deadline || is_ready "offline" now reported deadline)
          ≡ true)
      × (is_ready "uninstall" now reported deadline ≡ nat_eq reported 0)
      × ((is_ready "uninstall" now reported deadline && is_ready "offline" now reported deadline)
          ≡ false)
unfolding is_ready
is_ready-cover now reported deadline = ground arith

module _ {S : Type 0} (plugins : ListingPlugin S) (cache : DataCache S) (formats : Formats)
    (report_times : Dict String) (q : Node → Bool) where
  -- How many nodes pass `q`.
  abbrev pub count : List Node → ℕ
  count ns = length (keep q ns)

  count-sorted_in :
      (b : Bool) (n : Node) (r : List Node × List Node)
      → count (sorted_in b n r).0 + count (sorted_in b n r).1
        ≡ count (n ∷ []) + (count r.0 + count r.1)
  count-sorted_in true n r = ground arith
  count-sorted_in false n r = ground arith

  count-cons : (n : Node) (ns : List Node) → count (n ∷ ns) ≡ count (n ∷ []) + count ns
  count-cons n ns = ground arith

  split_online-count :
      (items : List Node) (s : S)
      → Ensures
          (λ r _. count r.0 + count r.1 ≡ count items)
          (split_online plugins cache formats report_times items s)
  unfolding split_online
  split_online-count [] s =
      Ensures-pure (λ (r : List Node × List Node) (_ : S). count r.0 + count r.1 ≡ 0) ([], []) s
        (omega arith)
  split_online-count (n ∷ ns) s =
      let all : List Node × List Node → S → Type 0 =
        λ r _. count r.0 + count r.1 ≡ count (n ∷ ns) in
      Ensures-bind (λ _ _. Unit {0}) all (is_online plugins cache formats report_times n) _ s
        (λ _ _ _. tt)
        λ b s₁ _.
          Ensures-bind (λ r _. count r.0 + count r.1 ≡ count ns) all
            (split_online plugins cache formats report_times ns) _ s₁ (split_online-count ns s₁)
            λ r s₂ h.
              Ensures-pure all (sorted_in b n r) s₂
                (count-sorted_in b n r ∙ ap (λ k. count (n ∷ []) + k) h ∙ sym (count-cons n ns))

  default_list_node-Ensures :
      (items : List Node) (s : S)
      → Ensures
          (λ res _. count res ≡ count items)
          (default_list_node plugins cache formats report_times items s)
  unfolding default_list_node
  default_list_node-Ensures items s =
      Ensures-bind (λ r _. count r.0 + count r.1 ≡ count items) (λ res _. count res ≡ count items)
        (split_online plugins cache formats report_times items) _ s (split_online-count items s)
        λ r s₁ h.
          Ensures-pure (λ res _. count res ≡ count items) (r.0 ++ r.1) s₁
            (ap length (keep-append q r.0 r.1) ∙ length-append (keep q r.0) (keep q r.1) ∙ h)

  -- The default order, whatever the clock and the report times say, only rearranges the nodes: of
  -- a listing that answered, as many nodes pass any test as before.
  pub default_list_node-count :
      (items res : List Node) (s t : S)
      → default_list_node plugins cache formats report_times items s ≡ (ok res, t)
      → length (keep q res) ≡ length (keep q items)
  default_list_node-count items res s t e = default_list_node-Ensures items s res t e
