-- ===== src/Common/Action.antt =====
-- Errors as values, and code that changes a store and may fail: common/error.go, common/message.go.
-- What was written before an error stays written, so the store comes back beside the error too.
use Prim.Native.String.{String}
use mathlib.Core.Path.{◌≡◌, refl, ap, subst₂}
use mathlib.Core.List.{List}

-- The codes that the modelled code raises.
pub data Code : Type 0 where
  resource_not_found app_name_conflict volume_not_found_when_mount request_param_invalid : Code
  license_quota node_not_ready volume_type resource_invisible resource_has_been_used : Code
  app_referenced_by_node data_too_large unknown : Code

-- `coded` is common.Error with its fields; `plain` is any other error, with its text.
pub data Error : Type 0 where
  coded : Code → List (String × String) → Error
  plain : String → Error

-- `panicked` is a run-time panic.
pub data Result {ℓ} (A : Type ℓ) : Type ℓ where
  ok : A → Result A
  err : Error → Result A
  panicked : Result A

abbrev value_or {ℓ} : {A : Type ℓ} → A → Result A → A
value_or d (ok a) = a
value_or d (err e) = d
value_or d panicked = d

pub ok-injective {ℓ} : {A : Type ℓ} {a b : A} → ok a ≡ ok b → a ≡ b
ok-injective {a} h = ap (value_or a) h

abbrev pub Action {ℓ} : Type ℓ → Type ℓ → Type ℓ
Action S A = S → Result A × S

module _ {ℓ} {S A : Type ℓ} where
  abbrev pub pure : A → Action S A
  pure a s = (ok a, s)

  abbrev pub raise : Error → Action S A
  raise e s = (err e, s)

  abbrev pub lift : Result A → Action S A
  lift r s = (r, s)

  abbrev pub panic : Action S A
  panic s = (panicked, s)

module _ {ℓ} {S A B : Type ℓ} where
  abbrev pub and_then : Result A × S → (A → Action S B) → Result B × S
  and_then (ok a, s) f = f a s
  and_then (err e, s) f = (err e, s)
  and_then (panicked, s) f = (panicked, s)

  infixl 5 ◌>>=◌ ◌>>◌
  abbrev pub ◌>>=◌ : Action S A → (A → Action S B) → Action S B
  ◌>>=◌ m f s = and_then (m s) f

  abbrev pub ◌>>◌ : Action S A → Action S B → Action S B
  m >> k = m >>= λ _. k

  -- Runs `m` and hands its error to `handler`.
  abbrev pub on_result : Result A × S → (A → Action S B) → (Error → Action S B) → Result B × S
  on_result (ok a, s) f g = f a s
  on_result (err e, s) f g = g e s
  on_result (panicked, s) f g = (panicked, s)

  -- `a, err := m; if err != nil { g } else { f }`
  abbrev pub attempt : Action S A → (A → Action S B) → (Error → Action S B) → Action S B
  attempt m f g s = on_result (m s) f g

  -- Inversion of a chain that returned.
  pub >>=-eq-ok :
      (m : Action S A) (f : A → Action S B) (s : S) {b : B} {t : S}
      → (m >>= f) s ≡ (ok b, t)
      → (a : A) × (u : S) × (m s ≡ (ok a, u)) × (f a u ≡ (ok b, t))
  >>=-eq-ok m f s h = go (m s) refl h
    where
      go :
          (r : Result A × S) {b : B} {t : S}
          → m s ≡ r
          → and_then r f ≡ (ok b, t)
          → (a : A) × (u : S) × (m s ≡ (ok a, u)) × (f a u ≡ (ok b, t))
      go (ok a, u) e h' = (a, u, e, h')
      go (err x, u) e h' = cc
      go (panicked, u) e h' = cc

module _ {ℓ κ} {S A : Type ℓ} where
  -- `P` holds of the value and the store of a run that returned.
  abbrev pub Ensures : (A → S → Type κ) → Result A × S → Type (ℓ ⊔ κ)
  Ensures P r = (a : A) (t : S) → r ≡ (ok a, t) → P a t

  pub Ensures-pure : (P : A → S → Type κ) (a : A) (s : S) → P a s → Ensures P (pure a s)
  Ensures-pure P a s h b t e = subst₂ P (ok-injective (ap (λ p. p.0) e)) (ap (λ p. p.1) e) h

module _ {ℓ κ μ} {S A B : Type ℓ} where
  -- The rule for a chain: what the first part ensures is given to the rest.
  pub Ensures-bind :
      (Q : A → S → Type κ) (P : B → S → Type μ) (m : Action S A) (f : A → Action S B) (s : S)
      → Ensures Q (m s)
      → ((a : A) (u : S) → Q a u → Ensures P (f a u))
      → Ensures P ((m >>= f) s)
  Ensures-bind Q P m f s hm hf b t e =
      let (a, u, first, rest) = >>=-eq-ok m f s e in hf a u (hm a u first) b t rest

  pub Ensures-attempt :
      (P : B → S → Type μ) (m : Action S A) (f : A → Action S B) (g : Error → Action S B) (s : S)
      → ((a : A) (u : S) → m s ≡ (ok a, u) → Ensures P (f a u))
      → ((x : Error) (u : S) → m s ≡ (err x, u) → Ensures P (g x u))
      → Ensures P (attempt m f g s)
  Ensures-attempt P m f g s hf hg = go (m s) refl
    where
      go : (r : Result A × S) → m s ≡ r → Ensures P (on_result r f g)
      go (ok a, u) e = hf a u e
      go (err x, u) e = hg x u e
      go (panicked, u) e = λ b t e'. cc e'
