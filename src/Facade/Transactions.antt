-- ===== src/Facade/Transactions.antt =====
-- The facade's transactions: what a failed operation leaves behind.
use baetyl_cloud.Common.{◌≡◌, refl, sym, ap, ◌∙◌, Bool, true, false, if◌then◌else◌}
use baetyl_cloud.Common.Action.{
  Error, Result, ok, err, panicked, Action, pure, and_then, ◌>>=◌, attempt, on_result,
}
use baetyl_cloud.Service.App.Names.{is_ok}
use baetyl_cloud.Facade.{TransactionFactory, finish, in_tx}

-- What the database promises: `rows` is what stands in it and `saved` is what stood there when
-- the open transaction began.
pub record TransactionLaws {S D : Type 0} (factory : TransactionFactory S) (rows saved : S → D)
    : Type 0 where
  pub begin_keeps : (s : S) → rows (factory.begin_tx s).1 ≡ rows s
  pub begin_saves : (s t : S) → factory.begin_tx s ≡ (ok tt, t) → saved t ≡ rows s
  pub rollback_restores : (s : S) → rows (factory.rollback s) ≡ saved s

module _ {S D : Type 0} (saved : S → D) where
  -- An action that leaves the open transaction's start as it is, however it ends.
  abbrev pub Preserves : {A : Type 0} → Action S A → Type 0
  Preserves m = (s : S) → saved (m s).1 ≡ saved s

  pub pure-Preserves : {A : Type 0} (a : A) → Preserves (pure a)
  pure-Preserves a s = refl

  pub and_then-Preserves :
      {A B : Type 0} (r : Result A × S) (f : A → Action S B)
      → ((a : A) → Preserves (f a))
      → saved (and_then r f).1 ≡ saved r.1
  and_then-Preserves (ok a, s) f h = h a s
  and_then-Preserves (err e, s) f h = refl
  and_then-Preserves (panicked, s) f h = refl

  pub bind-Preserves :
      {A B : Type 0} (m : Action S A) (f : A → Action S B)
      → Preserves m
      → ((a : A) → Preserves (f a))
      → Preserves (m >>= f)
  bind-Preserves m f hm hf s = and_then-Preserves (m s) f hf ∙ hm s

  on_result-Preserves :
      {A B : Type 0} (r : Result A × S) (f : A → Action S B) (g : Error → Action S B)
      → ((a : A) → Preserves (f a))
      → ((e : Error) → Preserves (g e))
      → saved (on_result r f g).1 ≡ saved r.1
  on_result-Preserves (ok a, s) f g hf hg = hf a s
  on_result-Preserves (err e, s) f g hf hg = hg e s
  on_result-Preserves (panicked, s) f g hf hg = refl

  pub attempt-Preserves :
      {A B : Type 0} (m : Action S A) (f : A → Action S B) (g : Error → Action S B)
      → Preserves m
      → ((a : A) → Preserves (f a))
      → ((e : Error) → Preserves (g e))
      → Preserves (attempt m f g)
  attempt-Preserves m f g hm hf hg s = on_result-Preserves (m s) f g hf hg ∙ hm s

  pub if-Preserves :
      {A : Type 0} (b : Bool) (m n : Action S A)
      → Preserves m
      → Preserves n
      → Preserves (if b then m else n)
  if-Preserves true m n hm hn = hm
  if-Preserves false m n hm hn = hn

module _ {S D : Type 0} (factory : TransactionFactory S) (rows saved : S → D)
    (laws : TransactionLaws factory rows saved) {A : Type 0} where
  finish-restores :
      (r : Result A × S)
      → is_ok (finish factory r).0 ≡ false
      → rows (finish factory r).1 ≡ saved r.1
  finish-restores (ok a, s) h = cc
  finish-restores (err e, s) h = laws.rollback_restores s
  finish-restores (panicked, s) h = laws.rollback_restores s

  begun-restores :
      (body : Action S A) (s : S) (r : Result (Unit {0}) × S)
      → Preserves saved body
      → factory.begin_tx s ≡ r
      → is_ok (and_then r (λ _ t. finish factory (body t))).0 ≡ false
      → rows (and_then r (λ _ t. finish factory (body t))).1 ≡ rows s
  begun-restores body s (ok tt, t) keeps e h =
      finish-restores (body t) h ∙ keeps t ∙ laws.begin_saves s t e
  begun-restores body s (err x, t) keeps e h = sym (ap (λ p. rows p.1) e) ∙ laws.begin_keeps s
  begun-restores body s (panicked, t) keeps e h = sym (ap (λ p. rows p.1) e) ∙ laws.begin_keeps s

  -- A transaction that fails restores the data, whatever its body did.
  pub in_tx-restores :
      (body : Action S A) (s : S)
      → Preserves saved body
      → is_ok (in_tx factory body s).0 ≡ false
      → rows (in_tx factory body s).1 ≡ rows s
  unfolding in_tx
  in_tx-restores body s keeps h = begun-restores body s (factory.begin_tx s) keeps refl h
