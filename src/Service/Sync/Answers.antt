-- ===== src/Service/Sync/Answers.antt =====
-- service/sync.go: what the answers of the synchronisation hold.
use baetyl_cloud.Common.{
  String, ◌≡◌, refl, ap, Bool, true, false, ◌||◌, Option, none, some, List, [], ◌∷◌, ◌==◌,
  if◌then◌else◌, arith, eq_iff,
}
use baetyl_cloud.Common.Action.{ok, Action, pure, ◌>>=◌, Ensures, Ensures-pure, Ensures-bind}
use baetyl_cloud.Common.Dict.{Dict, lookup, lookup-insert}
use baetyl_cloud.Spec.{Value}
use baetyl_cloud.Spec.Desire.{DesireApi}
use baetyl_cloud.Service.Sync.{
  Kind, kind_application, kind_app, kind_configuration, kind_config, kind_secret, kind_other,
  ResourceInfo, Resource, an_app, a_config, a_secret, ResourceValue, SyncServices, copied,
  extract_comparing_report, resource_of, desire, of_kind, populated,
}

abbrev first_of : Bool → Option Value → Option Value → Option Value
first_of true (some v) o = some v
first_of true none o = o
first_of false r o = o

lookup-copied :
    (k : String) (report res : Dict Value) (j : String)
    → lookup j (copied k report res) ≡ first_of (k == j) (lookup j report) (lookup j res)
lookup-copied k report res j = by_entry (lookup k report) refl
  where
    by_entry :
        (o : Option Value)
        → lookup k report ≡ o
        → lookup j (copied k report res) ≡ first_of (k == j) (lookup j report) (lookup j res)
    by_entry none e = ground (arith, eq_iff k j, ap (λ x. x) e)
    by_entry (some v) e = ground (arith, eq_iff k j, lookup-insert k j v res, ap (λ x. x) e)

-- The report that is compared with the desire holds the applications, the system applications and
-- the node properties of the whole report, and nothing else.
pub lookup-extract_comparing_report :
    (report : Dict Value) (key : String)
    → lookup key (extract_comparing_report report) ≡ (
        if key == "apps" || (key == "sysapps" || key == "nodeprops")
        then lookup key report
        else none)
unfolding extract_comparing_report lookup
lookup-extract_comparing_report report key = ground (
  arith,
  lookup-copied "nodeprops" report (copied "sysapps" report (copied "apps" report [])) key,
  lookup-copied "sysapps" report (copied "apps" report []) key,
  lookup-copied "apps" report [] key,
  eq_iff key "apps",
  eq_iff key "sysapps",
  eq_iff key "nodeprops",
  eq_iff "apps" key,
  eq_iff "sysapps" key,
  eq_iff "nodeprops" key,
)

-- A value is of the kind that was asked for.
abbrev pub is_of : Kind → Resource → Bool
is_of kind_application (an_app a) = true
is_of kind_app (an_app a) = true
is_of kind_configuration (a_config c) = true
is_of kind_config (a_config c) = true
is_of kind_secret (a_secret s) = true
is_of _ _ = false

abbrev pub Answers : List ResourceInfo → List ResourceValue → Type 0
Answers [] [] = Unit
Answers (i ∷ is') (v ∷ vs) = (v.info ≡ i) × (is_of i.kind v.value ≡ true) × Answers is' vs
Answers _ _ = true ≡ false

module _ {S : Type 0} (api : DesireApi) (services : SyncServices S) (ns : String)
    (metadata : Dict String) where
  wrapped :
      {A : Type 0} (k : Kind) (m : Action S A) (f : A → Resource) (s : S)
      → ((a : A) → is_of k (f a) ≡ true)
      → Ensures (λ r _. is_of k r ≡ true) ((m >>= λ a. pure (f a)) s)
  wrapped k m f s h =
      Ensures-bind (λ _ _. Unit {0}) (λ r _. is_of k r ≡ true) m (λ a. pure (f a)) s (λ _ _ _. tt)
        λ a t _. Ensures-pure (λ r _. is_of k r ≡ true) (f a) t (h a)

  of_kind-Ensures :
      (name version : String) (k : Kind) (s : S)
      → Ensures (λ r _. is_of k r ≡ true) (of_kind api services ns metadata name version k s)
  of_kind-Ensures name version kind_application s =
      wrapped kind_application (services.app_get ns name version) an_app s (λ a. refl)
  of_kind-Ensures name version kind_app s =
      wrapped kind_app (services.app_get ns name version) an_app s (λ a. refl)
  of_kind-Ensures name version kind_configuration s =
      wrapped kind_configuration (populated api services ns name version metadata) a_config s
        (λ c. refl)
  of_kind-Ensures name version kind_config s =
      wrapped kind_config (populated api services ns name version metadata) a_config s (λ c. refl)
  of_kind-Ensures name version kind_secret s =
      wrapped kind_secret (services.secret_get ns name version) a_secret s (λ c. refl)
  of_kind-Ensures name version kind_other s = λ r t e. cc e

  desire-Answers :
      (is' : List ResourceInfo) (s : S)
      → Ensures (λ vs _. Answers is' vs) (desire api services ns metadata is' s)
  unfolding desire resource_of
  desire-Answers [] s = Ensures-pure (λ vs _. Answers [] vs) [] s tt
  desire-Answers (i ∷ is') s =
      Ensures-bind (λ r _. is_of i.kind r ≡ true) (λ vs _. Answers (i ∷ is') vs)
        (of_kind api services ns metadata i.name i.version i.kind) _ s
        (of_kind-Ensures i.name i.version i.kind s)
        λ r s₁ h.
          Ensures-bind (λ vs _. Answers is' vs) (λ vs _. Answers (i ∷ is') vs)
            (desire api services ns metadata is') _ s₁ (desire-Answers is' s₁)
            λ vs s₂ hs.
              Ensures-pure (λ vs _. Answers (i ∷ is') vs) (record { info = i; value = r } ∷ vs) s₂
                (refl, h, hs)

  -- A synchronisation that answered gives one value for each resource that was asked for, in the
  -- order of the questions, each of the kind that was asked.
  pub desire_lem :
      (is' : List ResourceInfo) (vs : List ResourceValue) (s t : S)
      → desire api services ns metadata is' s ≡ (ok vs, t)
      → Answers is' vs
  desire_lem is' vs s t e = desire-Answers is' s vs t e
