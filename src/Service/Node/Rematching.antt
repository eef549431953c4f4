-- ===== src/Service/Node/Rematching.antt =====
-- rematchApplicationsForNode: which applications a node is given.
use mathlib.Core.Path.{subst}
use baetyl_cloud.Common.{
  String, ◌≡◌, ◌≢◌, refl, sym, Bool, true, false, List, [], ◌∷◌, arith, eq_iff, if◌then◌else◌, ◌⊎◌,
  inl, inr, ◌↔◌,
}
use baetyl_cloud.Common.Action.{Result, ok, err, panicked}
use baetyl_cloud.Common.Dict.{Dict}
use baetyl_cloud.Spec.{Application, AppInfo, apps}
use baetyl_cloud.Spec.Desire.{DesireApi}
use baetyl_cloud.Service.Node.{
  Rematch, info_of, is_match, add_match, matches, rematch_infos, rematch_applications_for_node,
}

module _ {X : Type 0} where
  -- A value stands in a list.
  abbrev pub Occurs : X → List X → Type 0
  Occurs x [] = ⊥
  Occurs x (y ∷ ys) = (y ≡ x) ⊎ Occurs x ys

module _ (api : DesireApi) (labels : Dict String) where
  -- An application is for the labels: it has a selector, which the labels satisfy.
  abbrev pub IsFor : Application → Type 0
  IsFor a = (a.selector ≢ "") × (api.is_label_match a.selector labels ≡ ok true)

  is_match_iff : (r : Result Bool) → (is_match r ≡ true) ↔ (r ≡ ok true)
  is_match_iff (ok b) = (λ h. ground arith, λ h. ground arith)
  is_match_iff (err e) = (λ h. cc h, λ h. cc h)
  is_match_iff panicked = (λ h. cc h, λ h. cc h)

  matches_iff : (a : Application) → (matches api labels a ≡ true) ↔ IsFor a
  unfolding matches
  matches_iff a =
      let m = is_match_iff (api.is_label_match a.selector labels) in
      let e = eq_iff a.selector "" in
      (
        λ h. (λ is_empty. ground (arith, e.1 is_empty), m.0 (ground arith)),
        λ (some_selector, found). ground (arith, e, m.1 found),
      )

  -- What the loop collects in one of its lists.
  module _ {X : Type 0} (pick : Rematch → List X) (Q : Application → X → Type 0) where
    abbrev Source : List Application → X → Type 0
    Source all x = (a : Application) × Occurs a all × IsFor a × Q a x

    collected :
        ((b : Bool) (a : Application) (m : Rematch) (x : X)
          → Occurs x (pick (add_match b a m)) ↔ (((b ≡ true) × Q a x) ⊎ Occurs x (pick m)))
        → ((x : X) → Occurs x (pick (rematch_infos api [] labels)) → ⊥)
        → (all : List Application) (x : X)
        → Occurs x (pick (rematch_infos api all labels)) ↔ Source all x
    unfolding rematch_infos
    collected step none [] x = (λ h. absurd (none x h), λ (a, h, f, q). absurd h)
    collected step none (a ∷ rest) x =
        let ih = collected step none rest x in
        let here = step (matches api labels a) a (rematch_infos api rest labels) x in
        (λ h. out ih (here.0 h), λ s. here.1 (back ih s))
      where
        out :
            Occurs x (pick (rematch_infos api rest labels)) ↔ Source rest x
            → ((matches api labels a ≡ true) × Q a x)
              ⊎ Occurs x (pick (rematch_infos api rest labels))
            → Source (a ∷ rest) x
        out ih (inl (m, q)) = (a, inl refl, (matches_iff a).0 m, q)
        out ih (inr h) = let (w, o, f, q) = ih.0 h in (w, inr o, f, q)

        back :
            Occurs x (pick (rematch_infos api rest labels)) ↔ Source rest x
            → Source (a ∷ rest) x
            → ((matches api labels a ≡ true) × Q a x)
              ⊎ Occurs x (pick (rematch_infos api rest labels))
        back ih (w, inl e, is_for, q) =
            let (f, q') = subst (λ v. IsFor v × Q v x) (sym e) (is_for, q) in
            inl ((matches_iff a).1 f, q')
        back ih (w, inr o, f, q) = inr (ih.1 (w, o, f, q))

  abbrev pub infos_of : Bool → Rematch → List AppInfo
  infos_of false m = m.desire_apps
  infos_of true m = m.sys_apps

  -- The list that an application with the flag `s` is put in.
  put_info :
      (sys s : Bool) (i x : AppInfo) (n : String) (m : Rematch)
      → Occurs x (
          infos_of sys (
            if s
            then record m { sys_apps = i ∷ m.sys_apps; app_names = n ∷ m.app_names }
            else record m { desire_apps = i ∷ m.desire_apps; app_names = n ∷ m.app_names }))
        ↔ (((s ≡ sys) × (i ≡ x)) ⊎ Occurs x (infos_of sys m))
  put_info false false i x n m = (
    λ h. elim h [ inl e ↦ inl (refl, e) | inr o ↦ inr o ],
    λ h. elim h [ inl p ↦ inl p.1 | inr o ↦ inr o ],
  )
  put_info true true i x n m = (
    λ h. elim h [ inl e ↦ inl (refl, e) | inr o ↦ inr o ],
    λ h. elim h [ inl p ↦ inl p.1 | inr o ↦ inr o ],
  )
  put_info false true i x n m = (λ h. inr h, λ h. elim h [ inl p ↦ absurd (cc p.0) | inr o ↦ o ])
  put_info true false i x n m = (λ h. inr h, λ h. elim h [ inl p ↦ absurd (cc p.0) | inr o ↦ o ])

  infos-add_match :
      (sys b : Bool) (a : Application) (m : Rematch) (x : AppInfo)
      → Occurs x (infos_of sys (add_match b a m))
        ↔ (((b ≡ true) × ((a.system ≡ sys) × (info_of a ≡ x))) ⊎ Occurs x (infos_of sys m))
  infos-add_match sys false a m x =
      (λ h. inr h, λ h. elim h [ inl p ↦ absurd (cc p.0) | inr o ↦ o ])
  infos-add_match sys true a m x =
      let p = put_info sys a.system (info_of a) x a.name m in
      (
        λ h. elim (p.0 h) [ inl q ↦ inl (refl, q) | inr o ↦ inr o ],
        λ h. p.1 (elim h [ inl q ↦ inl q.1 | inr o ↦ inr o ]),
      )

  -- The name is put in front in both cases.
  put_name :
      (s : Bool) (m m' : Rematch) (n : String) (names : List String)
      → m.app_names ≡ n ∷ names
      → m'.app_names ≡ n ∷ names
      → (if s then m else m').app_names ≡ n ∷ names
  put_name true m m' n names h h' = h
  put_name false m m' n names h h' = h'

  names-add_match :
      (b : Bool) (a : Application) (m : Rematch) (x : String)
      → Occurs x (add_match b a m).app_names ↔ (((b ≡ true) × (a.name ≡ x)) ⊎ Occurs x m.app_names)
  names-add_match false a m x = (λ h. inr h, λ h. elim h [ inl p ↦ absurd (cc p.0) | inr o ↦ o ])
  names-add_match true a m x =
      let e =
        put_name a.system
          (record m { sys_apps = info_of a ∷ m.sys_apps; app_names = a.name ∷ m.app_names })
          (record m { desire_apps = info_of a ∷ m.desire_apps; app_names = a.name ∷ m.app_names })
          a.name m.app_names refl refl in
      (
        λ h. elim (subst (Occurs x) e h) [ inl q ↦ inl (refl, q) | inr o ↦ inr o ],
        λ h. subst (Occurs x) (sym e) (elim h [ inl q ↦ inl q.1 | inr o ↦ inr o ]),
      )

  -- The applications of a kind that are for the labels, as the desire holds them.
  abbrev pub IsDesired : List Application → Bool → AppInfo → Type 0
  IsDesired all sys x =
      (a : Application) × Occurs a all × IsFor a × ((a.system ≡ sys) × (info_of a ≡ x))

  no_infos : (sys : Bool) (x : AppInfo) → Occurs x (infos_of sys (rematch_infos api [] labels)) → ⊥
  unfolding rematch_infos
  no_infos false x h = h
  no_infos true x h = h

  infos_iff :
      (sys : Bool) (all : List Application) (x : AppInfo)
      → Occurs x (infos_of sys (rematch_infos api all labels)) ↔ IsDesired all sys x
  infos_iff sys =
      collected (infos_of sys) (λ a x. (a.system ≡ sys) × (info_of a ≡ x)) (infos-add_match sys)
        (no_infos sys)

  abbrev pub IsNamed : List Application → String → Type 0
  IsNamed all n = (a : Application) × Occurs a all × IsFor a × (a.name ≡ n)

  names_iff :
      (all : List Application) (n : String)
      → Occurs n (rematch_infos api all labels).app_names ↔ IsNamed all n
  unfolding rematch_infos
  names_iff = collected (λ m. m.app_names) (λ a n. a.name ≡ n) names-add_match (λ x h. h)

  -- A rematch takes exactly the applications that have a selector which the labels satisfy: the
  -- desire holds, under "apps", a name and a version if and only if they are those of such an application that
  -- is no system application, under "sysapps" likewise of one that is, and a name is among
  -- the names if and only if such an application has it.
  pub rematch_lem :
      (all : List Application) (x : AppInfo) (n : String)
      → (users : List AppInfo) × (systems : List AppInfo) × (names : List String)
        × (rematch_applications_for_node api all labels
            ≡ (("apps", apps users) ∷ ("sysapps", apps systems) ∷ [], names))
        × (Occurs x users ↔ IsDesired all false x)
        × (Occurs x systems ↔ IsDesired all true x)
        × (Occurs n names ↔ IsNamed all n)
  unfolding rematch_applications_for_node
  rematch_lem all x n =
      let m = rematch_infos api all labels in
      (
        m.desire_apps,
        m.sys_apps,
        m.app_names,
        refl,
        infos_iff false all x,
        infos_iff true all x,
        names_iff all n,
      )
