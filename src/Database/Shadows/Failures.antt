-- ===== src/Database/Shadows/Failures.antt =====
-- Create and UpdateReport: what becomes of an error of their transaction.
use baetyl_cloud.Common.{String, ◌≡◌, refl, ◌∙◌, Option, none, some}
use baetyl_cloud.Common.Action.{Error, Result, ok, err, panicked, Action, pure, and_then}
use baetyl_cloud.Plugin.{Shadow}
use baetyl_cloud.Database.{Conn}
use baetyl_cloud.Database.Shadows.{ShadowTable, ShadowFormat}
use baetyl_cloud.Database.Shadows.Queries.{Site, joined, transact_captured}
use baetyl_cloud.Database.Shadows.Store.{
  announce, announce_after, transact_and_announce, reported, update_report,
}

module _ {C : Type 0} (format : ShadowFormat) (gen_version : Action (Conn ShadowTable) String)
    (on_set : Shadow → Action (Site C) (Unit {0}))
    (on_delete : String → String → Action (Site C) (Unit {0})) where
  -- An error that a trigger answered with.
  abbrev pub IsTriggers : Error → Site C → Type 0
  IsTriggers e t = (sh : Shadow) × (u : Site C) × (on_set sh u ≡ (err e, t))

  triggered :
      (sh : Shadow) (u t : Site C) (e : Error) (r : Result (Unit {0}) × Site C)
      → on_set sh u ≡ r
      → and_then r (λ _. pure sh) ≡ (err e, t)
      → IsTriggers e t
  triggered sh u t e (ok v, w) h h' = cc h'
  triggered sh u t e (err x, w) h h' = (sh, u, h ∙ h'')
    where
      h'' : ◌≡◌ {A = Result (Unit {0}) × Site C} (err x, w) (err e, t)
      h'' = cc h'
  triggered sh u t e (panicked, w) h h' = cc h'

  announced :
      (sh : Option Shadow) (u t : Site C) (e : Error)
      → announce format gen_version on_set on_delete sh u ≡ (err e, t)
      → IsTriggers e t
  announced none u t e h = cc h
  announced (some sh) u t e h = triggered sh u t e (on_set sh u) refl h

  announced_after :
      (sh : Option Shadow) (r : Result (Unit {0}) × Conn ShadowTable) (s t : Site C) (e : Error)
      → announce_after format gen_version on_set on_delete sh r s ≡ (err e, t)
      → IsTriggers e t
  announced_after sh (ok u, c) s t e h = announced sh (record s { conn = c }) t e h
  announced_after sh (err x, c) s t e h = announced sh (record s { conn = c }) t e h
  announced_after sh (panicked, c) s t e h = cc h

  -- UpdateReport answers with no error but that of a trigger: an error of the database, in the
  -- update, in the read that follows or in the commit, is never what it answers with.
  pub update_report-error :
      (sh : Shadow) (s t : Site C) (e : Error)
      → update_report format gen_version on_set on_delete sh s ≡ (err e, t)
      → IsTriggers e t
  unfolding update_report transact_and_announce
  update_report-error sh s t e h =
      let r = transact_captured (reported format gen_version on_set on_delete sh) s.conn in
      announced_after (joined r.0) r.1 s t e h
