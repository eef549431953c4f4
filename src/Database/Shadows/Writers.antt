-- ===== src/Database/Shadows/Writers.antt =====
-- UpdateDesire: the version of a desire as an optimistic lock.
use baetyl_cloud.Common.{String, ◌≡◌, refl, sym, ap, ◌∙◌, false, List, [], ◌∷◌, arith, ◌==◌}
use baetyl_cloud.Common.Action.{ok, Action, lift, Ensures, Ensures-bind}
use baetyl_cloud.Plugin.{Shadow}
use baetyl_cloud.Database.{Conn, statement-ok}
use baetyl_cloud.Database.Shadows.{
  ShadowRow, ShadowTable, ShadowFormat, is_version, update_where, with_desire,
}
use baetyl_cloud.Database.Shadows.Queries.{Site}
use baetyl_cloud.Database.Shadows.Store.{update_shadow_desire_tx}

-- After an update that sets another version, none with the old one is left to update.
update_where-stale :
    (ns name old desire version meta desire' version' meta' : String) (rs : List ShadowRow)
    → (version == old) ≡ false
    → update_where
        (is_version ns name old)
        (with_desire desire' version' meta')
        (update_where (is_version ns name old) (with_desire desire version meta) rs)
      ≡ update_where (is_version ns name old) (with_desire desire version meta) rs
unfolding update_where
update_where-stale ns name old desire version meta desire' version' meta' [] h = refl
update_where-stale ns name old desire version meta desire' version' meta' (r ∷ rs) h =
    ground (arith, update_where-stale ns name old desire version meta desire' version' meta' rs)

-- A generated version is not the one in use, and its making leaves the tables.
abbrev pub IsFresh : Action (Conn ShadowTable) String → String → Type 0
IsFresh gen old =
    (s t : Conn ShadowTable) (v : String)
    → gen s ≡ (ok v, t)
    → ((v == old) ≡ false) × (t.tables ≡ s.tables)

module _ {C : Type 0} (format : ShadowFormat) (gen_version : Action (Conn ShadowTable) String)
    (on_set : Shadow → Action (Site C) (Unit {0}))
    (on_delete : String → String → Action (Site C) (Unit {0})) (ns name old : String)
    (fresh : IsFresh gen_version old) where
  -- What an update that answered wrote.
  record IsWritten (s t : Conn ShadowTable) : Type 0 where
    desire : String
    version : String
    meta : String
    other : (version == old) ≡ false
    written :
        t.tables.rows
        ≡ update_where (is_version ns name old) (with_desire desire version meta) s.tables.rows

  update_shadow_desire_tx-IsWritten :
      (sh : Shadow) (s : Conn ShadowTable)
      → sh.namespace ≡ ns
      → sh.name ≡ name
      → sh.desire_version ≡ old
      → Ensures
          (λ _ t. IsWritten s t)
          (update_shadow_desire_tx format gen_version on_set on_delete sh s)
  unfolding update_shadow_desire_tx
  update_shadow_desire_tx-IsWritten sh s is_ns is_name is_old =
      let all : Unit {0} → Conn ShadowTable → Type 0 = λ _ t. IsWritten s t in
      Ensures-bind (λ _ t. t ≡ s) all (lift (format.encode sh.desire)) _ s
        (λ _ t e. sym (ap (λ p. p.1) e))
        λ desire s₁ e₁.
          Ensures-bind (λ _ t. t ≡ s₁) all (lift (format.encode sh.desire_meta)) _ s₁
            (λ _ t e. sym (ap (λ p. p.1) e))
            λ meta s₂ e₂.
              Ensures-bind (λ v t. ((v == old) ≡ false) × (t.tables ≡ s₂.tables)) all gen_version _
                s₂ (λ v t e. fresh s₂ t v e)
                λ version s₃ (other, same) u t e.
                  let back : s₃.tables ≡ s.tables = same ∙ ap (λ x. x.tables) (e₂ ∙ e₁) in
                  let done = ap (λ p. p.1.rows) (statement-ok _ s₃ e) in
                  record {
                    desire = desire;
                    version = version;
                    meta = meta;
                    other = other;
                    written = sym (rw (back, is_ns, is_name, is_old) at done);
                  }

  -- Of two writers that read one version of a desire, the second to write changes no row, although
  -- both are answered without an error, where the versions that are generated are new ones.
  pub second_writer_lost :
      (a b : Shadow) (s t u : Conn ShadowTable)
      → a.namespace ≡ ns
      → a.name ≡ name
      → a.desire_version ≡ old
      → b.namespace ≡ ns
      → b.name ≡ name
      → b.desire_version ≡ old
      → update_shadow_desire_tx format gen_version on_set on_delete a s ≡ (ok tt, t)
      → update_shadow_desire_tx format gen_version on_set on_delete b t ≡ (ok tt, u)
      → u.tables.rows ≡ t.tables.rows
  second_writer_lost a b s t u ans aname aold bns bname bold e e' =
      let first = update_shadow_desire_tx-IsWritten a s ans aname aold tt t e in
      let second = update_shadow_desire_tx-IsWritten b t bns bname bold tt u e' in
      second.written
      ∙ ap
          (update_where (is_version ns name old)
            (with_desire second.desire second.version second.meta))
          first.written
      ∙ update_where-stale ns name old first.desire first.version first.meta second.desire
          second.version second.meta s.tables.rows first.other
      ∙ sym first.written
