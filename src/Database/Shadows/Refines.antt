-- ===== src/Database/Shadows/Refines.antt =====
-- plugin/database/shadow.go: the code of the four requests does what they mean.
use baetyl_cloud.Common.{
  String, ◌≡◌, refl, sym, ap, ◌∙◌, false, ◌&&◌, Option, ◌==◌, if◌then◌else◌, arith,
}
use baetyl_cloud.Common.Action.{Result, ok, Action, lift, Ensures, Ensures-bind}
use baetyl_cloud.Plugin.{Shadow}
use baetyl_cloud.Database.{Conn, statement, statement-ok}
use baetyl_cloud.Database.Shadows.{
  ShadowRow, ShadowTable, ShadowFormat, is_at, is_version, update_where, with_desire, with_report,
  insert_row, new_shadow_from_shadow_model,
}
use baetyl_cloud.Database.Shadows.Queries.{Site}
use baetyl_cloud.Database.Shadows.View.{
  row_at, on_row, if_version, row_at-update_at, row_at-keep, row_at-inserted,
}
use baetyl_cloud.Database.Shadows.Store.{
  create_shadow_tx, update_shadow_desire_tx, update_shadow_report_tx, delete_shadow_tx,
}
use baetyl_cloud.Database.Shadows.Requests.{
  Request, create, set_desire, set_report, remove, Created, Desired, Reported, Meant,
}

module _ {C : Type 0} (format : ShadowFormat) (gen_version : Action (Conn ShadowTable) String)
    (on_set : Shadow → Action (Site C) (Unit {0}))
    (on_delete : String → String → Action (Site C) (Unit {0})) where
  -- The code of a request.
  abbrev pub carry : Request → Action (Conn ShadowTable) (Unit {0})
  carry (create sh) = create_shadow_tx format gen_version on_set on_delete sh
  carry (set_desire sh) = update_shadow_desire_tx format gen_version on_set on_delete sh
  carry (set_report sh) = update_shadow_report_tx format gen_version on_set on_delete sh
  carry (remove ns name) = delete_shadow_tx format gen_version on_set on_delete ns name

  lift-Ensures :
      {A : Type 0} (r : Result A) (s : Conn ShadowTable)
      → Ensures (λ a t. (r ≡ ok a) × (t ≡ s)) (lift r s)
  lift-Ensures r s a t e = (ap (λ x. x.0) e, sym (ap (λ x. x.1) e))

  module _ (keeps : (s : Conn ShadowTable) → (gen_version s).1.tables ≡ s.tables)
      (ns name : String) where
    abbrev at : Conn ShadowTable → Option ShadowRow
    at s = row_at ns name s.tables.rows

    update_at_key :
        (f : ShadowRow → ShadowRow) (k n : String) (s t : Conn ShadowTable)
        → ((r : ShadowRow) → ((f r).namespace ≡ r.namespace) × ((f r).name ≡ r.name))
        → t.tables.rows ≡ update_where (is_at k n) f s.tables.rows
        → at t ≡ (if k == ns && n == name then on_row f (at s) else at s)
    update_at_key f k n s t same rows =
        ap (row_at ns name) rows
        ∙ row_at-update_at (is_at k n) f f k n ns name s.tables.rows same (λ _ h. h)
            (λ r h. rw h refl)

    update_at_version :
        (f : ShadowRow → ShadowRow) (k n old : String) (s t : Conn ShadowTable)
        → ((r : ShadowRow) → ((f r).namespace ≡ r.namespace) × ((f r).name ≡ r.name))
        → t.tables.rows ≡ update_where (is_version k n old) f s.tables.rows
        → at t ≡ (if k == ns && n == name then on_row (if_version old f) (at s) else at s)
    update_at_version f k n old s t same rows =
        ap (row_at ns name) rows
        ∙ row_at-update_at (is_version k n old) f (if_version old f) k n ns name s.tables.rows same
            (λ r h. rw h refl) (λ r h. rw h refl)

    set_report-Reported :
        (sh : Shadow) (s : Conn ShadowTable)
        → Ensures
            (λ _ t. Reported format sh ns name (at s) (at t))
            (update_shadow_report_tx format gen_version on_set on_delete sh s)
    unfolding update_shadow_report_tx
    set_report-Reported sh s =
        let all : Unit {0} → Conn ShadowTable → Type 0 =
          λ _ t. Reported format sh ns name (at s) (at t) in
        Ensures-bind (λ a t. (format.encode sh.report ≡ ok a) × (t ≡ s)) all
          (lift (format.encode sh.report)) _ s (lift-Ensures (format.encode sh.report) s)
          λ report s₁ (is_report, e₁).
            Ensures-bind (λ a t. (format.encode sh.report_meta ≡ ok a) × (t ≡ s₁)) all
              (lift (format.encode sh.report_meta)) _ s₁
              (lift-Ensures (format.encode sh.report_meta) s₁)
              λ meta s₂ (is_meta, e₂) u t e.
                let rows = sym (ap (λ p. p.1.rows) (statement-ok _ s₂ e)) in
                record {
                  report = report;
                  meta = meta;
                  report_text = is_report;
                  meta_text = is_meta;
                  written = rw (e₂ ∙ e₁) at (
                      update_at_key (with_report report meta) sh.namespace sh.name s₂ t
                        (λ _. (refl, refl)) rows);
                }

    set_desire-Desired :
        (sh : Shadow) (s : Conn ShadowTable)
        → Ensures
            (λ _ t. Desired format gen_version sh ns name (at s) (at t))
            (update_shadow_desire_tx format gen_version on_set on_delete sh s)
    unfolding update_shadow_desire_tx
    set_desire-Desired sh s =
        let all : Unit {0} → Conn ShadowTable → Type 0 =
          λ _ t. Desired format gen_version sh ns name (at s) (at t) in
        Ensures-bind (λ a t. (format.encode sh.desire ≡ ok a) × (t ≡ s)) all
          (lift (format.encode sh.desire)) _ s (lift-Ensures (format.encode sh.desire) s)
          λ desire s₁ (is_desire, e₁).
            Ensures-bind (λ a t. (format.encode sh.desire_meta ≡ ok a) × (t ≡ s₁)) all
              (lift (format.encode sh.desire_meta)) _ s₁
              (lift-Ensures (format.encode sh.desire_meta) s₁)
              λ meta s₂ (is_meta, e₂).
                Ensures-bind (λ v t. gen_version s₂ ≡ (ok v, t)) all gen_version _ s₂ (λ v t e. e)
                  λ version s₃ made u t e.
                    let back : at s₃ ≡ at s =
                      ap (λ (x : ShadowTable). row_at ns name x.rows)
                        (sym (ap (λ p. p.1.tables) made)
                          ∙ keeps s₂
                          ∙ ap (λ x. x.tables) (e₂ ∙ e₁)) in
                    let rows = sym (ap (λ p. p.1.rows) (statement-ok _ s₃ e)) in
                    record {
                      desire = desire;
                      version = version;
                      meta = meta;
                      desire_text = is_desire;
                      meta_text = is_meta;
                      before = s₂;
                      then_conn = s₃;
                      generated = made;
                      written = rw back at (
                          update_at_version (with_desire desire version meta) sh.namespace sh.name
                            sh.desire_version s₃ t (λ _. (refl, refl)) rows);
                    }

    abbrev IsEncoded : Shadow → ShadowRow → Type 0
    IsEncoded sh r =
        (format.encode sh.report ≡ ok r.report)
        × (format.encode sh.desire ≡ ok r.desire)
        × (format.encode sh.report_meta ≡ ok r.report_meta)
        × (format.encode sh.desire_meta ≡ ok r.desire_meta)
        × (r.namespace ≡ sh.namespace)
        × (r.name ≡ sh.name)
        × (r.desire_version ≡ "")
        × (r.has_null ≡ false)

    encoded :
        (sh : Shadow) (s : Conn ShadowTable)
        → Ensures (λ r t. IsEncoded sh r × (t ≡ s)) (new_shadow_from_shadow_model format sh s)
    unfolding new_shadow_from_shadow_model
    encoded sh s = λ r t e. ground arith

    added_row :
        (sh : Shadow) (r : ShadowRow) (s t : Conn ShadowTable)
        → IsEncoded sh r
        → insert_row r s.tables ≡ (ok tt, t.tables)
        → Created format sh s.tables ns name (at s) (at t)
    added_row sh r s t (report, desire, report_meta, desire_meta, ns', name', version, null) e =
        let found = row_at-inserted r s.tables t.tables ns name e in
        record {
          report = r.report;
          desire = r.desire;
          report_meta = r.report_meta;
          desire_meta = r.desire_meta;
          report_text = report;
          desire_text = desire;
          report_meta_text = report_meta;
          desire_meta_text = desire_meta;
          vacant = rw (ns', name') at found.0;
          added = rw (ns', name', version, null) at found.1;
        }

    create-Created :
        (sh : Shadow) (s : Conn ShadowTable)
        → Ensures
            (λ _ t. Created format sh s.tables ns name (at s) (at t))
            (create_shadow_tx format gen_version on_set on_delete sh s)
    unfolding create_shadow_tx
    create-Created sh s =
        let all : Unit {0} → Conn ShadowTable → Type 0 =
          λ _ t. Created format sh s.tables ns name (at s) (at t) in
        Ensures-bind (λ r t. IsEncoded sh r × (t ≡ s)) all (new_shadow_from_shadow_model format sh)
          _ s (encoded sh s)
          λ r s₁ (is_row, same).
            Ensures-bind (λ o t. insert_row r s₁.tables ≡ (o, t.tables)) all
              (statement (insert_row r)) _ s₁ (λ o t e. statement-ok (insert_row r) s₁ e)
              λ o s₂ done u t e.
                let answered : o ≡ ok tt = ap (λ x. x.0) e in
                let last : s₂ ≡ t = ap (λ x. x.1) e in
                added_row sh r s t is_row (rw (answered, last, same) at done)

    carry-Ensures :
        (c : Request) (s : Conn ShadowTable)
        → Ensures (λ _ t. Meant format gen_version c s.tables ns name (at s) (at t)) (carry c s)
    unfolding delete_shadow_tx
    carry-Ensures (create sh) s = create-Created sh s
    carry-Ensures (set_desire sh) s = set_desire-Desired sh s
    carry-Ensures (set_report sh) s = set_report-Reported sh s
    carry-Ensures (remove k n) s = λ u t e.
        ap (row_at ns name) (sym (ap (λ p. p.1.rows) (statement-ok _ s e)))
        ∙ row_at-keep k n ns name s.tables.rows

    -- Where a version is generated without touching the tables, each of the four requests that is
    -- answered changes the table, read as a map from keys to rows, as the request is meant: a
    -- creation finds no row at its key and adds the encoded one, a desire replaces three columns of
    -- the row at its key if that has the version that was read, a report replaces two columns, a
    -- deletion removes the row, and every other key keeps its row.
    pub carry-Meant :
        (c : Request) (s t : Conn ShadowTable)
        → carry c s ≡ (ok tt, t)
        → Meant format gen_version c s.tables ns name (at s) (at t)
    carry-Meant c s t e = carry-Ensures c s tt t e
