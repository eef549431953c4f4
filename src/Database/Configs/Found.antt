-- ===== src/Database/Configs/Found.antt =====
-- plugin/database/configuration.go: what a read of a configuration tells of the row at its key.
use baetyl_cloud.Common.{
  String, ◌≡◌, refl, sym, ap, ◌∙◌, Bool, true, false, Option, none, some, if◌then◌else◌,
}
use baetyl_cloud.Common.Action.{
  Error, Result, ok, pure, raise, lift, Ensures, Ensures-pure, Ensures-bind,
}
use baetyl_cloud.Common.Dict.{Dict}
use baetyl_cloud.Spec.{Configuration}
use baetyl_cloud.Service.Config.{same_map}
use baetyl_cloud.Database.{statement, statement-ok}
use baetyl_cloud.Database.Keyed.{Table, find}
use baetyl_cloud.Database.Configs.{
  ConfigRow, ConfigConn, ConfigFormat, key, to_config_model, model_of, get_config,
}

-- A row whose texts are decoded to the content of a configuration.
pub record Reads (format : ConfigFormat) (c : Configuration) (r : ConfigRow) : Type 0 where
  pub labels : Dict String
  pub entries : Dict String
  pub decoded_labels : format.decode r.labels ≡ ok labels
  pub decoded_entries : format.decode r.entries ≡ ok entries
  pub same_labels : same_map labels c.labels ≡ true
  pub same_entries : same_map entries c.entries ≡ true
  pub same_description : r.description ≡ c.description

-- The row at the key of a configuration has its content.
abbrev pub IsStored : ConfigFormat → String → Configuration → ConfigConn → Type 0
IsStored format ns c t =
    (r : ConfigRow) × (find (key format) ns c.name t.tables.rows ≡ some r) × Reads format c r

pub lift-Ensures :
    {A : Type 0} (r : Result A) (s : ConfigConn) → Ensures (λ a t. (r ≡ ok a) × (t ≡ s)) (lift r s)
lift-Ensures r s a t e = (ap (λ x. x.0) e, sym (ap (λ x. x.1) e))

-- The tables are those of before.
abbrev pub Same : ConfigConn → ConfigConn → Type 0
Same s t = t.tables ≡ s.tables

pub checked :
    (b : Bool) (x : Error) (s : ConfigConn)
    → Ensures (λ (_ : Unit {0}) t. Same s t) ((if b then pure tt else raise x) s)
checked true x s u t e = ap (λ p. p.1.tables) (sym e)
checked false x s u t e = cc e

module _ (format : ConfigFormat) (ns : String) (c : Configuration) where
  -- What a read of a configuration found.
  pub record Found (m : Configuration) (s : ConfigConn) : Type 0 where
    pub row : ConfigRow
    pub found : find (key format) ns c.name s.tables.rows ≡ some row
    pub labels : format.decode row.labels ≡ ok m.labels
    pub entries : format.decode row.entries ≡ ok m.entries
    pub description : row.description ≡ m.description

  to_config_model-Found :
      (r : ConfigRow) (s u : ConfigConn)
      → find (key format) ns c.name s.tables.rows ≡ some r
      → Ensures (λ m t. Found m s × (t ≡ u)) (to_config_model format r u)
  unfolding to_config_model
  to_config_model-Found r s u found =
      let all : Configuration → ConfigConn → Type 0 = λ m t. Found m s × (t ≡ u) in
      Ensures-bind (λ d t. (format.decode r.labels ≡ ok d) × (t ≡ u)) all
        (lift (format.decode r.labels)) _ u (lift-Ensures (format.decode r.labels) u)
        λ labels u₁ (is_labels, e₁).
          Ensures-bind (λ d t. (format.decode r.entries ≡ ok d) × (t ≡ u₁)) all
            (lift (format.decode r.entries)) _ u₁ (lift-Ensures (format.decode r.entries) u₁)
            λ entries u₂ (is_entries, e₂). Ensures-pure all _ u₂ (
              record {
                row = r;
                found = found;
                labels = is_labels;
                entries = is_entries;
                description = refl;
              },
              e₂ ∙ e₁,
            )

  model_of-Found :
      (o : Option ConfigRow) (s u : ConfigConn)
      → find (key format) ns c.name s.tables.rows ≡ o
      → Ensures (λ m t. Found m s × (t ≡ u)) (model_of format c.name o u)
  model_of-Found none s u found = λ m t e. cc e
  model_of-Found (some r) s u found = to_config_model-Found r s u found

  pub get_config-Found :
      (s : ConfigConn) → Ensures (λ m t. Found m s × Same s t) (get_config format ns c.name s)
  unfolding get_config
  get_config-Found s =
      let read : Table ConfigRow → Option ConfigRow × Table ConfigRow =
        λ t. (find (key format) ns c.name t.rows, t) in
      Ensures-bind (λ o t. (find (key format) ns c.name s.tables.rows ≡ o) × Same s t)
        (λ m t. Found m s × Same s t) (statement read) (model_of format c.name) s
        (λ o t e.
          let done = statement-ok read s e in (ap (λ x. x.0) done, sym (ap (λ x. x.1) done)))
        λ o u (is_o, same) m t e.
          let (found, last) = model_of-Found o s u is_o m t e in
          (found, ap (λ x. x.tables) last ∙ same)

  -- A configuration that was found and is equal is stored.
  pub Found-IsStored :
      (m : Configuration) (s t : ConfigConn)
      → Found m s
      → Same s t
      → same_map m.labels c.labels ≡ true
      → same_map m.entries c.entries ≡ true
      → m.description ≡ c.description
      → IsStored format ns c t
  Found-IsStored m s t f same labels entries description = (
    f.row,
    ap (λ x. find (key format) ns c.name x.rows) same ∙ f.found,
    record {
      labels = m.labels;
      entries = m.entries;
      decoded_labels = f.labels;
      decoded_entries = f.entries;
      same_labels = labels;
      same_entries = entries;
      same_description = f.description ∙ description;
    },
  )
