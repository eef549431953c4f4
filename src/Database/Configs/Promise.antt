-- ===== src/Database/Configs/Promise.antt =====
-- An upsert of the configuration service over the configuration store: what is stored afterwards.
use mathlib.Core.Path.{subst}
use baetyl_cloud.Common.{
  ℕ, String, ◌≡◌, refl, sym, ap, ◌∙◌, Bool, true, false, some, if◌then◌else◌, distinct, arith,
  eq_iff,
}
use baetyl_cloud.Common.Action.{
  ok, Action, pure, lift, ◌>>=◌, Ensures, Ensures-pure, Ensures-bind, Ensures-attempt,
}
use baetyl_cloud.Common.Dict.{Dict}
use baetyl_cloud.Spec.{Configuration}
use baetyl_cloud.Service.Config as Services
use baetyl_cloud.Service.Config.{same_map, changed, upsert}
use baetyl_cloud.Database.{statement, statement-ok}
use baetyl_cloud.Database.Atomic.{IsAtomic, transact-IsAtomic}
use baetyl_cloud.Database.Keyed.{KeyLaws, find, insert, find-insert, find-update}
use baetyl_cloud.Database.Configs.{
  ConfigRow, ConfigConn, ConfigFormat, config_key, key, from_config_model, check_size, get_config,
  create_configuration_tx, create_and_get_config, create_config, update_configuration_tx,
  update_config, equal_config, config_plugin, write_row, written,
}
use baetyl_cloud.Service.Config.Maps.{keys}
use baetyl_cloud.Database.Configs.Found.{
  Reads, IsStored, Same, lift-Ensures, checked, Found, get_config-Found, Found-IsStored,
}

config_key-KeyLaws : (unique : Bool) → KeyLaws (config_key unique)
config_key-KeyLaws unique = record {
  namespace_of-stamp = λ i t r. refl;
  name_of-stamp = λ i t r. refl;
}

-- What a decoder has to do with its encoder: of a text that a map was encoded to, it gives a map
-- with the same entries, in whatever order.
abbrev pub IsRoundTrip : ConfigFormat → Type 0
IsRoundTrip format =
    (d : Dict String) (text : String)
    → distinct (keys d) ≡ true
    → format.encode d ≡ ok text
    → (e : Dict String) × (format.decode text ≡ ok e) × (same_map e d ≡ true)

-- The version of a row, or the time, is made without touching the tables.
abbrev pub IsBeside : {A : Type 0} → Action ConfigConn A → Type 0
IsBeside m = (s : ConfigConn) → (m s).1.tables ≡ s.tables

beside-Ensures :
    {A : Type 0} (m : Action ConfigConn A)
    → IsBeside m
    → (s : ConfigConn) → Ensures (λ _ t. Same s t) (m s)
beside-Ensures m h s a t e = ap (λ p. p.1.tables) (sym e) ∙ h s

module _ (format : ConfigFormat) (round : IsRoundTrip format) (unique : format.unique ≡ true)
    (gen_beside : IsBeside format.gen_version) (ns : String) (c : Configuration)
    (labels_apart : distinct (keys c.labels) ≡ true)
    (entries_apart : distinct (keys c.entries) ≡ true) where
  -- A row with the key and the encoded content of the configuration.
  abbrev Holds : ConfigRow → Type 0
  Holds r =
      (r.namespace ≡ ns)
      × (r.name ≡ c.name)
      × (format.encode c.labels ≡ ok r.labels)
      × (format.encode c.entries ≡ ok r.entries)
      × (r.description ≡ c.description)

  -- A row with the texts of one that holds the content.
  Holds-Reads :
      (r x : ConfigRow)
      → Holds r
      → x.labels ≡ r.labels
      → x.entries ≡ r.entries
      → x.description ≡ r.description
      → Reads format c x
  Holds-Reads r x (_, _, labels, entries, description) same_l same_e same_d =
      let (l, decoded_l, equal_l) = round c.labels r.labels labels_apart labels in
      let (e, decoded_e, equal_e) = round c.entries r.entries entries_apart entries in
      record {
        labels = l;
        entries = e;
        decoded_labels = ap format.decode same_l ∙ decoded_l;
        decoded_entries = ap format.decode same_e ∙ decoded_e;
        same_labels = equal_l;
        same_entries = equal_e;
        same_description = same_d ∙ description;
      }

  from_config_model-Holds :
      (s : ConfigConn) → Ensures (λ r t. Holds r × Same s t) (from_config_model format ns c s)
  unfolding from_config_model
  from_config_model-Holds s =
      let all : ConfigRow → ConfigConn → Type 0 = λ r t. Holds r × Same s t in
      Ensures-bind (λ text t. (format.encode c.labels ≡ ok text) × (t ≡ s)) all
        (lift (format.encode c.labels)) _ s (lift-Ensures (format.encode c.labels) s)
        λ labels s₁ (e, same₁).
          Ensures-bind (λ text t. (format.encode c.entries ≡ ok text) × (t ≡ s₁)) all
            (lift (format.encode c.entries)) _ s₁ (lift-Ensures (format.encode c.entries) s₁)
            λ entries s₂ (e', same₂).
              Ensures-bind (λ _ t. Same s₂ t) all (check_size format c entries) _ s₂
                (checked _ _ s₂)
                λ _ s₃ same₃.
                  Ensures-bind (λ _ t. Same s₃ t) all format.gen_version _ s₃
                    (beside-Ensures format.gen_version gen_beside s₃)
                    λ version s₄ same₄. Ensures-pure all _ s₄ (
                      (refl, refl, e, e', refl),
                      same₄ ∙ same₃ ∙ ap (λ x. x.tables) (same₂ ∙ same₁),
                    )

  inserted :
      (r : ConfigRow) (s t : ConfigConn)
      → Holds r
      → insert (key format) r s.tables ≡ (ok tt, t.tables)
      → IsStored format ns c t
  inserted r s t h e =
      let x : ConfigRow = record r {
        id = s.tables.next_id;
        create_time = s.tables.clock;
        update_time = s.tables.clock;
      } in
      (
        x,
        (rw (sym h.0, sym h.1)
            (find-insert (key format) (config_key-KeyLaws format.unique) r s.tables t.tables unique
              e)),
        Holds-Reads r x h refl refl refl,
      )

  create_configuration_tx-IsStored :
      (s : ConfigConn)
      → Ensures (λ _ t. IsStored format ns c t) (create_configuration_tx format ns c s)
  unfolding create_configuration_tx
  create_configuration_tx-IsStored s =
      let all : Unit {0} → ConfigConn → Type 0 = λ _ t. IsStored format ns c t in
      Ensures-bind (λ r t. Holds r × Same s t) all (from_config_model format ns c) _ s
        (from_config_model-Holds s)
        λ r s₁ (h, _).
          Ensures-bind (λ o t. insert (key format) r s₁.tables ≡ (o, t.tables)) all
            (statement (insert (key format) r)) _ s₁
            (λ o t e. statement-ok (insert (key format) r) s₁ e)
            λ o s₂ done u t e.
              let answered : o ≡ ok tt = ap (λ x. x.0) e in
              let last : s₂ ≡ t = ap (λ x. x.1) e in inserted r s₁ t h (rw (answered, last) at done)

  -- What is stored stays stored where the tables stay.
  moved : (s t : ConfigConn) → Same s t → IsStored format ns c s → IsStored format ns c t
  moved s t same (r, found, reads) =
      (r, ap (λ x. find (key format) ns c.name x.rows) same ∙ found, reads)

  create_and_get_config-IsStored :
      (s : ConfigConn)
      → Ensures (λ _ t. IsStored format ns c t) (create_and_get_config format ns c s)
  unfolding create_and_get_config
  create_and_get_config-IsStored s =
      Ensures-bind (λ _ t. IsStored format ns c t) (λ _ t. IsStored format ns c t)
        (create_configuration_tx format ns c) (λ _. get_config format ns c.name) s
        (create_configuration_tx-IsStored s)
        λ _ t stored m u e. moved t u (get_config-Found format ns c t m u e).1 stored

  create_config-IsStored :
      (in_tx : Bool) (s : ConfigConn)
      → Ensures (λ _ t. IsStored format ns c t) (create_config format in_tx ns c s)
  unfolding create_config
  create_config-IsStored true s = create_and_get_config-IsStored s
  create_config-IsStored false s = λ m t e.
      let (b, d, _, answered, same) =
        subst (IsAtomic (create_and_get_config format ns c) s) e
          (transact-IsAtomic (create_and_get_config format ns c) s) in
      moved d t same (create_and_get_config-IsStored b m d answered)

  update_configuration_tx-IsStored :
      (old : ConfigRow) (s : ConfigConn)
      → find (key format) ns c.name s.tables.rows ≡ some old
      → Ensures (λ _ t. IsStored format ns c t) (update_configuration_tx format ns c s)
  unfolding update_configuration_tx
  update_configuration_tx-IsStored old s found =
      let all : Configuration → ConfigConn → Type 0 = λ _ t. IsStored format ns c t in
      Ensures-bind (λ r t. Holds r × Same s t) all (from_config_model format ns c) _ s
        (from_config_model-Holds s)
        λ r s₁ (h, same).
          Ensures-bind (λ _ t. IsStored format ns c t) all (write_row format r) _ s₁
            (λ _ t e.
              let rows = sym (ap (λ p. p.1.rows) (statement-ok _ s₁ e)) in
              (
                written format r old,
                ap (find (key format) ns c.name) rows
                    ∙ rw (h.0, h.1)
                        (find-update (key format) ns c.name (written format r) s₁.tables.rows old
                          (λ x. refl) (ap (λ x. find (key format) ns c.name x.rows) same ∙ found)),
                Holds-Reads r (written format r old) h refl refl refl,
              ))
            λ _ s₂ stored. Ensures-pure all (record c { version = r.version }) s₂ stored

  unless_equal :
      (b : Bool) (m : Configuration) (s t : ConfigConn)
      → Found format ns c m s
      → Same s t
      → equal_config m c ≡ b
      → Ensures
          (λ _ u. IsStored format ns c u)
          ((if b
              then pure (record c { version = m.version })
              else update_configuration_tx format ns c)
            t)
  unfolding equal_config
  unless_equal true m s t f same e =
      Ensures-pure (λ (_ : Configuration) u. IsStored format ns c u)
        (record c { version = m.version }) t
        (Found-IsStored format ns c m s t f same (ground arith) (ground arith)
          ((eq_iff m.description c.description).0 (ground arith)))
  unless_equal false m s t f same e =
      update_configuration_tx-IsStored f.row t
        (ap (λ x. find (key format) ns c.name x.rows) same ∙ f.found)

  update_config-IsStored :
      (s : ConfigConn) → Ensures (λ _ t. IsStored format ns c t) (update_config format ns c s)
  unfolding update_config
  update_config-IsStored s =
      Ensures-bind (λ m t. Found format ns c m s × Same s t) (λ _ t. IsStored format ns c t)
        (get_config format ns c.name) _ s (get_config-Found format ns c s)
        λ m t (f, same). unless_equal (equal_config m c) m s t f same refl

module _ (format : ConfigFormat) (round : IsRoundTrip format) (unique : format.unique ≡ true)
    (gen_beside : IsBeside format.gen_version) (now : Action ConfigConn ℕ) (in_tx : Bool)
    (ns : String) (c : Configuration) (labels_apart : distinct (keys c.labels) ≡ true)
    (entries_apart : distinct (keys c.entries) ≡ true) where
  abbrev restamped : Configuration → ℕ → Configuration
  restamped old time = record c { version = old.version; update_timestamp = time }

  -- The version and the time of a configuration do not count.
  as_asked :
      (old : Configuration) (time : ℕ) (t : ConfigConn)
      → IsStored format ns (restamped old time) t
      → IsStored format ns c t
  as_asked old time t (r, found, reads) = (
    r,
    found,
    record {
      labels = reads.labels;
      entries = reads.entries;
      decoded_labels = reads.decoded_labels;
      decoded_entries = reads.decoded_entries;
      same_labels = reads.same_labels;
      same_entries = reads.same_entries;
      same_description = reads.same_description;
    },
  )

  changed-IsStored :
      (b : Bool) (old : Configuration) (s t : ConfigConn)
      → Found format ns c old s
      → Same s t
      → Services.equal_config old c ≡ b
      → Ensures
          (λ (_ : Configuration) u. IsStored format ns c u)
          ((if b then pure old else (now >>= λ time. update_config format ns (restamped old time)))
            t)
  unfolding Services.equal_config
  changed-IsStored true old s t f same e =
      Ensures-pure (λ (_ : Configuration) u. IsStored format ns c u) old t
        (Found-IsStored format ns c old s t f same (ground arith) (ground arith)
          ((eq_iff old.description c.description).0 (ground arith)))
  changed-IsStored false old s t f same e =
      Ensures-bind (λ _ _. Unit {0}) (λ (_ : Configuration) u. IsStored format ns c u) now _ t
        (λ _ _ _. tt)
        λ time u _ m v e'. as_asked old time v (
          update_config-IsStored format round unique gen_beside ns (restamped old time) labels_apart
            entries_apart u m v e')

  -- Over the database, where the namespace and the name are a unique key, decoding gives back the
  -- entries that were encoded, and versions are made without touching the tables: after
  -- an upsert that answered of a configuration whose maps have no repeated keys, in a transaction
  -- or not, and whether it was there already, was updated or was created, the row at its
  -- key is decoded to the entries, the labels and the description that were asked for.
  pub upsert-IsStored :
      (a : Configuration) (s t : ConfigConn)
      → upsert (config_plugin format in_tx) now ns c s ≡ (ok a, t)
      → IsStored format ns c t
  unfolding upsert
  upsert-IsStored a s t e =
      Ensures-attempt {0, 0, 0} (λ (_ : Configuration) u. IsStored format ns c u)
        (get_config format ns c.name) (λ res. changed (config_plugin format in_tx) now ns res c)
        (λ _. create_config format in_tx ns c) s
        (λ old u e'.
          let (f, same) = get_config-Found format ns c s old u e' in
          changed-IsStored (Services.equal_config old c) old s u f same refl)
        (λ _ u _.
          create_config-IsStored format round unique gen_beside ns c labels_apart entries_apart
            in_tx u)
        a t e
