-- ===== src/Service/App/Indexes.antt =====
-- After Update the index relates the application to the configs and secrets that it mounts.
use mathlib.Core.Path.{subst}
use baetyl_cloud.Common.{String, ◌≡◌, refl, ap, ◌∙◌, Option, none, some, List, [], ◌∷◌, ◌++◌}
use baetyl_cloud.Common.Action.{Action, ok, pure, lift, Ensures, Ensures-pure, Ensures-bind, ◌>>◌}
use baetyl_cloud.Spec.{ObjectReference, Volume, Application}
use baetyl_cloud.Database.Index.{Resource, application, config, secret}
use baetyl_cloud.Plugin.{ConfigPlugin, SecretPlugin, AppPlugin, IndexPlugin}
use baetyl_cloud.Plugin.Contract.{IndexContract, Keeps}
use baetyl_cloud.Service.Index.{refresh_config_index_by_app, refresh_secret_index_by_app}
use baetyl_cloud.Service.App.{
  Gathered, with_volume, latest_config, latest_secret, get_configs_and_secrets, valid_name, update,
}

abbrev name_of : Option ObjectReference → List String
name_of none = []
name_of (some r) = r.name ∷ []

-- The configs and the secrets that an application mounts.
abbrev pub config_names : List Volume → List String
config_names [] = []
config_names (v ∷ vs) = name_of v.config ++ config_names vs

abbrev pub secret_names : List Volume → List String
secret_names [] = []
secret_names (v ∷ vs) = name_of v.secret ++ secret_names vs

module _ {S : Type 0} (configs : ConfigPlugin S) (secrets : SecretPlugin S) (apps : AppPlugin S)
    (index : IndexPlugin S) (rand_string : Action S String) (Right : S → Type 0)
    (related : S → String → Resource → Resource → String → List String)
    (contract : IndexContract index Right related)
    (config_keeps : (ns name v : String) → Keeps Right (configs.get_config ns name v))
    (secret_keeps : (ns name v : String) → Keeps Right (secrets.get_secret ns name v))
    (app_keeps : (ns : String) (a : Application) → Keeps Right (apps.update_application ns a)) where
  abbrev get_latest_config :
      String → Option ObjectReference → Action S (Option ObjectReference × List String)
  get_latest_config = latest_config configs secrets apps index rand_string

  abbrev get_latest_secret :
      String → Option ObjectReference → Action S (Option ObjectReference × List String)
  get_latest_secret = latest_secret configs secrets apps index rand_string

  abbrev gather : String → List Volume → Action S Gathered
  gather = get_configs_and_secrets configs secrets apps index rand_string

  abbrev Names : Option ObjectReference → Option ObjectReference × List String → S → Type 0
  Names r x t = Right t × (x.1 ≡ name_of r)

  kept :
      {A : Type 0} (m : Action S A)
      → Keeps Right m
      → (s : S) → Right s
      → Ensures (λ _ t. Right t) (m s)
  kept m keeps s h a t e = subst Right (ap (λ p. p.1) e) (keeps s h)

  latest_config-Names :
      (ns : String) (r : Option ObjectReference) (s : S)
      → Right s
      → Ensures (Names r) (get_latest_config ns r s)
  unfolding latest_config
  latest_config-Names ns none s h = Ensures-pure (Names none) (none, []) s (h, refl)
  latest_config-Names ns (some r) s h =
      Ensures-bind (λ _ t. Right t) (Names (some r)) (configs.get_config ns r.name "") _ s
        (kept (configs.get_config ns r.name "") (config_keeps ns r.name "") s h)
        λ c u right. Ensures-pure (Names (some r)) _ u (right, refl)

  latest_secret-Names :
      (ns : String) (r : Option ObjectReference) (s : S)
      → Right s
      → Ensures (Names r) (get_latest_secret ns r s)
  unfolding latest_secret
  latest_secret-Names ns none s h = Ensures-pure (Names none) (none, []) s (h, refl)
  latest_secret-Names ns (some r) s h =
      Ensures-bind (λ _ t. Right t) (Names (some r)) (secrets.get_secret ns r.name "") _ s
        (kept (secrets.get_secret ns r.name "") (secret_keeps ns r.name "") s h)
        λ c u right. Ensures-pure (Names (some r)) _ u (right, refl)

  abbrev Gathers : List Volume → Gathered → S → Type 0
  Gathers vs g t = Right t × (g.configs ≡ config_names vs) × (g.secrets ≡ secret_names vs)

  -- What is gathered is what the volumes mount.
  get_configs_and_secrets-Gathers :
      (ns : String) (vs : List Volume) (s : S) → Right s → Ensures (Gathers vs) (gather ns vs s)
  unfolding get_configs_and_secrets
  get_configs_and_secrets-Gathers ns [] s h = Ensures-pure (Gathers []) _ s (h, refl, refl)
  get_configs_and_secrets-Gathers ns (v ∷ vs) s h =
      let all = Gathers (v ∷ vs) in
      Ensures-bind (Names v.config) all (get_latest_config ns v.config) _ s
        (latest_config-Names ns v.config s h)
        λ c s₁ n₁.
          Ensures-bind (Names v.secret) all (get_latest_secret ns v.secret) _ s₁
            (latest_secret-Names ns v.secret s₁ n₁.0)
            λ x s₂ n₂.
              Ensures-bind (Gathers vs) all (gather ns vs) _ s₂
                (get_configs_and_secrets-Gathers ns vs s₂ n₂.0)
                λ g s₃ n₃.
                  Ensures-pure all (with_volume (record v { config = c.0; secret = x.0 }) c.1 x.1 g)
                    s₃ (n₃.0, cc (n₁.1, n₃.1), cc (n₂.1, n₃.2))

  -- What a successful update says of its application and of the index.
  abbrev Related : String → Application → Application → S → Type 0
  Related ns a b t =
      (valid_name a ≡ ok tt)
      × (related t ns config application b.name ≡ config_names a.volumes)
      × (related t ns secret application b.name ≡ secret_names a.volumes)

  refresh-Related :
      (ns : String) (a b : Application) (g : Gathered) (s : S)
      → valid_name a ≡ ok tt
      → Gathers a.volumes g s
      → Ensures (Related ns a) (
          (refresh_config_index_by_app index ns b.name g.configs
              >> (refresh_secret_index_by_app index ns b.name g.secrets >> pure b))
            s)
  unfolding refresh_config_index_by_app refresh_secret_index_by_app
  refresh-Related ns a b g s valid (h, all_configs, all_secrets) =
      Ensures-bind (λ _ t. Right t × (related t ns config application b.name ≡ g.configs))
        (Related ns a) (index.refresh ns application config b.name g.configs) _ s
        (λ _ t e. contract.refreshed ns application config b.name g.configs s (λ p. cc p) h e)
        λ _ s₁ (h₁, is_config).
          Ensures-bind (λ _ t. Related ns a b t) (Related ns a)
            (index.refresh ns application secret b.name g.secrets) _ s₁
            (λ _ t e.
              let (_, is_secret) =
                contract.refreshed ns application secret b.name g.secrets s₁ (λ p. cc p) h₁ e in
              let same =
                contract.elsewhere ns ns application secret config b.name b.name g.secrets s₁
                  (λ p. cc p) h₁ e in
              (valid, same ∙ is_config ∙ all_configs, is_secret ∙ all_secrets))
            λ _ s₂ done. Ensures-pure (Related ns a) b s₂ done

  update-Related :
      (ns : String) (a : Application) (s : S)
      → Right s
      → Ensures (Related ns a) (update configs secrets apps index rand_string ns a s)
  unfolding update
  update-Related ns a s h =
      Ensures-bind (λ _ t. Right t × (valid_name a ≡ ok tt)) (Related ns a) (lift (valid_name a)) _
        s (λ u t e. (subst Right (ap (λ p. p.1) e) h, ap (λ p. p.0) e))
        λ _ s₁ (h₁, valid).
          Ensures-bind (Gathers a.volumes) (Related ns a) (gather ns a.volumes) _ s₁
            (get_configs_and_secrets-Gathers ns a.volumes s₁ h₁)
            λ g s₂ n.
              Ensures-bind (λ _ t. Right t) (Related ns a)
                (apps.update_application ns (record a { volumes = g.volumes })) _ s₂
                (kept (apps.update_application ns (record a { volumes = g.volumes }))
                  (app_keeps ns (record a { volumes = g.volumes })) s₂ n.0)
                λ b s₃ h₃. refresh-Related ns a b g s₃ valid (h₃, n.1, n.2)

  -- Over an index plugin that meets its contract, and plugins that keep what it keeps of itself, in
  -- a store where that holds: an update that answered has valid names, and leaves the application related to exactly the
  -- configs and the secrets that its volumes mount, in their order.
  pub update-related :
      (ns : String) (a b : Application) (s t : S)
      → Right s
      → update configs secrets apps index rand_string ns a s ≡ (ok b, t)
      → (valid_name a ≡ ok tt)
        × (related t ns config application b.name ≡ config_names a.volumes)
        × (related t ns secret application b.name ≡ secret_names a.volumes)
  update-related ns a b s t h e = update-Related ns a s h b t e
