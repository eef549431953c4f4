-- ===== src/Facade/Versions/Bumps.antt =====
-- needUpdateApp and needUpdateAppSecret: what they say and what they write.
use text.Mathlib.TextPositions.{compare_refl}
use baetyl_cloud.Common.{
  String, ◌≡◌, refl, Bool, true, false, not, ◌&&◌, Option, none, some, List, [], ◌∷◌, arith,
}
use baetyl_cloud.Spec.{Application, Configuration, Secret, ObjectReference, Volume}
use baetyl_cloud.Facade.Versions.{
  is_later, is_outdated, raised, bump_configs, bump_secrets, need_update_app,
  need_update_app_secret,
}

is_later_irrefl : (v : String) → is_later v v ≡ false
is_later_irrefl v = rw (is_later, compare_refl v) refl

is_outdated-raised :
    (name version : String) (r : Option ObjectReference)
    → is_outdated name version (raised name version r) ≡ false
is_outdated-raised name version none = refl
is_outdated-raised name version (some r) = ground (arith, is_later_irrefl version)

-- No reference to that name is older than the version.
abbrev pub up_to_date : (Volume → Option ObjectReference) → String → String → List Volume → Bool
up_to_date f name version [] = true
up_to_date f name version (v ∷ vs) =
    not (is_outdated name version (f v)) && up_to_date f name version vs

bump_configs_lem :
    (name version : String) (vs : List Volume)
    → ((bump_configs name version vs).0 ≡ not (up_to_date (λ v. v.config) name version vs))
      × (up_to_date (λ v. v.config) name version (bump_configs name version vs).1 ≡ true)
unfolding bump_configs
bump_configs_lem name version [] = (refl, refl)
bump_configs_lem name version (v ∷ vs) =
    ground (arith, bump_configs_lem name version vs, is_outdated-raised name version v.config)

raised-stays :
    (name version : String) (r : Option ObjectReference)
    → is_outdated name version r ≡ false
    → raised name version r ≡ r
raised-stays name version none h = refl
raised-stays name version (some r) h = ground arith

bump_configs-stays :
    (name version : String) (vs : List Volume)
    → up_to_date (λ v. v.config) name version vs ≡ true
    → bump_configs name version vs ≡ (false, vs)
unfolding bump_configs
bump_configs-stays name version [] h = refl
bump_configs-stays name version (v ∷ vs) h =
    let apart : is_outdated name version v.config ≡ false = ground arith in
    let rest : bump_configs name version vs ≡ (false, vs) =
      bump_configs-stays name version vs (ground arith) in
    rw (apart, rest) (rw (raised-stays name version v.config apart) refl)

-- For every configuration and application: needUpdateApp answers whether the application mounts
-- the configuration in an older version, it leaves no such mount, and asked once more it answers
-- no and writes nothing.
pub need_update_app_lem :
    (c : Configuration) (app : Application)
    → ((need_update_app c app).0 ≡ not (up_to_date (λ v. v.config) c.name c.version app.volumes))
      × (up_to_date (λ v. v.config) c.name c.version (need_update_app c app).1.volumes ≡ true)
      × (need_update_app c (need_update_app c app).1 ≡ (false, (need_update_app c app).1))
unfolding need_update_app
need_update_app_lem c app =
    let (asked, done) = bump_configs_lem c.name c.version app.volumes in
    (
      asked,
      done,
      rw (bump_configs-stays c.name c.version (bump_configs c.name c.version app.volumes).1 done)
          refl,
    )

bump_secrets_lem :
    (name version : String) (vs : List Volume)
    → ((bump_secrets name version vs).0 ≡ not (up_to_date (λ v. v.secret) name version vs))
      × (up_to_date (λ v. v.secret) name version (bump_secrets name version vs).1 ≡ true)
unfolding bump_secrets
bump_secrets_lem name version [] = (refl, refl)
bump_secrets_lem name version (v ∷ vs) =
    ground (arith, bump_secrets_lem name version vs, is_outdated-raised name version v.secret)

bump_secrets-stays :
    (name version : String) (vs : List Volume)
    → up_to_date (λ v. v.secret) name version vs ≡ true
    → bump_secrets name version vs ≡ (false, vs)
unfolding bump_secrets
bump_secrets-stays name version [] h = refl
bump_secrets-stays name version (v ∷ vs) h =
    let apart : is_outdated name version v.secret ≡ false = ground arith in
    let rest : bump_secrets name version vs ≡ (false, vs) =
      bump_secrets-stays name version vs (ground arith) in
    rw (apart, rest) (rw (raised-stays name version v.secret apart) refl)

-- For every secret and application: needUpdateAppSecret answers whether the application mounts
-- the secret in an older version, it leaves no such mount, and asked once more it answers
-- no and writes nothing.
pub need_update_app_secret_lem :
    (s : Secret) (app : Application)
    → ((need_update_app_secret s app).0
        ≡ not (up_to_date (λ v. v.secret) s.name s.version app.volumes))
      × (up_to_date (λ v. v.secret) s.name s.version (need_update_app_secret s app).1.volumes
          ≡ true)
      × (need_update_app_secret s (need_update_app_secret s app).1
          ≡ (false, (need_update_app_secret s app).1))
unfolding need_update_app_secret
need_update_app_secret_lem s app =
    let (asked, done) = bump_secrets_lem s.name s.version app.volumes in
    (
      asked,
      done,
      rw (bump_secrets-stays s.name s.version (bump_secrets s.name s.version app.volumes).1 done)
          refl,
    )
