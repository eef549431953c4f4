-- ===== src/Api/Secrets.antt =====
-- translateSecretLikedModelsToSecrets and translateSecretsToSecretLikedResources: certificates and
-- registries are secrets of a volume.
use baetyl_cloud.Common.{
  String, Bool, true, false, Option, none, some, List, [], ◌∷◌, ◌++◌, map, ◌==◌, if◌then◌else◌,
}
use baetyl_cloud.Common.Action.{
  Error, coded, resource_not_found, Result, ok, err, panicked, Action, pure, raise, lift, ◌>>=◌,
  attempt,
}
use baetyl_cloud.Common.Dict.{lookup}
use baetyl_cloud.Spec.{ObjectReference}
use baetyl_cloud.Api.{
  Volume, VolumeView, RegistryView, SecretInfo, Application, ApplicationView, AppServices,
}

-- The volumes of an application beside their views, where each certificate becomes a secret.
unfoldable pub set_secrets : List VolumeView → List Volume → Result (List Volume)
set_secrets [] ws = ok ws
set_secrets (v ∷ vs) [] = elim v.certificate [ none ↦ set_secrets vs [] | some c ↦ panicked ]
set_secrets (v ∷ vs) (w ∷ ws) =
    let first : Volume = elim v.certificate [
      | none ↦ w
      | some c ↦ record w { secret = some (record { name = c.name; version = "" }) }
    ] in
    elim (set_secrets vs ws) [ ok rest ↦ ok (first ∷ rest) | err e ↦ err e | panicked ↦ panicked ]

abbrev registry_volume : RegistryView → Volume
registry_volume r = record {
  name = r.name;
  host_path = none;
  config = none;
  secret = some (record { name = r.name; version = "" });
  empty_dir = none;
}

-- translateSecretLikedModelsToSecrets
unfoldable pub translate_secret_liked_models_to_secrets :
    {S : Type 0} → ApplicationView → Application → Action S Application
translate_secret_liked_models_to_secrets view app = do
  volumes ← lift (set_secrets view.volumes app.volumes)
  pure (record app { volumes = volumes ++ map registry_volume view.registries })

-- An error with the code of a missing resource.
abbrev pub has_not_found_code : Error → Bool
has_not_found_code (coded resource_not_found fields) = true
has_not_found_code e = false

abbrev pub is_label : Option String → String → Bool
is_label none v = false
is_label (some w) v = w == v

abbrev certificate_of : VolumeView → ObjectReference → VolumeView
certificate_of v r = record {
  name = v.name;
  host_path = none;
  config = none;
  secret = none;
  empty_dir = none;
  certificate = some r;
}

module _ {S : Type 0} (api : AppServices S) where
  -- A volume with a secret that was found, before the volumes and registries that follow.
  abbrev placed :
      VolumeView
      → ObjectReference
      → SecretInfo
      → List VolumeView × List RegistryView
      → List VolumeView × List RegistryView
  placed v r secret rest =
      let label : Option String = lookup api.secret_label secret.labels in
      if is_label label api.secret_registry
      then (rest.0, secret.registry ∷ rest.1)
      else if is_label label api.secret_certificate
      then (certificate_of v r ∷ rest.0, rest.1)
      else (v ∷ rest.0, rest.1)

  -- The loop of translateSecretsToSecretLikedResources.
  unfoldable pub split_volumes :
      List VolumeView → String → Action S (List VolumeView × List RegistryView)
  split_volumes [] ns = pure ([], [])
  split_volumes (v ∷ vs) ns =
      let rest : Action S (List VolumeView × List RegistryView) = split_volumes vs ns in
      elim v.secret [
        | none ↦ rest >>= λ r. pure (v ∷ r.0, r.1)
        | some ref ↦
            attempt (api.secret_get ns ref.name)
              (λ secret. rest >>= λ r. pure (placed v ref secret r))
              (λ e. if has_not_found_code e then rest else raise e)
      ]

  -- translateSecretsToSecretLikedResources
  unfoldable pub translate_secrets_to_secret_liked_resources :
      ApplicationView → Action S ApplicationView
  translate_secrets_to_secret_liked_resources view = do
    made ← split_volumes view.volumes view.namespace
    pure (record view { volumes = made.0; registries = made.1 })
