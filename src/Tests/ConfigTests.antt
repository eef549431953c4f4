-- ===== src/Tests/ConfigTests.antt =====
-- service/config.go at a concrete store.
use baetyl_cloud.Common.{◌≡◌, sym, ap, ◌∙◌, refl, true, false, [], ◌∷◌}
use baetyl_cloud.Common.Action.{ok, ok-injective, pure}
use baetyl_cloud.Common.Dict.{lookup}
use baetyl_cloud.Service.Config.Maps.{same_map_refl}
use baetyl_cloud.Tests.Codec.{encode, encode_text, decode, pairs, decode-encode}
use baetyl_cloud.Spec.{Configuration}
use baetyl_cloud.Service.Config.{same_map, equal_config, upsert}
use baetyl_cloud.Database.Keyed.{find}
use baetyl_cloud.Database.Configs as Configs
use baetyl_cloud.Database.Configs.{
  ConfigRow, ConfigConn, ConfigFormat, get_config, to_config_model, update_config,
  from_config_model, update_configuration_tx, config_plugin,
}
use baetyl_cloud.Database.Configs.Found.{IsStored}
use baetyl_cloud.Database.Configs.Promise.{IsRoundTrip, upsert-IsStored}

abbrev stored : Configuration
stored = record {
  name = "c1";
  namespace = "default";
  version = "7";
  labels = [];
  entries = ("port", "80") ∷ [];
  description = "";
  update_timestamp = 1;
  creation_timestamp = 0;
  system = false;
}

abbrev wanted : Configuration
wanted = record stored { version = ""; entries = ("port", "81") ∷ [] }

abbrev a_format : ConfigFormat
a_format = record {
  encode = λ d. ok (encode d);
  decode = λ s. ok (pairs (decode s));
  byte_length = λ s. 2;
  number_text = λ n. "2";
  gen_version = pure "8";
  like = λ a b. true;
  newest_first = λ rs. rs;
  is_label_match = λ a b. ok true;
  unique = true;
}

a_format-IsRoundTrip : IsRoundTrip a_format
a_format-IsRoundTrip d text apart e =
    let decoded : pairs (decode text) ≡ d =
      ap (λ t. pairs (decode t)) (sym (ok-injective e)) ∙ decode-encode d in
    (pairs (decode text), refl, rw decoded (same_map_refl d apart))

abbrev stored_row : ConfigRow
stored_row = record {
  id = 1;
  namespace = "default";
  name = "c1";
  labels = "";
  entries = "";
  create_time = 0;
  update_time = 0;
  description = "";
  version = "7";
  system = false;
}

abbrev one_config : ConfigConn
one_config = record {
  faults = [];
  tables = record { rows = stored_row ∷ []; next_id = 2; clock = 3 };
}

abbrev updated : ConfigConn
updated = (upsert (config_plugin a_format false) (pure 5) "default" wanted one_config).1

-- The row is there with other data, and is written.
upsert-IsStored_example : IsStored a_format "default" wanted updated
unfolding upsert equal_config same_map lookup get_config to_config_model find update_config
    from_config_model update_configuration_tx Configs.equal_config encode decode encode_text pairs
upsert-IsStored_example =
    upsert-IsStored a_format a_format-IsRoundTrip refl (λ s. refl) (pure 5) false "default" wanted
      refl refl (record wanted { version = "8"; update_timestamp = 5 }) one_config updated refl
