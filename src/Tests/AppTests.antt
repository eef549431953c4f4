-- ===== src/Tests/AppTests.antt =====
-- service/application.go at a concrete application.
use baetyl_cloud.Common.{String, ◌≡◌, refl, true, false, none, some, [], ◌∷◌}
use baetyl_cloud.Common.Action.{Result, ok, Action, pure}
use baetyl_cloud.Common.Dict.{lookup, insert}
use baetyl_cloud.Spec.{Application, Configuration, Volume, cron_not_set}
use baetyl_cloud.Plugin.{ConfigPlugin, SecretPlugin, AppPlugin}
use baetyl_cloud.Database.Index.{
  IndexStore, application, config, secret, get_table, pair_key, table_name, create_all,
  create_index, list_index, delete_index, refresh_index, selected, select,
}
use baetyl_cloud.Database.Index.Names.{CacheIsRight}
use baetyl_cloud.Database.Index.Contract.{db_index, db_related, db_index-IndexContract}
use baetyl_cloud.Service.Index.{refresh_config_index_by_app, refresh_secret_index_by_app}
use baetyl_cloud.Service.App.{
  check_volumes, check_mounts, check_services, valid_name, latest_config, latest_secret,
  get_configs_and_secrets, update,
}
use baetyl_cloud.Service.App.Names.{is_ok, is_ok-valid_name}
use baetyl_cloud.Service.App.Indexes.{update-related}
use baetyl_cloud.Tests.IndexTests.{empty_store, empty-CacheIsRight}

abbrev conf_volume : Volume
conf_volume = record {
  name = "conf";
  config = some (record { name = "c1"; version = "1" });
  secret = none;
}

abbrev cert_volume : Volume
cert_volume = record {
  name = "cert";
  config = none;
  secret = some (record { name = "s1"; version = "1" });
}

abbrev web : Application
web = record {
  name = "web";
  namespace = "default";
  version = "2";
  selector = "edge";
  system = false;
  cron_status = cron_not_set;
  cron_time = 0;
  services = record { name = "nginx"; volume_mounts = "conf" ∷ "cert" ∷ [] } ∷ [];
  volumes = conf_volume ∷ cert_volume ∷ [];
}

is_ok-valid_name_example : is_ok (valid_name web) ≡ true
is_ok-valid_name_example = is_ok-valid_name web

mount_missing : is_ok (valid_name (record web { volumes = conf_volume ∷ [] })) ≡ false
unfolding check_volumes check_mounts check_services valid_name
mount_missing = refl

abbrev some_config : Configuration
some_config = record {
  name = "c1";
  namespace = "default";
  version = "9";
  labels = [];
  entries = [];
  description = "";
  update_timestamp = 0;
  creation_timestamp = 0;
  system = false;
}

abbrev configs : ConfigPlugin IndexStore
configs = record {
  get_config = λ ns name v. pure (record some_config { name = name });
  create_config = λ ns c. pure c;
  update_config = λ ns c. pure c;
  delete_config = λ ns name. pure tt;
}

abbrev secrets : SecretPlugin IndexStore
secrets = record {
  get_secret = λ ns name v. pure (record { name = name; namespace = ns; version = "4" });
  create_secret = λ ns c. pure c;
  update_secret = λ ns c. pure c;
  delete_secret = λ ns name. pure tt;
}

abbrev apps : AppPlugin IndexStore
apps = record {
  get_application = λ ns name v. pure web;
  create_application = λ ns a. pure a;
  update_application = λ ns a. pure a;
  delete_application = λ ns name. pure tt;
  list_application = λ ns. pure (web ∷ []);
}

abbrev rand_string : Action IndexStore String
rand_string = pure "abcdefghi"

abbrev updated : Result Application × IndexStore
updated = update configs secrets apps db_index rand_string "default" web empty_store

abbrev updated_web : Application
updated_web = record web {
  volumes =
      record conf_volume { config = some (record { name = "c1"; version = "9" }) }
      ∷ record cert_volume { secret = some (record { name = "s1"; version = "4" }) }
      ∷ [];
}

update-related_example :
    (valid_name web ≡ ok tt)
    × (db_related updated.1 "default" config application "web" ≡ "c1" ∷ [])
    × (db_related updated.1 "default" secret application "web" ≡ "s1" ∷ [])
unfolding update valid_name check_volumes check_mounts check_services get_configs_and_secrets
    latest_config latest_secret refresh_config_index_by_app refresh_secret_index_by_app
    refresh_index create_all create_index list_index delete_index get_table pair_key table_name
    selected select lookup insert
update-related_example =
    update-related configs secrets apps db_index rand_string (λ s. CacheIsRight s.cache) db_related
      db_index-IndexContract (λ ns name v s h. h) (λ ns name v s h. h) (λ ns a s h. h) "default" web
      updated_web empty_store updated.1 empty-CacheIsRight refl
