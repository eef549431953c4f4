-- ===== src/Tests/FacadeTests.antt =====
-- facade/ at a store that logs its writes.
use baetyl_cloud.Common.{String, ◌≡◌, refl, true, false, not, some, List, [], ◌∷◌}
use baetyl_cloud.Common.Action.{plain, ok, err, Action, pure}
use baetyl_cloud.Spec.{Application, Configuration, Secret, Volume, cron_wait}
use baetyl_cloud.Facade.{Cron, TransactionFactory, Services}
use baetyl_cloud.Facade.Versions.{need_update_app, need_update_app_secret, bump_configs}
use baetyl_cloud.Facade.Versions.Bumps.{up_to_date, need_update_app_lem, need_update_app_secret_lem}

record LogStore : Type 0 where
  rows : List String
  saved : List String
  crons : List String
  index : List String

abbrev factory : TransactionFactory LogStore
factory = record {
  begin_tx = λ s. (ok tt, record s { saved = s.rows });
  commit = λ s. s;
  rollback = λ s. record s { rows = s.saved };
}

abbrev write : {A : Type 0} → String → A → Action LogStore A
write row a s = (ok a, record s { rows = row ∷ s.rows })

-- A cron is written at once.
abbrev write_cron : String → Action LogStore (Unit {0})
write_cron row s = (ok tt, record s { crons = row ∷ s.crons })

abbrev broken : {A : Type 0} → Action LogStore A
broken s = (err (plain "connection lost"), s)

abbrev one_cron : Cron
one_cron = record { namespace = "default"; name = "web"; selector = "edge"; cron_time = 5 }

-- The index is down.
abbrev services : Services LogStore
services = record {
  app_get = λ ns name v. broken;
  app_create_with_base = λ ns a base. write "app" a;
  app_update = λ ns a. write "app" a;
  app_delete = λ ns name. write "gone" tt;
  update_node_app_version = λ ns a. write "desire" ("n1" ∷ []);
  delete_node_app_version = λ ns a. write "desire" ("n1" ∷ []);
  refresh_nodes_index_by_app = λ ns name nodes. broken;
  list_app_index_by_config = λ ns name. pure ("web" ∷ []);
  list_app_index_by_secret = λ ns name. pure ("web" ∷ []);
  config_create = λ ns c. write "config" c;
  config_update = λ ns c. write "config" c;
  config_upsert = λ ns c. write "config" c;
  config_delete = λ ns name. write "no config" tt;
  secret_create = λ ns s. write "secret" s;
  secret_update = λ ns s. write "secret" s;
  secret_delete = λ ns name. write "no secret" tt;
  get_cron = λ name ns. pure one_cron;
  create_cron = λ c. write_cron "cron";
  update_cron = λ c. write_cron "cron";
  delete_cron = λ name ns. write_cron "no cron";
}

abbrev mounted : Volume
mounted = record {
  name = "conf";
  config = some (record { name = "c1"; version = "1" });
  secret = some (record { name = "s1"; version = "1" });
}

abbrev web : Application
web = record {
  name = "web";
  namespace = "default";
  version = "2";
  selector = "edge";
  system = false;
  cron_status = cron_wait;
  cron_time = 5;
  services = [];
  volumes = mounted ∷ [];
}

abbrev newer_config : Configuration
newer_config = record {
  name = "c1";
  namespace = "default";
  version = "2";
  labels = [];
  entries = [];
  description = "";
  update_timestamp = 0;
  creation_timestamp = 0;
  system = false;
}

abbrev newer_secret : Secret
newer_secret = record { name = "s1"; namespace = "default"; version = "2" }

abbrev start : LogStore
start = record { rows = "old" ∷ []; saved = []; crons = []; index = [] }

abbrev begun : LogStore
begun = record start { saved = "old" ∷ [] }

abbrev configured : LogStore
configured = record begun { rows = "config" ∷ "old" ∷ [] }

abbrev with_cron : LogStore
with_cron = record configured { crons = "cron" ∷ [] }

abbrev without_cron : LogStore
without_cron = record begun { crons = "no cron" ∷ [] }

-- With an index that answers.
abbrev indexing : Services LogStore
indexing = record services {
  refresh_nodes_index_by_app = λ ns name nodes s. (ok tt, record s { index = nodes });
}

need_update_app_lem_example :
    ((need_update_app newer_config web).0 ≡ not (up_to_date (λ v. v.config) "c1" "2" web.volumes))
    × (up_to_date (λ v. v.config) "c1" "2" (need_update_app newer_config web).1.volumes ≡ true)
    × (need_update_app newer_config (need_update_app newer_config web).1
        ≡ (false, (need_update_app newer_config web).1))
need_update_app_lem_example = need_update_app_lem newer_config web

need_update_app_secret_lem_example :
    ((need_update_app_secret newer_secret web).0
      ≡ not (up_to_date (λ v. v.secret) "s1" "2" web.volumes))
    × (up_to_date (λ v. v.secret) "s1" "2" (need_update_app_secret newer_secret web).1.volumes
        ≡ true)
    × (need_update_app_secret newer_secret (need_update_app_secret newer_secret web).1
        ≡ (false, (need_update_app_secret newer_secret web).1))
need_update_app_secret_lem_example = need_update_app_secret_lem newer_secret web

bumped : (need_update_app newer_config web).0 ≡ true
unfolding need_update_app bump_configs
bumped = refl
