-- ===== src/Tests/ShadowTests.antt =====
-- The shadow store and its triggers at concrete values.
use baetyl_cloud.Common.{ℕ, String, ◌≡◌, refl, ap, ◌==◌, true, false, none, some, [], ◌∷◌}
use baetyl_cloud.Common.Action.{plain, ok, err, Action, pure, raise}
use baetyl_cloud.Common.Dict.{Dict, lookup}
use baetyl_cloud.Plugin.{Shadow}
use baetyl_cloud.Models.Shadow.{new_shadow}
use baetyl_cloud.Database.{Conn}
use baetyl_cloud.Database.Shadows.{
  ShadowRow, ShadowTable, ShadowFormat, update_where, to_shadow_model,
}
use baetyl_cloud.Database.Shadows.View.{row_at}
use baetyl_cloud.Database.Shadows.Requests.{set_desire, Meant}
use baetyl_cloud.Database.Shadows.Refines.{carry-Meant}
use baetyl_cloud.Database.Shadows.Queries.{Site, transact_captured}
use baetyl_cloud.Database.Shadows.Store.{
  get_shadow_tx, list_batches, list_rows_by_names_tx, update_shadow_desire_tx, update_report,
  transact_and_announce, update_shadow_report_tx,
}
use baetyl_cloud.Database.Shadows.Batches.{list_rows_by_names_tx-count}
use baetyl_cloud.Database.Shadows.Writers.{IsFresh, second_writer_lost}
use baetyl_cloud.Database.Shadows.Failures.{update_report-error}
use baetyl_cloud.Triggers.{SavedTime, flush}
use baetyl_cloud.Triggers.Flushing.{lookup-flush}

abbrev a_row : String → ShadowRow
a_row name = record {
  id = 1;
  namespace = "default";
  name = name;
  create_time = 0;
  report = "{}";
  desire = "{}";
  report_meta = "";
  desire_meta = "";
  desire_version = "v1";
  has_null = false;
}

abbrev two_rows : ShadowTable
two_rows = record { rows = a_row "n1" ∷ a_row "n2" ∷ []; next_id = 3; clock = 7 }

abbrev a_format : ShadowFormat
a_format = record {
  encode = λ d. ok "{}";
  decode = λ s. ok (some []);
  decode_time = λ s. ok 0;
  parse_time = λ s. ok 0;
}

abbrev two_nodes : Conn ShadowTable
two_nodes = record { faults = []; tables = two_rows }

abbrev next_version : Action (Conn ShadowTable) String
next_version = pure "v2"

abbrev ignore : Shadow → Action (Site ℕ) (Unit {0})
ignore sh = pure tt

abbrev forget : String → String → Action (Site ℕ) (Unit {0})
forget ns name = pure tt

-- Three names, of which one has no row.
list_rows_by_names_tx-count_example : ◌≡◌ {A = ℕ} 2 2
unfolding list_rows_by_names_tx list_batches
list_rows_by_names_tx-count_example =
    list_rows_by_names_tx-count (λ _. true) "default" a_format next_version ignore forget
      ("n2" ∷ "n0" ∷ "n1" ∷ []) (a_row "n1" ∷ a_row "n2" ∷ []) two_nodes two_nodes refl refl

next_version-IsFresh : IsFresh next_version "v1"
next_version-IsFresh s t v e =
    let other : v ≡ "v2" = cc e in
    let same : t ≡ s = cc e in (ap (λ x. x == "v1") other, ap (λ c. c.tables) same)

abbrev a_shadow : Shadow
a_shadow = record (new_shadow "default" "n1") { desire_version = "v1" }

abbrev first_write : Conn ShadowTable
first_write = (update_shadow_desire_tx a_format next_version ignore forget a_shadow two_nodes).1

abbrev second_write : Conn ShadowTable
second_write = (update_shadow_desire_tx a_format next_version ignore forget a_shadow first_write).1

carry-Meant_example :
    Meant a_format next_version
      (set_desire a_shadow)
      two_rows
      "default"
      "n1"
      (row_at "default" "n1" two_rows.rows)
      (row_at "default" "n1" first_write.tables.rows)
unfolding update_shadow_desire_tx update_where new_shadow
carry-Meant_example =
    carry-Meant a_format next_version ignore forget (λ s. refl) "default" "n1" (set_desire a_shadow)
      two_nodes first_write refl

second_writer_lost_example : second_write.tables.rows ≡ first_write.tables.rows
unfolding update_shadow_desire_tx update_where new_shadow
second_writer_lost_example =
    second_writer_lost a_format next_version ignore forget "default" "n1" "v1" next_version-IsFresh
      a_shadow a_shadow two_nodes first_write second_write refl refl refl refl refl refl refl refl

abbrev refuse : Shadow → Action (Site ℕ) (Unit {0})
refuse sh = raise (plain "cache")

abbrev a_site : Site ℕ
a_site = record { conn = two_nodes; cache = 0 }

abbrev reported_site : Site ℕ
reported_site = (update_report a_format next_version refuse forget a_shadow a_site).1

update_report-error_example :
    (sh : Shadow) × (u : Site ℕ) × (refuse sh u ≡ (err (plain "cache"), reported_site))
unfolding update_report transact_and_announce transact_captured update_shadow_report_tx update_where
    get_shadow_tx to_shadow_model new_shadow lookup
update_report-error_example =
    update_report-error a_format next_version refuse forget a_shadow a_site reported_site
      (plain "cache") refl

abbrev waiting : Dict SavedTime
waiting =
    ("n1", record { value = "10:00"; time = 3 }) ∷ ("n2", record { value = "10:01"; time = 8 }) ∷ []

lookup-flush_example :
    (lookup "n1" (flush 5 waiting []).1 ≡ some "10:00")
    × (lookup "n1" (flush 5 waiting []).0 ≡ none)
unfolding lookup
lookup-flush_example = lookup-flush 5 waiting [] "n1" refl
