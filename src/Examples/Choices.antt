-- ===== src/Examples/Choices.antt =====
-- The theorems on the selection and the counts, applied.
use robot_maintanance.Prelude.{true, false, [], ◌∷◌, ◌≡◌, refl, contains}
use robot_maintanance.Js.{trim}
use robot_maintanance.Normalize.{clean}
use robot_maintanance.Selection.{Selection, Filter, RunOptions, get_robot_ids_for_run}
use robot_maintanance.Examples.{fleet}

abbrev chosen : Selection
chosen = record { robots = fleet; selected = "r2" ∷ [] }

abbrev options : RunOptions
options = record {
  auto_select_online_when_empty = true;
  fallback_to_active = false;
  detail_robot_id = "";
}

r2_runs : contains "r2" (get_robot_ids_for_run options chosen).0 ≡ true
unfolding get_robot_ids_for_run contains clean trim
r2_runs = refl

abbrev no_filter : Filter
no_filter = record { name = ""; type = "all"; error = "all" }
