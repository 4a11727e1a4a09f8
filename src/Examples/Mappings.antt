-- ===== src/Examples/Mappings.antt =====
-- The theorems on the management page and on robots that are loaded anew, applied.
use robot_maintanance.Prelude.{
  String, Bool, true, false, ◌||◌, ◌===◌, none, ◌⊎◌, [], ◌∷◌, ◌≡◌, contains, no_repeats, map, has,
  lookup, refl,
}
use robot_maintanance.Js.{
  Value, str, bool, arr, obj, item, no_items, field, no_fields, array_or_empty, get,
}
use robot_maintanance.Manage.{DefinitionsSummary, mapping_request, type_with_id, texts}
use robot_maintanance.Manage.Ids.{names_id, mapping_request-tests}
use robot_maintanance.Js.{trim}
use robot_maintanance.Normalize.{clean}
use robot_maintanance.Fleet.{id_of, whole}
use robot_maintanance.Activities.{Activities, finding}
use robot_maintanance.Activities.Owners.{is_active}
use robot_maintanance.Activities.Reload.{robots_reloaded, robots_reloaded-IsOrphan}
use robot_maintanance.Recorder.Draft.{done, throw}
use robot_maintanance.Manage.{normalize_definitions_summary}
use robot_maintanance.Manage.Saving.{
  Reading, parsed, TestForm, answered, rejected, test_value, test_payload, parse_json_input,
}
use robot_maintanance.Manage.Saving.Pages.{
  DefinitionsPage, ok, warn, error, save_manage_test_definition,
}
use robot_maintanance.Manage.Saving.Outcomes.{
  SaveOutcome, save_manage_test_definition-SaveOutcome, kept_flag, test_payload-flag,
}
use robot_maintanance.Manage.Flags.{shown_flag}
use robot_maintanance.Manage.Loading.{
  begin_load, end_load, read_summary, no_answer, end_load-begins_again,
}
use robot_maintanance.Examples.{plain, fleet, busy, moment}

abbrev check : String → Bool → Value
check id on = obj (field "id" (str id) (field "runAtConnection" (bool on) no_fields))

abbrev rover_type : Value
rover_type =
    obj
      (field "id" (str "rover") (field "testRefs" (arr (item (str "battery") no_items)) no_fields))

abbrev summary : DefinitionsSummary
summary = record {
  command_primitives = [];
  tests = [];
  checks = [];
  fixes = [];
  robot_types = rover_type ∷ [];
}

mapping_request-tests_example :
    (no_repeats (mapping_request plain ("lidar" ∷ "battery" ∷ []) "" summary "rover").test_refs
      ≡ true)
    × (contains "lidar"
          (mapping_request plain ("lidar" ∷ "battery" ∷ []) "" summary "rover").test_refs
        ≡ (names_id plain
              (array_or_empty (get (type_with_id plain "rover" summary.robot_types) "testRefs"))
              "lidar"
            || names_id plain (texts ("lidar" ∷ "battery" ∷ [])) "lidar"))
mapping_request-tests_example =
    mapping_request-tests plain ("lidar" ∷ "battery" ∷ []) "" "rover" "lidar" summary (λ e. cc)

-- `r9` was being searched by the backend when it was removed.
abbrev with_removed : Activities
with_removed = record busy {
  auto_searching = "r9" ∷ [];
  auto_activity = "r9" ∷ [];
  countdowns =
      ("r9", record { mode = finding; expires_at = whole 8000; total_ms = whole 3000 }) ∷ [];
  timer = true;
}

r9_gone : contains "r9" (map id_of fleet) ≡ false
unfolding contains clean trim
r9_gone = refl

r9_counts : has "r9" with_removed.countdowns ≡ true
unfolding has lookup
r9_counts = refl

robots_reloaded-IsOrphan_example :
    (has "r9" (robots_reloaded moment fleet with_removed).countdowns ≡ true)
    × (is_active (robots_reloaded moment fleet with_removed) "r9" ≡ false)
robots_reloaded-IsOrphan_example =
    robots_reloaded-IsOrphan moment fleet with_removed "r9" r9_gone r9_counts

-- A parser that reads every text as a list of one check.
abbrev reading : Reading
reading = record {
  js = plain;
  parse = λ text. parsed (arr (item (check "battery" false) no_items));
}

abbrev test_form : TestForm
test_form = record {
  id = "battery_test";
  label = "";
  execute = "";
  checks = "[..]";
  run_at_connection = true;
  type_values = "rover" ∷ [];
}

abbrev definitions_page : DefinitionsPage
definitions_page = record {
  definitions_summary = summary;
  is_manage_summary_loading = false;
  editor_status = ("", ok);
  tab_status = ("", ok);
}

save_manage_test_definition-SaveOutcome_example :
    SaveOutcome reading test_form (answered true "") (rejected "offline") true definitions_page (
      save_manage_test_definition reading test_form
        (answered true "")
        (rejected "offline")
        true
        definitions_page)
save_manage_test_definition-SaveOutcome_example =
    save_manage_test_definition-SaveOutcome reading test_form (answered true "")
      (rejected "offline") true definitions_page

abbrev sent_test : Value
sent_test = test_value reading test_form "battery_test" [] (check "battery" false ∷ [])

test_payload-flag_example :
    (("battery_test" === "") ≡ false)
    × (shown_flag plain (array_or_empty (get sent_test "checks"))
        ≡ kept_flag (array_or_empty (get sent_test "checks")) true)
unfolding test_payload clean trim parse_json_input
test_payload-flag_example = test_payload-flag reading test_form "battery_test" sent_test refl

abbrev loading_page : DefinitionsPage
loading_page = record definitions_page {
  is_manage_summary_loading = true;
  tab_status = ("Loading definitions...", warn);
}

end_load-begins_again_example :
    (begin_load loading_page ≡ none)
    × ((end_load reading (no_answer "offline") loading_page).is_manage_summary_loading ≡ false)
    × (((payload : Value) × (read_summary reading (no_answer "offline") ≡ done payload)
          × ((end_load reading (no_answer "offline") loading_page).definitions_summary
              ≡ normalize_definitions_summary payload))
        ⊎ ((m : String) × (read_summary reading (no_answer "offline") ≡ throw m)
            × ((end_load reading (no_answer "offline") loading_page).definitions_summary ≡ summary)
            × ((end_load reading (no_answer "offline") loading_page).tab_status.1 ≡ error)))
unfolding begin_load
end_load-begins_again_example =
    end_load-begins_again reading (no_answer "offline") definitions_page loading_page refl
