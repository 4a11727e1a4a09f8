-- ===== src/Results.antt =====
-- How the results of a test run enter the state of a robot
-- (assets/js/modules/dashboard/controllers/runtime/dashboardRuntimeFixTests.js).
pub mod Online
use robot_maintanance.Prelude.{
  ℕ, suc, ◌+◌, String, Bool, true, false, not, ◌&&◌, ◌||◌, Option, none, some, List, [], ◌∷◌, any,
  all, map, filter, find?, is_empty, is_some, present, ◌===◌, if◌then◌else◌, leb, Dict, lookup,
  insert,
}
use robot_maintanance.Js.{
  Value, undefined, obj, no_fields, Number, nan, infinite, minus_infinite, below_zero, thousandths,
  get, is_object, is_array, array_or_empty, includes,
}
use robot_maintanance.Js.Engine.{Engine, number_of, object_entries}
use robot_maintanance.Normalize.{
  Status, ok, warning, error, clean, normalize_status, normalize_text,
}
use robot_maintanance.Fleet.{Robot, TestResult, StepDebug, DebugResult, id_of, robot_id}
use robot_maintanance.Runtime.{finite_or_zero, text_or_empty, result_or_empty, same_status}

-- `normalizeStepDebug`
unfoldable pub normalize_step_debug : Engine → Value → Option StepDebug
normalize_step_debug js step =
    if is_object step
    then some (record {
      id = normalize_text js (get step "id") "step";
      status = normalize_status (get step "status");
      value = normalize_text js (get step "value") "n/a";
      details = normalize_text js (get step "details") "No detail available";
      ms = finite_or_zero (number_of js (get step "ms"));
      output = normalize_text js (get step "output") "";
    })
    else none

-- The fields that a run adds to a debug result, read from the run or from a stored result.
abbrev pub debug_of : Engine → String → Value → Value → DebugResult
unfolding normalize_step_debug
debug_of js id result meta = record {
  id = id;
  status = normalize_status (get result "status");
  value = normalize_text js (get result "value") "n/a";
  details = normalize_text js (get result "details") "No detail available";
  ms = finite_or_zero (number_of js (get result "ms"));
  raw = if is_object (get result "raw") then get result "raw" else obj no_fields;
  steps = present (map (normalize_step_debug js) (array_or_empty (get result "steps")));
  run_id = normalize_text js (get meta "runId") "";
  started_at = finite_or_zero (number_of js (get meta "startedAt"));
  finished_at = finite_or_zero (number_of js (get meta "finishedAt"));
}

abbrev debug_entries : Engine → Value → List (String × Value)
debug_entries js raw =
    if is_array raw
    then map (λ e. (normalize_text js (get e "id") "", e)) (array_or_empty raw)
    else object_entries js raw

abbrev add_debug_entries : Engine → List (String × Value) → Dict DebugResult → Dict DebugResult
add_debug_entries js [] m = m
add_debug_entries js ((raw_id, raw) ∷ es) m =
    let base = if is_object raw then raw else obj no_fields in
    let id = clean raw_id (normalize_text js (get base "id") "") in
    add_debug_entries js es (if id === "" then m else insert id (debug_of js id base base) m)

-- `normalizeTestDebugCollection`, with `normalizeTestDebugResult` of each entry
unfoldable pub normalize_test_debug_collection : Engine → Value → Dict DebugResult
normalize_test_debug_collection js raw =
    if is_object raw then add_debug_entries js (debug_entries js raw) [] else []

unfoldable pub result_id : Engine → Value → String
result_id js result = normalize_text js (get result "id") ""

unfoldable pub run_result : Engine → Value → TestResult
run_result js result = record {
  status = normalize_status (get result "status");
  value = some (normalize_text js (get result "value") "n/a");
  details = some (normalize_text js (get result "details") "No detail available");
  reason = some (normalize_text js (get result "reason") "");
  source = none;
  checked_at = none;
}

-- The loop over the results fills the two tables; an entry without an id is passed over.
unfoldable pub add_result : Engine → Value → Dict TestResult → Dict TestResult
add_result js r tests =
    if result_id js r === "" then tests else insert (result_id js r) (run_result js r) tests

unfoldable pub add_results : Engine → List Value → Dict TestResult → Dict TestResult
add_results js [] tests = tests
add_results js (r ∷ rs) tests = add_results js rs (add_result js r tests)

unfoldable pub add_debug : Engine → Value → List Value → Dict DebugResult → Dict DebugResult
add_debug js meta [] m = m
add_debug js meta (r ∷ rs) m = add_debug js meta rs (
    if result_id js r === ""
    then m
    else insert (result_id js r) (debug_of js (result_id js r) r meta) m)

abbrev pub has_explicit_online : Engine → List Value → Bool
has_explicit_online js results = any (λ r. result_id js r === "online") results

abbrev is_placeholder : Engine → TestResult → Bool
is_placeholder js t =
    let value = js.lower (text_or_empty t.value) in
    let details = js.lower (text_or_empty t.details) in
    same_status t.status warning
    && (value === "" || value === "unknown")
    && (details === "" || details === "not checked yet")

-- The check has no usable time, or it is at most 15 seconds old. The clock counts milliseconds,
-- which are the thousandths of the seconds that are compared.
abbrev is_fresh : ℕ → Option Number → Bool
is_fresh now (some (thousandths ℕ.zero)) = true
is_fresh now (some (thousandths n)) = leb now (n + 15000)
is_fresh now _ = true

unfoldable has_recent_online : Engine → ℕ → Option TestResult → Bool
has_recent_online js now none = false
has_recent_online js now (some t) = not (is_placeholder js t) && is_fresh now t.checked_at

abbrev is_error : Value → Bool
is_error result = same_status (normalize_status (get result "status")) error

unfoldable is_ssh_failure : Engine → Value → Bool
is_ssh_failure js result =
    let details = js.lower (normalize_text js (get result "details") "") in
    let value = js.lower (normalize_text js (get result "value") "") in
    is_error result
    && (includes "ssh" details
        || includes "connect" details
        || includes "auth" details
        || value === "execution_error"
        || value === "command_error")

abbrev inferred : Status → String → String → TestResult
inferred status value details = record {
  status = status;
  value = some value;
  details = some details;
  reason = none;
  source = none;
  checked_at = none;
}

abbrev pub inferred_online : TestResult
inferred_online = inferred ok "reachable" "Inferred online: at least one test command executed."

abbrev pub inferred_offline : TestResult
inferred_offline =
    inferred error "unreachable"
      "Inferred offline: test execution failed for SSH/connectivity reasons."

abbrev non_online : Engine → List Value → List Value
non_online js results = filter (λ r. not (result_id js r === "online")) results

-- What the run says of the connection when it has no online result of its own.
unfoldable pub infer_online :
    Engine → ℕ → Option TestResult → List Value → Dict TestResult → Dict TestResult
unfolding has_recent_online is_ssh_failure
infer_online js now existing results tests =
    let others = non_online js results in
    if has_explicit_online js results || has_recent_online js now existing
    then tests
    else if any (λ r. not (is_error r)) others
    then insert "online" inferred_online tests
    else if not (is_empty others) && all (is_ssh_failure js) others
    then insert "online" inferred_offline tests
    else tests

abbrev pub tests_of : Option Robot → Dict TestResult
tests_of none = []
tests_of (some r) = r.tests

abbrev debug_table_of : Option Robot → Dict DebugResult
debug_table_of none = []
debug_table_of (some r) = r.test_debug

abbrev pub robot_with_id : String → List Robot → Option Robot
robot_with_id id robots = find? (λ r. id_of r === id) robots

-- The test table that a run gives to the robots with an id.
abbrev pub updated_tests : Engine → ℕ → String → List Value → List Robot → Dict TestResult
updated_tests js now id results robots =
    let tests = tests_of (robot_with_id id robots) in
    infer_online js now (lookup "online" tests) results (add_results js results tests)

abbrev pub with_run : String → Dict TestResult → Dict DebugResult → Robot → Robot
with_run id tests debug r =
    if id_of r === id then record r { tests = tests; test_debug = debug } else r

-- `updateRobotTestState`
unfoldable pub update_robot_test_state :
    Engine → ℕ → String → List Value → Value → List Robot → List Robot
unfolding infer_online add_results add_debug
update_robot_test_state js now robot results meta robots =
    let id = robot_id robot in
    let tests = updated_tests js now id results robots in
    let debug = add_debug js meta results (debug_table_of (robot_with_id id robots)) in
    if id === "" || is_empty results || is_empty tests
    then robots
    else map (with_run id tests debug) robots
