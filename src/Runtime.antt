-- ===== src/Runtime.antt =====
-- The runtime synchronisation with the backend
-- (assets/js/modules/dashboard/controllers/runtime/dashboardRuntimeDataInit.js).
pub mod Merging
pub mod Syncing
pub mod Merge
use robot_maintanance.Prelude.{
  ℕ, ◌*◌, ◌/◌, String, Bool, true, false, not, ◌&&◌, ◌||◌, Option, none, some, List, [], ◌∷◌, any,
  map, present, is_empty, length, ◌==◌, ◌===◌, if◌then◌else◌, Dict, lookup, insert, has, spread,
  keys, add, ltb,
}
use robot_maintanance.Js.{
  Value, Number, nan, infinite, minus_infinite, below_zero, thousandths, undefined, null, obj,
  no_fields, str, num, get, is_object, is_finite, array_or_empty, truthy,
}
use robot_maintanance.Js.Engine.{Engine, number_of, object_entries}
use robot_maintanance.Normalize.{
  Status, ok, warning, error, clean, normalize_status, normalize_text,
}
use robot_maintanance.Fleet.{whole, Activity, TestResult, Robot, id_of}
use robot_maintanance.Activities.{Activities, Moment, is_local}
use robot_maintanance.Activities.Automated.{sync_automated}
use robot_maintanance.Definitions.{Config}
use robot_maintanance.Definitions.Tables.{
  normalize_robot_activity, normalize_robot_tests, RobotTests,
}

-- `RUNTIME_ALLOWED_SOURCES`
abbrev pub is_allowed_source : String → Bool
is_allowed_source s =
    s === "manual" || s === "live" || s === "auto-monitor" || s === "auto-monitor-topics"

abbrev pub finite_or_zero : Number → Number
finite_or_zero n = if is_finite n then n else thousandths 0

-- `normalizeRuntimeTestUpdate`
unfoldable pub normalize_runtime_test_update : Engine → Value → Option TestResult
normalize_runtime_test_update js raw =
    let source = normalize_text js (get raw "source") "" in
    if not (is_object raw) || not (is_allowed_source source)
    then none
    else some (record {
      status = normalize_status (get raw "status");
      value = some (normalize_text js (get raw "value") "n/a");
      details = some (normalize_text js (get raw "details") "No detail available");
      reason = some (normalize_text js (get raw "reason") "");
      source = some source;
      checked_at = some (finite_or_zero (number_of js (get raw "checkedAt")));
    })

-- `normalizeText(v, '')` of a text that may be missing
abbrev pub text_or_empty : Option String → String
text_or_empty none = ""
text_or_empty (some s) = clean s ""

-- `runtimeActivityHasSignal`, of an activity that is normalised already
unfoldable pub runtime_activity_has_signal : Activity → Bool
runtime_activity_has_signal a =
    a.searching
    || a.testing
    || not (text_or_empty a.phase === "")
    || ltb 0 a.last_full_test_at
    || not (text_or_empty a.last_full_test_source === "")
    || ltb 0 a.updated_at

pub record RuntimeEntry : Type 0 where
  pub id : String
  pub tests : Dict TestResult
  pub activity : Activity
  pub has_runtime_data : Bool

abbrev runtime_tests : Engine → Dict TestResult → List (String × Value) → Dict TestResult
runtime_tests js tests [] = tests
runtime_tests js tests ((id, raw) ∷ es) =
    runtime_tests js
      (elim (normalize_runtime_test_update js raw) [ none ↦ tests | some r ↦ insert id r tests ]) es

-- `normalizeRuntimeRobotEntry`
unfoldable pub normalize_runtime_robot_entry : Engine → Value → Option RuntimeEntry
unfolding normalize_runtime_test_update runtime_activity_has_signal
normalize_runtime_robot_entry js raw =
    let id = normalize_text js (get raw "id") "" in
    let tests = runtime_tests js [] (object_entries js (get raw "tests")) in
    let activity = normalize_robot_activity js (get raw "activity") in
    if not (is_object raw) || id === ""
    then none
    else some (record {
      id = id;
      tests = tests;
      activity = activity;
      has_runtime_data = not (is_empty tests) || runtime_activity_has_signal activity;
    })

-- `===` of Booleans, statuses and numbers
abbrev pub same_bool : Bool → Bool → Bool
same_bool true true = true
same_bool false false = true
same_bool _ _ = false

abbrev pub same_status : Status → Status → Bool
same_status ok ok = true
same_status warning warning = true
same_status error error = true
same_status _ _ = false

abbrev pub same_number : Number → Number → Bool
same_number (thousandths m) (thousandths n) = m == n
same_number (below_zero m) (below_zero n) = m == n
same_number infinite infinite = true
same_number minus_infinite minus_infinite = true
same_number _ _ = false

-- The test result that `{}` stands for
abbrev no_result : TestResult
no_result = record {
  status = warning;
  value = none;
  details = none;
  reason = none;
  source = none;
  checked_at = none;
}

abbrev pub result_or_empty : Option TestResult → TestResult
result_or_empty none = no_result
result_or_empty (some r) = r

-- `Number(checkedAt || 0)`
abbrev pub checked_or_zero : Option Number → Number
checked_or_zero none = thousandths 0
checked_or_zero (some nan) = thousandths 0
checked_or_zero (some n) = n

abbrev pub differs : TestResult → TestResult → Bool
differs r s =
    not (same_status r.status s.status)
    || not (text_or_empty r.value === text_or_empty s.value)
    || not (text_or_empty r.details === text_or_empty s.details)
    || not (text_or_empty r.reason === text_or_empty s.reason)
    || not (text_or_empty r.source === text_or_empty s.source)
    || not (same_number (checked_or_zero r.checked_at) (checked_or_zero s.checked_at))

-- `haveRuntimeTestsChanged`
unfoldable pub have_runtime_tests_changed : Dict TestResult → Dict TestResult → Bool
have_runtime_tests_changed prev next =
    not (length (keys prev) == length (keys next))
    || any (λ id. differs (result_or_empty (lookup id prev)) (result_or_empty (lookup id next)))
        (keys next)

abbrev pub activity_changed : Activity → Activity → Bool
activity_changed a b =
    not (same_bool a.searching b.searching)
    || not (same_bool a.testing b.testing)
    || not (text_or_empty a.phase === text_or_empty b.phase)
    || not (a.last_full_test_at == b.last_full_test_at)
    || not (text_or_empty a.last_full_test_source === text_or_empty b.last_full_test_source)
    || not (a.updated_at == b.updated_at)
