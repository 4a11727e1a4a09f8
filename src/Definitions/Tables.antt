-- ===== src/Definitions/Tables.antt =====
-- The test table and the activity of a robot, from what the backend says
-- (assets/js/modules/dashboard/controllers/runtime/dashboardRuntimeMonitorConfig.js).
use robot_maintanance.Prelude.{
  ℕ, String, false, not, ◌&&◌, ◌||◌, Option, none, some, List, [], ◌∷◌, any, ◌===◌, if◌then◌else◌,
  Dict, lookup, insert, has, ◌≡◌, arith, eq_iff, has-insert,
}
use robot_maintanance.Js.{Value, Number, obj, no_fields, str, thousandths, get, is_object, truthy}
use robot_maintanance.Js.Engine.{Engine, number_of, object_entries, own}
use robot_maintanance.Normalize.{normalize_status, normalize_text}
use robot_maintanance.Fleet.{TestDefinition, Activity, TestResult}
use robot_maintanance.Definitions.{Config, get_robot_definitions_for_type}

-- `s || null`
abbrev pub text_or_null : String → Option String
text_or_null s = if s === "" then none else some s

-- `Number.isFinite(n) && n > 0 ? n : 0`
abbrev pub positive_or_zero : Number → ℕ
positive_or_zero (thousandths n) = n
positive_or_zero _ = 0

-- `normalizeRobotActivity`
unfoldable pub normalize_robot_activity : Engine → Value → Activity
normalize_robot_activity js raw =
    if is_object raw
    then record {
      searching = truthy (get raw "searching");
      testing = truthy (get raw "testing");
      phase = text_or_null (normalize_text js (get raw "phase") "");
      last_full_test_at = positive_or_zero (number_of js (get raw "lastFullTestAt"));
      last_full_test_source = text_or_null (normalize_text js (get raw "lastFullTestSource") "");
      updated_at = positive_or_zero (number_of js (get raw "updatedAt"));
    }
    else record {
      searching = false;
      testing = false;
      phase = none;
      last_full_test_at = 0;
      last_full_test_source = none;
      updated_at = 0;
    }

-- `normalizeText(v, fallback)`, the fallback possibly `undefined`
abbrev text_or : Engine → Value → Option String → Option String
text_or js v fallback = let s = normalize_text js v "" in if s === "" then fallback else some s

-- `normalizeText(fallback, fallback)`
abbrev own_text : Engine → Option String → Option String
own_text js none = none
own_text js (some s) = text_or js (str s) (some s)

-- `formatTestValue`
unfoldable pub format_test_value : Engine → Value → String → TestDefinition → TestResult
format_test_value js raw_tests id def =
    let result = own js raw_tests id in
    if is_object result
    then record {
      status = normalize_status (get result "status");
      value = text_or js (get result "value") def.default_value;
      details = text_or js (get result "details") def.default_details;
      reason = some (normalize_text js (get result "reason") "");
      source = none;
      checked_at = none;
    }
    else record {
      status = def.default_status;
      value = own_text js def.default_value;
      details = own_text js def.default_details;
      reason = some "";
      source = none;
      checked_at = none;
    }

unfoldable pub format_all : Engine → Value → List TestDefinition → Dict TestResult → Dict TestResult
unfolding format_test_value
format_all js raw [] tests = tests
format_all js raw (d ∷ ds) tests =
    format_all js raw ds (insert d.id (format_test_value js raw d.id d) tests)

abbrev backend_test : Engine → Value → TestResult
backend_test js raw = record {
  status = normalize_status (get raw "status");
  value = some (normalize_text js (get raw "value") "n/a");
  details = some (normalize_text js (get raw "details") "Backend populated test");
  reason = some (normalize_text js (get raw "reason") "");
  source = none;
  checked_at = none;
}

unfoldable pub add_backend_tests :
    Engine → List (String × Value) → Dict TestResult → Dict TestResult
add_backend_tests js [] tests = tests
add_backend_tests js ((id, raw) ∷ es) tests =
    add_backend_tests js es
      (if not (has id tests) && is_object raw then insert id (backend_test js raw) tests else tests)

-- The input of the table, or an empty object for anything that is no object.
abbrev pub safe_input : Value → Value
safe_input v = if is_object v then v else obj no_fields

pub record RobotTests : Type 0 where
  pub tests : Dict TestResult
  pub definitions : List TestDefinition

-- `normalizeRobotTests`
unfoldable pub normalize_robot_tests : Engine → Config → Value → Value → RobotTests
unfolding format_all add_backend_tests
normalize_robot_tests js config raw_tests type_id =
    let definitions = get_robot_definitions_for_type js config type_id in
    let v = safe_input raw_tests in
    record {
      tests = add_backend_tests js (object_entries js v) (format_all js v definitions []);
      definitions = definitions;
    }

has-format_all :
    (js : Engine) (raw : Value) (ds : List TestDefinition) (tests : Dict TestResult) (id : String)
    → has id (format_all js raw ds tests) ≡ (has id tests || any (λ d. d.id === id) ds)
unfolding format_all
has-format_all js raw [] tests id = ground arith
has-format_all js raw (d ∷ ds) tests id =
    let r = format_test_value js raw d.id d in
    ground (arith, has-format_all js raw ds (insert d.id r tests) id, has-insert d.id id r tests)

has-add_backend_tests :
    (js : Engine) (es : List (String × Value)) (tests : Dict TestResult) (id : String)
    → has id (add_backend_tests js es tests)
      ≡ (has id tests || any (λ e. e.0 === id && is_object e.1) es)
unfolding add_backend_tests
has-add_backend_tests js [] tests id = ground arith
has-add_backend_tests js ((k, raw) ∷ es) tests id =
    let r = backend_test js raw in
    ground (
      arith,
      eq_iff k id,
      has-add_backend_tests js es (insert k r tests) id,
      has-add_backend_tests js es tests id,
      has-insert k id r tests,
    )

-- The test table of a robot has a result for exactly the ids of the definitions of its type and the
-- ids for which the backend gives an object.
pub normalize_robot_tests-has :
    (js : Engine) (config : Config) (raw type_id : Value) (id : String)
    → has id (normalize_robot_tests js config raw type_id).tests ≡ (
        any (λ d. d.id === id) (get_robot_definitions_for_type js config type_id)
        || any (λ e. e.0 === id && is_object e.1) (object_entries js (safe_input raw)))
unfolding normalize_robot_tests has lookup
normalize_robot_tests-has js config raw type_id id =
    let ds = get_robot_definitions_for_type js config type_id in
    let v = safe_input raw in
    ground (
      arith,
      has-add_backend_tests js (object_entries js v) (format_all js v ds []) id,
      has-format_all js v ds [] id,
    )
