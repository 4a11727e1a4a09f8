-- ===== src/Definitions.antt =====
-- The definitions that robot types configure, and the test table of a robot
-- (assets/js/config/app-defaults.js and
-- assets/js/modules/dashboard/controllers/runtime/dashboardRuntimeMonitorConfig.js).
pub mod Named
pub mod Tables
use robot_maintanance.Prelude.{
  ℕ, String, Bool, true, false, not, ◌&&◌, ◌||◌, Option, none, some, List, [], ◌∷◌, map, is_empty,
  filter, find?, present, ◌===◌, if◌then◌else◌, Dict, lookup, insert, has,
}
use robot_maintanance.Js.{
  Value, Number, undefined, null, obj, arr, str, num, thousandths, below_zero, get, array_or_empty,
  is_object, is_array, truthy,
}
use robot_maintanance.Js.Engine.{Engine, number_of, object_entries, own}
use robot_maintanance.Normalize.{
  Status, warning, clean, normalize_status, normalize_text, normalize_type_id,
}
use robot_maintanance.Fleet.{PossibleResult, TestDefinition, AutoFix, Activity, TestResult}

abbrev built_in : String → String → String → String → String → TestDefinition
built_in id label icon ok_text fail_text = record {
  id = id;
  label = label;
  icon = icon;
  ok_text = ok_text;
  fail_text = fail_text;
  possible_results = [];
  default_status = warning;
  default_value = none;
  default_details = none;
}

abbrev pub default_test_definitions : List TestDefinition
default_test_definitions =
    built_in "online" "Online" "🛰\u{fe0f}" "SSH reachable and authenticated"
      "SSH unavailable or authentication failed"
    ∷ built_in "general" "General Topics" "📡" "All general topics present" "Missing general topics"
    ∷ built_in "battery" "Battery" "🔋" "Voltage and temperature in range"
        "Low voltage or abnormal discharge"
    ∷ built_in "movement" "Movement" "🛞" "All movement topics present" "Missing movement topics"
    ∷ built_in "proximity" "Proximity Sensors" "👁\u{fe0f}" "All proximity sensors clear"
        "One or more sensors unavailable"
    ∷ built_in "lidar" "LiDAR" "🌐" "Scan stream stable" "No scan frames or frame corruption"
    ∷ built_in "camera" "Camera" "📷" "Image stream healthy" "Camera stream interrupted"
    ∷ []

-- `normalizePossibleResult`
abbrev pub normalize_possible_result : Engine → Value → Option PossibleResult
normalize_possible_result js raw =
    if is_object raw
    then some (record {
      status = normalize_status (get raw "status");
      value = normalize_text js (get raw "value") "n/a";
      details = normalize_text js (get raw "details") "No detail available";
    })
    else none

abbrev first_result : List PossibleResult → PossibleResult
first_result [] = record { status = warning; value = "n/a"; details = "Awaiting check result" }
first_result (r ∷ rs) = r

-- `normalizeTestDefinition`
unfoldable pub normalize_test_definition : Engine → Value → Option TestDefinition
normalize_test_definition js raw =
    let id = normalize_text js (get raw "id") "" in
    let results =
      present (map (normalize_possible_result js) (array_or_empty (get raw "possibleResults"))) in
    if not (is_object raw) || id === ""
    then none
    else some (record {
      id = id;
      label = normalize_text js (get raw "label") id;
      icon = normalize_text js (get raw "icon") "⚙\u{fe0f}";
      ok_text = normalize_text js (get raw "okText") "Healthy";
      fail_text = normalize_text js (get raw "failText") "Needs attention";
      possible_results = results;
      default_status = normalize_status (get raw "defaultStatus");
      default_value =
          some (normalize_text js (get raw "defaultValue") (first_result results).value);
      default_details =
          some (normalize_text js (get raw "defaultDetails") (first_result results).details);
    })

-- `list.map((item) => normalizeText(item, '')).filter(Boolean)` of a list, or no entries
abbrev pub text_list : Engine → Value → List String
text_list js v =
    filter (λ s. not (s === "")) (map (λ item. normalize_text js item "") (array_or_empty v))

-- `normalizeAutoFixDefinition`
unfoldable pub normalize_auto_fix_definition : Engine → Value → Option AutoFix
normalize_auto_fix_definition js raw =
    let id = normalize_text js (get raw "id") "" in
    if not (is_object raw) || id === ""
    then none
    else some (record {
      id = id;
      label = normalize_text js (get raw "label") id;
      description = normalize_text js (get raw "description") "";
      post_test_ids = text_list js (get raw "postTestIds");
    })

pub record Model : Type 0 where
  pub file_name : String
  pub path_to_quality_folders : String

pub record RobotType : Type 0 where
  pub type_id : String
  pub type_key : String
  pub label : String
  pub topics : List String
  pub tests : List TestDefinition
  pub auto_fixes : List AutoFix
  pub model : Option Model

abbrev model_of : Engine → Value → Option Model
model_of js raw =
    let file = normalize_text js (get raw "file_name") "" in
    let path = normalize_text js (get raw "path_to_quality_folders") "" in
    if file === "" && path === ""
    then none
    else some (record { file_name = file; path_to_quality_folders = path })

-- The entry of a robot type in `normalizeRobotTypeConfig`
unfoldable pub normalize_robot_type : Engine → Value → Option RobotType
unfolding normalize_test_definition normalize_auto_fix_definition
normalize_robot_type js entry =
    let name = normalize_text js (get entry "name") "" in
    let type_id =
      normalize_text js (get entry "typeId") (normalize_text js (get entry "id") name) in
    if not (is_object entry) || type_id === ""
    then none
    else some (record {
      type_id = type_id;
      type_key = normalize_type_id js (str type_id);
      label = normalize_text js (get entry "label") (normalize_text js (get entry "name") type_id);
      topics = text_list js (get entry "topics");
      tests = present (map (normalize_test_definition js) (array_or_empty (get entry "tests")));
      auto_fixes =
          present (map (normalize_auto_fix_definition js) (array_or_empty (get entry "autoFixes")));
      model = model_of js (get entry "model");
    })

abbrev pub config_entries : Value → List Value
config_entries payload =
    let types = get payload "robotTypes" in
    if is_array types then array_or_empty types else array_or_empty payload

-- `normalizeRobotTypeConfig`
unfoldable pub normalize_robot_type_config : Engine → Value → List RobotType
unfolding normalize_robot_type
normalize_robot_type_config js payload =
    present (map (normalize_robot_type js) (config_entries payload))

-- `buildGlobalTestDefinitions`: every field of a configured definition replaces the built-in one.
abbrev set_definitions : Dict TestDefinition → List TestDefinition → Dict TestDefinition
set_definitions m [] = m
set_definitions m (d ∷ ds) = set_definitions (insert d.id d m) ds

abbrev set_type_definitions : Dict TestDefinition → List RobotType → Dict TestDefinition
set_type_definitions m [] = m
set_type_definitions m (t ∷ ts) = set_type_definitions (set_definitions m t.tests) ts

unfoldable pub build_global_test_definitions : List RobotType → List TestDefinition
build_global_test_definitions types =
    map (λ (k, d). d) (set_type_definitions (set_definitions [] default_test_definitions) types)

-- `env.ROBOT_TYPES`, `env.ROBOT_TYPE_BY_ID` and `env.TEST_DEFINITIONS`
pub record Config : Type 0 where
  pub robot_types : List RobotType
  pub robot_type_by_id : Dict RobotType
  pub test_definitions : List TestDefinition

abbrev index_types : Engine → Dict RobotType → List RobotType → Dict RobotType
index_types js m [] = m
index_types js m (t ∷ ts) =
    index_types js (insert (normalize_type_id js (str t.label)) t (insert t.type_key t m)) ts

-- `setRobotTypeDefinitions`
unfoldable pub set_robot_type_definitions : Engine → Value → Config
unfolding normalize_robot_type_config build_global_test_definitions
set_robot_type_definitions js payload =
    let types = normalize_robot_type_config js payload in
    record {
      robot_types = types;
      robot_type_by_id = index_types js [] types;
      test_definitions = build_global_test_definitions types;
    }

-- `getRobotTypeConfig`
unfoldable pub get_robot_type_config : Engine → Config → Value → Option RobotType
get_robot_type_config js config type_id =
    lookup (normalize_type_id js type_id) config.robot_type_by_id

abbrev pub own_or_default : Option RobotType → List TestDefinition
own_or_default none = default_test_definitions
own_or_default (some t) = if is_empty t.tests then default_test_definitions else t.tests

-- `getRobotDefinitionsForType`
unfoldable pub get_robot_definitions_for_type : Engine → Config → Value → List TestDefinition
unfolding get_robot_type_config
get_robot_definitions_for_type js config type_id =
    own_or_default (get_robot_type_config js config type_id)

-- `getAutoFixesForType`
unfoldable pub get_auto_fixes_for_type : Engine → Config → Value → List AutoFix
unfolding get_robot_type_config
get_auto_fixes_for_type js config type_id = elim (get_robot_type_config js config type_id) [
  | none ↦ []
  | some t ↦ t.auto_fixes
]
