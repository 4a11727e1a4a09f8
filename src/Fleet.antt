-- ===== src/Fleet.antt =====
-- The data that the dashboard keeps of a robot (assets/js/modules/dashboard/controllers).
-- Every number here is a whole number of thousandths, as in `Js.Number`.
pub mod Ids
use robot_maintanance.Prelude.{ℕ, ◌*◌, String, Bool, not, Option, List, Dict, map, filter, ◌===◌}
use robot_maintanance.Js.{Number, Value}
use robot_maintanance.Normalize.{Status, clean}

-- A whole number, in thousandths.
abbrev pub whole : ℕ → ℕ
whole n = n * 1000

-- An entry of `robot.tests`. A key that is left out or `undefined` is `none`.
pub record TestResult : Type 0 where
  pub status : Status
  pub value : Option String
  pub details : Option String
  pub reason : Option String
  pub source : Option String
  pub checked_at : Option Number

-- `robot.activity`, as `normalizeRobotActivity` gives it.
pub record Activity : Type 0 where
  pub searching : Bool
  pub testing : Bool
  pub phase : Option String
  pub last_full_test_at : ℕ
  pub last_full_test_source : Option String
  pub updated_at : ℕ

pub record PossibleResult : Type 0 where
  pub status : Status
  pub value : String
  pub details : String

-- A test definition. The built-in ones leave out the possible results and the defaults; an absent
-- status counts as `warning` wherever it is read.
pub record TestDefinition : Type 0 where
  pub id : String
  pub label : String
  pub icon : String
  pub ok_text : String
  pub fail_text : String
  pub possible_results : List PossibleResult
  pub default_status : Status
  pub default_value : Option String
  pub default_details : Option String

pub record AutoFix : Type 0 where
  pub id : String
  pub label : String
  pub description : String
  pub post_test_ids : List String

-- A step of a debug result.
pub record StepDebug : Type 0 where
  pub id : String
  pub status : Status
  pub value : String
  pub details : String
  pub ms : Number
  pub output : String

-- An entry of `robot.testDebug`.
pub record DebugResult : Type 0 where
  pub id : String
  pub status : Status
  pub value : String
  pub details : String
  pub ms : Number
  pub raw : Value
  pub steps : List StepDebug
  pub run_id : String
  pub started_at : Number
  pub finished_at : Number

pub record Robot : Type 0 where
  pub id : String
  pub name : String
  pub type : String
  pub type_id : String
  pub tests : Dict TestResult
  pub test_definitions : List TestDefinition
  pub auto_fixes : List AutoFix
  pub activity : Activity
  pub test_debug : Dict DebugResult

-- `robotId` of a text and of a robot.
abbrev pub robot_id : String → String
robot_id s = clean s ""

abbrev pub id_of : Robot → String
id_of r = robot_id r.id

-- `map(robotId).filter(Boolean)`
abbrev pub robot_ids : List String → List String
robot_ids ids = filter (λ id. not (id === "")) (map robot_id ids)
