-- ===== src/Results/Online.antt =====
-- What `updateRobotTestState` of dashboardRuntimeFixTests.js makes of a run's results.
use robot_maintanance.Prelude.{
  ℕ, String, not, Option, none, some, List, [], ◌∷◌, map, filter, ◌===◌, if◌then◌else◌, Dict, ◌≡◌,
  refl, arith,
}
use robot_maintanance.Js.{Value}
use robot_maintanance.Js.Engine.{Engine}
use robot_maintanance.Fleet.{DebugResult, Robot, TestResult, id_of, robot_id}
use robot_maintanance.Results.{
  result_id, run_result, robot_with_id, updated_tests, with_run, add_debug, debug_table_of,
  update_robot_test_state,
}

abbrev or_else : Option Value → Option Value → Option Value
or_else none v = v
or_else (some r) v = some r

abbrev if_with : Engine → String → Value → Option Value
if_with js id r = if result_id js r === id then some r else none

-- The last result of a run with an id.
abbrev pub last_result : Engine → String → List Value → Option Value
last_result js id [] = none
last_result js id (r ∷ rs) = or_else (last_result js id rs) (if_with js id r)

-- The test table says what the run says, or what it said before.
abbrev pub reported : Engine → Option Value → Option TestResult → Option TestResult
reported js none before = before
reported js (some r) before = some (run_result js r)

with_run-others :
    (id : String) (tests : Dict TestResult) (debug : Dict DebugResult) (rs : List Robot)
    → filter (λ r. not (id_of r === id)) (map (with_run id tests debug) rs)
      ≡ filter (λ r. not (id_of r === id)) rs
with_run-others id tests debug [] = refl
with_run-others id tests debug (r ∷ rs) = ground (arith, with_run-others id tests debug rs)

with_run-ids :
    (id : String) (tests : Dict TestResult) (debug : Dict DebugResult) (rs : List Robot)
    → map (λ r. r.id) (map (with_run id tests debug) rs) ≡ map (λ r. r.id) rs
with_run-ids id tests debug [] = refl
with_run-ids id tests debug (r ∷ rs) = ground (arith, with_run-ids id tests debug rs)

-- A run changes only the robots with its id, and no robot's id.
pub update_robot_test_state-others :
    (js : Engine) (now : ℕ) (robot : String) (results : List Value) (meta : Value)
    (robots : List Robot)
    → (filter
          (λ r. not (id_of r === robot_id robot))
          (update_robot_test_state js now robot results meta robots)
        ≡ filter (λ r. not (id_of r === robot_id robot)) robots)
      × (map (λ r. r.id) (update_robot_test_state js now robot results meta robots)
          ≡ map (λ r. r.id) robots)
unfolding update_robot_test_state
update_robot_test_state-others js now robot results meta robots =
    let id = robot_id robot in
    let tests = updated_tests js now id results robots in
    let debug = add_debug js meta results (debug_table_of (robot_with_id id robots)) in
    (
      ground (arith, with_run-others id tests debug robots),
      ground (arith, with_run-ids id tests debug robots),
    )
