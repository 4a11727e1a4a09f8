-- ===== src/TestRuns.antt =====
-- `runManualTests`
-- (assets/js/modules/dashboard/controllers/runtime/dashboardRuntimeDetailShell.js) and
-- `runRobotTestsForRobot` (dashboardRuntimeFixTests.js). The answers of the backend are arguments,
-- the terminal lines are left out. `others n` of the surroundings is what the rest of the page
-- does during the wait for the online check (0), for the delay after it (1) and for the tests (2).
pub mod Ending
pub mod Starting
use robot_maintanance.Prelude.{
  ℕ, ◌+◌, ◌*◌, ◌/◌, String, Bool, true, false, not, ◌&&◌, ◌||◌, Option, none, some, List, [], ◌∷◌,
  is_empty, length, ◌===◌, if◌then◌else◌, Dict, lookup, insert,
}
use robot_maintanance.Js.{
  Value, undefined, str, num, arr, obj, no_items, item, no_fields, field, Items, thousandths, get,
  is_array, array_or_empty,
}
use robot_maintanance.Js.Engine.{Engine, number_of}
use robot_maintanance.Normalize.{normalize_text}
use robot_maintanance.Fleet.{Robot, TestDefinition, id_of, robot_id}
use robot_maintanance.Activities.{Moment, estimate_countdown}
use robot_maintanance.Runtime.{finite_or_zero}
use robot_maintanance.OnlineCheck.{
  OneAnswer, http_error, payload, thrown, run_one_robot_online_check, get_robot_by_id,
}
use robot_maintanance.OnlineCheck.Answers.{is_ok}
use robot_maintanance.Results.{update_robot_test_state}
use robot_maintanance.Selection.{
  Selection, RunOptions, is_online, get_robot_ids_for_run, get_configured_default_test_ids,
}
use robot_maintanance.Page.{PageState, Surroundings, testing, searching, set_online}
use robot_maintanance.Workers.{Pool, start_pool, worker_count}

-- What the buttons that start a run read: the two flags and the selection.
pub record RunState : Type 0 where
  pub is_test_run_in_progress : Bool
  pub is_auto_fix_in_progress : Bool
  pub selection : Selection

-- A run is refused, or goes on with its pool of workers.
pub data RunBegun : Type 0 where
  refused : RunState → RunBegun
  running : Pool → RunState → RunBegun

-- `runManualTests` up to the workers. The ids for the run are read, and selected where the options
-- say so, before the test that there are any.
unfoldable pub begin_manual_tests : ℕ → RunOptions → RunState → RunBegun
begin_manual_tests parallelism options s =
    let x = get_robot_ids_for_run options s.selection in
    if s.is_test_run_in_progress || s.is_auto_fix_in_progress
    then refused s
    else if is_empty x.0
    then refused (record s { selection = x.1 })
    else running (start_pool (worker_count parallelism x.0) x.0)
        (record s { is_test_run_in_progress = true; selection = x.1 })

-- The `finally` of `runManualTests`
abbrev pub end_manual_tests : RunState → RunState
end_manual_tests s = record s { is_test_run_in_progress = false }

-- The fields of `options.body`
abbrev pub body_field : String → Dict Value → Value
body_field name body = elim (lookup name body) [ none ↦ undefined | some v ↦ v ]

abbrev text_items : List String → Items
text_items [] = no_items
text_items (x ∷ xs) = item (str x) (text_items xs)

-- The test ids of the request: those that are given, or else the configured ones.
unfoldable pub test_body : List TestDefinition → Robot → Bool → Dict Value → Dict Value
test_body defaults r include_online body =
    let ids = get_configured_default_test_ids defaults r include_online in
    if is_empty (array_or_empty (body_field "testIds" body)) && not (is_empty ids)
    then insert "testIds" (arr (text_items ids)) body
    else body

abbrev pub test_count : Value → Option ℕ
test_count v = if is_array v then some (length (array_or_empty v)) else none

-- The body that `runRobotTestsForRobot` sends, with the session of the page
unfoldable pub tests_request : Engine → String → Dict Value → Dict Value
tests_request js session body =
    insert "pageSessionId" (str (normalize_text js (body_field "pageSessionId" body) session)) body

-- What `runRobotTestsForRobot` returns: nothing where it throws.
unfoldable pub tests_answer : Engine → String → OneAnswer → Option Value
tests_answer js id (http_error code message) = none
tests_answer js id (thrown message) = none
tests_answer js id (payload v) = some (
    obj (
      field "robotId" (str id) (
        field "runId" (str (normalize_text js (get v "runId") "")) (
          field "startedAt" (num (finite_or_zero (number_of js (get v "startedAt")))) (
            field "finishedAt" (num (finite_or_zero (number_of js (get v "finishedAt")))) (
              field "results" (if is_array (get v "results") then get v "results" else arr no_items)
                no_fields))))))

-- What the run of one robot comes to, before its `finally`: whether it counts as a success, and
-- the state.
unfoldable pub record_answer : Engine → Moment → Robot → Option Value → PageState → Bool × PageState
record_answer js t r none s = (false, s)
record_answer js t r (some result) s =
    let results = array_or_empty (get result "results") in
    if is_empty results then (false, s) else (
      true,
      record s {
        robots = update_robot_test_state js (t.now / 1000) (id_of r) results result s.robots;
      },
    )

abbrev finally_not_testing : Moment → String → Bool × PageState → Bool × PageState
finally_not_testing t key (counts, s) = (counts, testing t key false undefined s)

-- The options of a run that the processing of a robot reads, with the definitions of the page.
pub record TestOptions : Type 0 where
  pub body : Dict Value
  pub include_online : Bool
  pub default_definitions : List TestDefinition

-- The tests of a robot, from the moment on at which the request is sent
unfoldable pub run_tests :
    Surroundings → Moment → String → Robot → TestOptions → OneAnswer → PageState → Bool × PageState
unfolding test_body tests_answer record_answer
run_tests e t key r o answer s =
    let body = test_body o.default_definitions r o.include_online o.body in
    let countdown =
      num (thousandths (estimate_countdown (test_count (body_field "testIds" body)))) in
    let waited = e.others 2 (testing t key true countdown s) in
    finally_not_testing (e.moment 3) key
      (record_answer e.js (e.moment 3) r (tests_answer e.js (id_of r) answer) waited)

-- A robot that was not online, after the online check
unfoldable pub checked_first :
    Surroundings → Value → String → Robot → OneAnswer → PageState → Bool × PageState
checked_first e countdown key r check s =
    let u = run_one_robot_online_check e.js r check in
    let asked = e.others 0 (searching (e.moment 0) key true countdown s) in
    let told = record asked { robots = set_online key u asked.robots } in
    let t = e.moment 1 in
    if is_ok u.status
    then (true, searching (e.moment 2) key false undefined (e.others 1 told))
    else (false, testing t key false undefined (searching t key false undefined told))

abbrev pub go_on :
    Surroundings → String → Robot → TestOptions → OneAnswer → Bool × PageState → Bool × PageState
go_on e key r o answer (reached, s) =
    if reached then run_tests e (e.moment 2) key r o answer s else (false, s)

-- `processOneRobot` of a robot that is there
unfoldable pub process_robot :
    Surroundings
    → Value
    → TestOptions
    → OneAnswer
    → OneAnswer
    → String
    → Robot
    → PageState
    → Bool × PageState
unfolding run_tests checked_first
process_robot e countdown o check answer key r s =
    if is_online r
    then run_tests e (e.moment 0) key r o answer s
    else go_on e key r o answer (checked_first e countdown key r check s)

abbrev pub process_found :
    Surroundings
    → Value
    → TestOptions
    → OneAnswer
    → OneAnswer
    → String
    → Option Robot
    → PageState
    → Bool × PageState
unfolding process_robot
process_found e countdown o check answer key none s = (false, s)
process_found e countdown o check answer key (some r) s =
    if key === "" then (false, s) else process_robot e countdown o check answer key r s

-- `processOneRobot`
unfoldable pub process_one_robot :
    Surroundings
    → Value
    → TestOptions
    → OneAnswer
    → OneAnswer
    → String
    → PageState
    → Bool × PageState
unfolding get_robot_by_id
process_one_robot e countdown o check answer id s =
    process_found e countdown o check answer (robot_id id) (get_robot_by_id s.robots id) s
