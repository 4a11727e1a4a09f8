-- ===== src/Examples/Runs.antt =====
-- The theorems on the runs of fixes and tests, applied.
use robot_maintanance.Prelude.{
  ◌<◌, String, Bool, true, false, ◌&&◌, ◌||◌, none, some, [], ◌∷◌, ◌≡◌, ◌≢◌, ◌⊎◌, refl, contains,
  lookup, All,
}
use robot_maintanance.Js.{
  undefined, str, arr, obj, item, no_items, field, no_fields, thousandths, trim,
}
use robot_maintanance.Normalize.{ok, clean, normalize_status}
use robot_maintanance.Fleet.{Robot, id_of, robot_id}
use robot_maintanance.OnlineCheck.{
  OneAnswer, http_error, payload, thrown, get_robot_by_id, run_one_robot_online_check,
}
use robot_maintanance.OnlineCheck.Answers.{is_ok}
use robot_maintanance.Selection.{RunOptions, is_online, get_robot_ids_for_run}
use robot_maintanance.Page.{PageState, Surroundings, http_message}
use robot_maintanance.Fixes.{Candidate}
use robot_maintanance.Fixes.Run.{failed, run_auto_fix_for_robot}
use robot_maintanance.Fixes.Ending.{EndsFix, run_auto_fix-EndsFix, refused_start-keeps}
use robot_maintanance.Workers.{
  Pool, PoolStep, takes, settles, take, settle, Running, begun, later, start_pool, worker_count,
  IsOver,
}
use robot_maintanance.Workers.Ending.{in_order, remaining, Running-ends}
use robot_maintanance.TestRuns.{
  TestOptions, process_one_robot, RunState, running, begin_manual_tests,
}
use robot_maintanance.TestRuns.Ending.{
  has_results, process_one_robot-ends, process_one_robot-counts,
}
use robot_maintanance.Activities.{is_robot_testing}
use robot_maintanance.TestRuns.Starting.{manual_run-counts}
use robot_maintanance.Examples.{plain, robot, idle, busy, moment, result}

abbrev rover : Robot
rover = record (robot "r1" idle) {
  tests =
      (
        "online",
        record {
          status = ok;
          value = some "reachable";
          details = some "";
          reason = some "";
          source = none;
          checked_at = none;
        },
      )
      ∷ [];
}

abbrev page : PageState
page = record { robots = rover ∷ []; activities = busy }

-- Nothing else happens on the page.
abbrev quiet : Surroundings
quiet = record { js = plain; others = λ n s. s; moment = λ n. moment }

rover_named : robot_id (id_of rover) ≢ ""
unfolding clean trim
rover_named e = cc

rover_online : is_online rover ≡ true
unfolding normalize_status lookup
rover_online = refl

abbrev restart : Candidate
restart = record {
  key = "rover:restart";
  id = "restart";
  label = "Restart";
  description = "";
  post_test_ids = "battery" ∷ [];
  type_label = "rover";
  robot_ids = "r1" ∷ [];
}

abbrev with_run_id : OneAnswer
with_run_id = payload (obj (field "runId" (str "run-1") no_fields))

abbrev with_status : String → OneAnswer
with_status status = payload (obj (field "status" (str status) no_fields))

run_auto_fix-EndsFix_example : EndsFix (id_of rover) (
    run_auto_fix_for_robot quiet undefined rover restart
      (thrown "")
      with_run_id
      (with_status "running" ∷ with_status "succeeded" ∷ [])
      page)
run_auto_fix-EndsFix_example =
    run_auto_fix-EndsFix quiet undefined rover restart (thrown "") with_run_id
      (with_status "running" ∷ with_status "succeeded" ∷ []) page rover_named

refused_start-keeps_example :
    (p : PageState) × (run_auto_fix_for_robot quiet undefined rover restart
        (thrown "")
        (http_error (thousandths 500000) "no such fix")
        []
        page
      ≡ failed (http_message plain (thousandths 500000) "no such fix") p)
    × (contains (robot_id (id_of rover)) p.activities.fixing ≡ true)
refused_start-keeps_example =
    refused_start-keeps quiet undefined rover restart (thrown "") (thousandths 500000) "no such fix"
      [] page rover_named rover_online (λ p. refl)

abbrev options : TestOptions
options = record { body = []; include_online = false; default_definitions = [] }

abbrev with_results : OneAnswer
with_results =
    payload (obj (field "results" (arr (item (result "id" "battery" "ok") no_items)) no_fields))

r1_named : robot_id "r1" ≢ ""
unfolding clean trim
r1_named e = cc

rover_found : get_robot_by_id page.robots "r1" ≡ some rover
unfolding get_robot_by_id clean trim
rover_found = refl

process_one_robot-ends_example :
    let a = (process_one_robot quiet undefined options (thrown "") with_results "r1" page).1 in
    (contains (robot_id "r1") a.activities.testing ≡ false)
    × (is_robot_testing a.activities (robot_id "r1")
        ≡ contains (robot_id "r1") a.activities.auto_testing)
process_one_robot-ends_example =
    process_one_robot-ends quiet undefined options (thrown "") with_results "r1" rover page r1_named
      rover_found

process_one_robot-counts_example :
    (process_one_robot quiet undefined options (thrown "") with_results "r1" page).0 ≡ (
      (is_online rover || is_ok (run_one_robot_online_check plain rover (thrown "")).status)
      && has_results with_results)
process_one_robot-counts_example =
    process_one_robot-counts quiet undefined options (thrown "") with_results "r1" rover page
      r1_named rover_found

abbrev run_options : RunOptions
run_options = record {
  auto_select_online_when_empty = true;
  fallback_to_active = false;
  detail_robot_id = "";
}

abbrev ready : RunState
ready = record {
  is_test_run_in_progress = false;
  is_auto_fix_in_progress = false;
  selection = record { robots = rover ∷ []; selected = "r1" ∷ [] };
}

abbrev one_worker : Pool
one_worker = start_pool 1 ("r1" ∷ [])

starts :
    begin_manual_tests 8 run_options ready
    ≡ running one_worker (record ready { is_test_run_in_progress = true })
unfolding begin_manual_tests get_robot_ids_for_run clean trim contains worker_count
starts = refl

-- The worker takes the robot, tests it and leaves.
abbrev well : String → Bool
well id = true

abbrev taking : Pool
unfolding take
taking = take 0 one_worker

abbrev tested : Pool
unfolding settle
tested = settle [] [] true taking

abbrev left_over : Pool
unfolding take
left_over = take 0 tested

its_run : Running well one_worker.free one_worker.queue left_over
unfolding take settle taking tested left_over
its_run =
    later tested left_over
      (later taking tested (later one_worker taking begun (takes 0 one_worker refl))
        (settles [] [] "r1" taking refl))
      (takes 0 tested refl)

its_end : IsOver one_worker.free left_over
unfolding take settle taking tested left_over
its_end = refl

manual_run-counts_example :
    (left_over.success_count, left_over.failure_count) ≡ in_order well one_worker.queue
manual_run-counts_example =
    manual_run-counts 8 run_options ready (record ready { is_test_run_in_progress = true })
      one_worker left_over well starts its_run its_end

two_named : All (λ (id : String). id ≢ "") ("r1" ∷ "r2" ∷ [])
two_named = ((λ e. cc), ((λ e. cc), tt))

Running-ends_example :
    (IsOver
        (worker_count 8 ("r1" ∷ "r2" ∷ []))
        (start_pool (worker_count 8 ("r1" ∷ "r2" ∷ [])) ("r1" ∷ "r2" ∷ []))
      ⊎ ((q : Pool) × PoolStep well
            (start_pool (worker_count 8 ("r1" ∷ "r2" ∷ [])) ("r1" ∷ "r2" ∷ []))
            q))
    × ((q : Pool)
        → PoolStep well (start_pool (worker_count 8 ("r1" ∷ "r2" ∷ [])) ("r1" ∷ "r2" ∷ [])) q
        → remaining q
          < remaining (start_pool (worker_count 8 ("r1" ∷ "r2" ∷ [])) ("r1" ∷ "r2" ∷ [])))
Running-ends_example =
    Running-ends well 8 ("r1" ∷ "r2" ∷ [])
      (start_pool (worker_count 8 ("r1" ∷ "r2" ∷ [])) ("r1" ∷ "r2" ∷ [])) two_named begun
