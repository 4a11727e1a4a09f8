-- ===== src/Fixes/Run.antt =====
-- `runAutoFixForRobot`
-- (assets/js/modules/dashboard/controllers/runtime/dashboardRuntimeFixTests.js). The answers of
-- the backend are arguments, the terminal lines are left out. While the function waits, the rest
-- of the page goes on: `others n` says what it does to the state during the n-th wait, from 0 on,
-- and `moment n` at what time and on what page the code before that wait runs.
use robot_maintanance.Prelude.{
  ℕ, ◌+◌, ◌*◌, ◌/◌, String, Bool, true, false, ◌||◌, some, List, [], ◌∷◌, is_empty, length, ◌===◌,
  if◌then◌else◌,
}
use robot_maintanance.Js.{
  Value, undefined, thousandths, num, obj, no_fields, get, array_or_empty, truthy, template,
}
use robot_maintanance.Js.Engine.{Engine}
use robot_maintanance.Normalize.{normalize_text}
use robot_maintanance.Fleet.{Robot, id_of}
use robot_maintanance.Activities.{Moment, estimate_countdown, test_step_timeout}
use robot_maintanance.OnlineCheck.{
  OneAnswer, http_error, payload, thrown, run_one_robot_online_check,
}
use robot_maintanance.OnlineCheck.Answers.{is_ok}
use robot_maintanance.Results.{update_robot_test_state}
use robot_maintanance.Selection.{is_online}
use robot_maintanance.Page.{
  PageState, Surroundings, testing, searching, fixing, set_online, http_message,
}
use robot_maintanance.Fixes.{Candidate}

-- A run has failed with a message, has succeeded, or goes on polling.
pub data FixRun : Type 0 where
  failed : String → PageState → FixRun
  succeeded polling : PageState → FixRun

-- An event that was not seen before
unfoldable pub fix_event :
    Engine → Moment → String → Candidate → Value → Bool × PageState → Bool × PageState
fix_event js t id c event (saw, s) =
    let type = normalize_text js (get event "type") "" in
    let countdown = num (thousandths (estimate_countdown (some (length c.post_test_ids)))) in
    if type === "post_tests_started"
    then (true, testing t id true countdown (fixing t id false undefined s))
    else if type === "post_tests_finished"
    then (saw, testing t id false undefined s)
    else (saw, s)

unfoldable pub fix_events :
    Engine → Moment → String → Candidate → ℕ → List Value → Bool × PageState → Bool × PageState
unfolding fix_event
fix_events js t id c seen [] x = x
fix_events js t id c ℕ.zero (e ∷ es) x = fix_events js t id c 0 es (fix_event js t id c e x)
fix_events js t id c (ℕ.suc seen) (e ∷ es) x = fix_events js t id c seen es x

abbrev pub run_status : Engine → Value → String
run_status js v = js.lower (normalize_text js (get v "status") "")

unfoldable pub is_final : Engine → Value → Bool
is_final js v =
    run_status js v === "succeeded"
    || run_status js v === "failed"
    || run_status js v === "cancelled"

abbrev pub failure_message : Engine → Value → String
failure_message js v =
    let status = if run_status js v === "" then "unknown" else run_status js v in
    normalize_text js (get v "error") (template ("Auto-fix failed with status: " ∷ status ∷ []))

abbrev pub record_results : Engine → Moment → String → Value → PageState → PageState
record_results js t id v s =
    let run = get v "testRun" in
    let results = array_or_empty (get run "results") in
    if is_empty results then s else record s {
      robots =
          update_robot_test_state js (t.now / 1000) id results
            (if truthy run then run else obj no_fields) s.robots;
    }

-- From the last answer on
unfoldable pub end_fix : Engine → Moment → String → Value → Bool × PageState → FixRun
end_fix js t id v (saw, s) =
    let calm = fixing t id false undefined (if saw then testing t id false undefined s else s) in
    if run_status js v === "succeeded"
    then succeeded (record_results js t id v calm)
    else failed (failure_message js v) calm

-- The polling loop, by the answers that the backend gives: the n-th wait is the one before the
-- first of them.
unfoldable pub poll_fix :
    Surroundings → String → Candidate → ℕ → ℕ → List OneAnswer → Bool × PageState → FixRun
unfolding fix_events is_final end_fix
poll_fix e id c n cursor [] (saw, s) = polling s
poll_fix e id c n cursor (http_error code text ∷ answers) (saw, s) =
    failed (http_message e.js code text) (e.others n s)
poll_fix e id c n cursor (thrown message ∷ answers) (saw, s) = failed message (e.others n s)
poll_fix e id c n cursor (payload v ∷ answers) (saw, s) =
    let t = e.moment (n + 1) in
    let events = array_or_empty (get v "events") in
    let x = fix_events e.js t id c cursor events (saw, e.others n s) in
    let rest = poll_fix e id c (n + 1) (length events) answers x in
    if is_final e.js v then end_fix e.js t id v x else rest

-- From the answer to the start request on
unfoldable pub after_start :
    Surroundings → String → Candidate → OneAnswer → List OneAnswer → PageState → FixRun
unfolding poll_fix
after_start e id c (http_error code text) polls s = failed (http_message e.js code text) s
after_start e id c (thrown message) polls s = failed message s
after_start e id c (payload v) polls s =
    if normalize_text e.js (get v "runId") "" === ""
    then failed "Fix run did not return a runId" s
    else poll_fix e id c 2 0 polls (false, s)

-- From the start request on: the robot counts as fixing while it waits.
unfoldable pub start_fix :
    Surroundings → Moment → String → Candidate → OneAnswer → List OneAnswer → PageState → FixRun
unfolding after_start
start_fix e t id c start polls s =
    let begun =
      testing t id false undefined
        (fixing t id true (num (thousandths (test_step_timeout * 2))) s) in
    after_start e id c start polls (e.others 1 begun)

-- `runAutoFixForRobot`: a robot that is not online is checked first.
unfoldable pub run_auto_fix_for_robot :
    Surroundings
    → Value
    → Robot
    → Candidate
    → OneAnswer
    → OneAnswer
    → List OneAnswer
    → PageState
    → FixRun
unfolding start_fix
run_auto_fix_for_robot e countdown r c check start polls s =
    let id = id_of r in
    let u = run_one_robot_online_check e.js r check in
    let asked = e.others 0 (searching (e.moment 0) id true countdown s) in
    let told = searching (e.moment 1) id false undefined asked in
    let checked = record told { robots = set_online id u told.robots } in
    if is_online r
    then start_fix e (e.moment 0) id c start polls s
    else if is_ok u.status
    then start_fix e (e.moment 1) id c start polls checked
    else failed (template ("Robot is offline (" ∷ u.details ∷ ")." ∷ [])) checked
