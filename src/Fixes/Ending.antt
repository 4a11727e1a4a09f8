-- ===== src/Fixes/Ending.antt =====
-- How a fix run ends, and in what state it leaves its robot.
use robot_maintanance.Prelude.{
  ℕ, ◌+◌, ◌*◌, String, Bool, true, false, not, List, [], ◌∷◌, any, ◌===◌, if◌then◌else◌, ◌≡◌, ◌≢◌,
  refl, arith, eq_iff, contains, contains-add, contains-delete, length, if-Holds,
}
use robot_maintanance.Js.{Value, Number, template, undefined, get, array_or_empty, num, thousandths}
use robot_maintanance.Js.Engine.{Engine}
use robot_maintanance.Normalize.{normalize_text}
use robot_maintanance.Fleet.{Robot, id_of, robot_id}
use robot_maintanance.Activities.{
  Moment, set_robot_testing, set_robot_fixing, start_timer, refresh_countdowns, test_step_timeout,
}
use robot_maintanance.OnlineCheck.{
  OneAnswer, http_error, payload, thrown, run_one_robot_online_check,
}
use robot_maintanance.OnlineCheck.Answers.{is_ok}
use robot_maintanance.Selection.{is_online}
use robot_maintanance.Page.{
  PageState, Surroundings, testing, searching, fixing, set_online, http_message,
}
use robot_maintanance.Fixes.{Candidate}
use robot_maintanance.Fixes.Run.{
  FixRun, failed, succeeded, polling, poll_fix, after_start, start_fix, run_auto_fix_for_robot,
  end_fix, fix_events, is_final, run_status, failure_message, record_results,
}

-- An answer after which the polling stops: an error, an exception or a final status.
abbrev pub stops : Engine → OneAnswer → Bool
stops js (http_error code text) = true
stops js (thrown message) = true
stops js (payload v) = is_final js v

abbrev pub is_polling : FixRun → Bool
is_polling (polling s) = true
is_polling _ = false

end_fix-stops :
    (js : Engine) (t : Moment) (id : String) (v : Value) (saw : Bool) (s : PageState)
    → is_polling (end_fix js t id v (saw, s)) ≡ false
unfolding end_fix
end_fix-stops js t id v saw s = ground arith

-- The polling of a fix run goes on exactly as long as the backend answers without an error and
-- without a final status.
pub poll_fix-stops :
    (e : Surroundings) (id : String) (c : Candidate) (n cursor : ℕ) (answers : List OneAnswer)
    (saw : Bool) (s : PageState)
    → is_polling (poll_fix e id c n cursor answers (saw, s)) ≡ not (any (stops e.js) answers)
unfolding poll_fix
poll_fix-stops e id c n cursor [] saw s = refl
poll_fix-stops e id c n cursor (http_error code text ∷ answers) saw s = refl
poll_fix-stops e id c n cursor (thrown message ∷ answers) saw s = refl
poll_fix-stops e id c n cursor (payload v ∷ answers) saw s =
    let t = e.moment (n + 1) in
    let x = fix_events e.js t id c cursor (array_or_empty (get v "events")) (saw, e.others n s) in
    ground (
      arith,
      end_fix-stops e.js t id v x.0 x.1,
      poll_fix-stops e id c (n + 1) (length (array_or_empty (get v "events"))) answers x.0 x.1,
    )

fixing-off :
    (t : Moment) (id : String) (s : PageState)
    → robot_id id ≢ ""
    → contains (robot_id id) (fixing t id false undefined s).activities.fixing ≡ false
unfolding set_robot_fixing
fixing-off t id s ne = ground (
  arith,
  ne,
  eq_iff (robot_id id) "",
  contains-delete (robot_id id) (robot_id id) s.activities.fixing,
  eq_iff (robot_id id) (robot_id id),
)

-- Where the run has succeeded, the robot does not count as being fixed.
abbrev pub EndsFix : String → FixRun → Type 0
EndsFix id (succeeded s) = contains (robot_id id) s.activities.fixing ≡ false
EndsFix id (failed message s) = Unit
EndsFix id (polling s) = Unit

record_results-activities :
    (js : Engine) (t : Moment) (id : String) (v : Value) (s : PageState)
    → (record_results js t id v s).activities ≡ s.activities
record_results-activities js t id v s = ground arith

end_fix-EndsFix :
    (js : Engine) (t : Moment) (id : String) (v : Value) (x : Bool × PageState)
    → robot_id id ≢ ""
    → EndsFix id (end_fix js t id v x)
unfolding end_fix
end_fix-EndsFix js t id v (saw, s) ne =
    let before = if saw then testing t id false undefined s else s in
    let calm = fixing t id false undefined before in
    if-Holds (EndsFix id) (run_status js v === "succeeded")
      (succeeded (record_results js t id v calm)) (failed (failure_message js v) calm)
      (λ ok. rw (record_results-activities js t id v calm) (fixing-off t id before ne))
      (λ fails. tt)

poll_fix-EndsFix :
    (e : Surroundings) (id : String) (c : Candidate) (n cursor : ℕ) (answers : List OneAnswer)
    (x : Bool × PageState)
    → robot_id id ≢ ""
    → EndsFix id (poll_fix e id c n cursor answers x)
unfolding poll_fix
poll_fix-EndsFix e id c n cursor [] x ne = tt
poll_fix-EndsFix e id c n cursor (http_error code text ∷ answers) x ne = tt
poll_fix-EndsFix e id c n cursor (thrown message ∷ answers) x ne = tt
poll_fix-EndsFix e id c n cursor (payload v ∷ answers) (saw, s) ne =
    let events = array_or_empty (get v "events") in
    let x = fix_events e.js (e.moment (n + 1)) id c cursor events (saw, e.others n s) in
    if-Holds (EndsFix id) (is_final e.js v) (end_fix e.js (e.moment (n + 1)) id v x)
      (poll_fix e id c (n + 1) (length events) answers x)
      (λ ends. end_fix-EndsFix e.js (e.moment (n + 1)) id v x ne)
      (λ goes_on. poll_fix-EndsFix e id c (n + 1) (length events) answers x ne)

after_start-EndsFix :
    (e : Surroundings) (id : String) (c : Candidate) (start : OneAnswer) (polls : List OneAnswer)
    (s : PageState)
    → robot_id id ≢ ""
    → EndsFix id (after_start e id c start polls s)
unfolding after_start
after_start-EndsFix e id c (http_error code text) polls s ne = tt
after_start-EndsFix e id c (thrown message) polls s ne = tt
after_start-EndsFix e id c (payload v) polls s ne =
    if-Holds (EndsFix id) (normalize_text e.js (get v "runId") "" === "")
      (failed "Fix run did not return a runId" s) (poll_fix e id c 2 0 polls (false, s))
      (λ fails. tt) (λ starts. poll_fix-EndsFix e id c 2 0 polls (false, s) ne)

start_fix-EndsFix :
    (e : Surroundings) (t : Moment) (id : String) (c : Candidate) (start : OneAnswer)
    (polls : List OneAnswer) (s : PageState)
    → robot_id id ≢ ""
    → EndsFix id (start_fix e t id c start polls s)
unfolding start_fix
start_fix-EndsFix e t id c start polls s ne = after_start-EndsFix e id c start polls _ ne

-- A fix run that succeeds leaves its robot not counted as being fixed, whatever else the page did
-- while the run waited, for a robot whose id is not blank.
pub run_auto_fix-EndsFix :
    (e : Surroundings) (countdown : Value) (r : Robot) (c : Candidate) (check start : OneAnswer)
    (polls : List OneAnswer) (s : PageState)
    → robot_id (id_of r) ≢ ""
    → EndsFix (id_of r) (run_auto_fix_for_robot e countdown r c check start polls s)
unfolding run_auto_fix_for_robot
run_auto_fix-EndsFix e countdown r c check start polls s ne =
    let id = id_of r in
    let u = run_one_robot_online_check e.js r check in
    let told =
      searching (e.moment 1) id false undefined
        (e.others 0 (searching (e.moment 0) id true countdown s)) in
    let checked = record told { robots = set_online id u told.robots } in
    let offline = failed (template ("Robot is offline (" ∷ u.details ∷ ")." ∷ [])) checked in
    let after = start_fix e (e.moment 1) id c start polls checked in
    if-Holds (EndsFix id) (is_online r) (start_fix e (e.moment 0) id c start polls s)
      (if is_ok u.status then after else offline)
      (λ online. start_fix-EndsFix e (e.moment 0) id c start polls s ne)
      (λ no_answer.
        if-Holds (EndsFix id) (is_ok u.status) after offline
          (λ reached. start_fix-EndsFix e (e.moment 1) id c start polls checked ne) (λ missed. tt))

fixing-on :
    (t u : Moment) (id : String) (countdown : Value) (s : PageState)
    → robot_id id ≢ ""
    → contains
        (robot_id id)
        (testing u id false undefined (fixing t id true countdown s)).activities.fixing
      ≡ true
unfolding set_robot_fixing set_robot_testing start_timer refresh_countdowns
fixing-on t u id countdown s ne = ground (
  arith,
  ne,
  eq_iff (robot_id id) "",
  contains-add (robot_id id) (robot_id id) s.activities.fixing,
  eq_iff (robot_id id) (robot_id id),
)

-- Where the start request of a run on an online robot is answered with an error, the run fails,
-- and the robot goes on counting as being fixed if nothing else has changed that meanwhile, for an
-- id that is not blank.
pub refused_start-keeps :
    (e : Surroundings) (countdown : Value) (r : Robot) (c : Candidate) (check : OneAnswer)
    (code : Number) (text : String) (polls : List OneAnswer) (s : PageState)
    → robot_id (id_of r) ≢ ""
    → is_online r ≡ true
    → ((p : PageState) → (e.others 1 p).activities.fixing ≡ p.activities.fixing)
    → (p : PageState) × (run_auto_fix_for_robot e countdown r c check (http_error code text) polls s
        ≡ failed (http_message e.js code text) p)
      × (contains (robot_id (id_of r)) p.activities.fixing ≡ true)
unfolding run_auto_fix_for_robot start_fix after_start
refused_start-keeps e countdown r c check code text polls s ne online calm =
    let t = e.moment 0 in
    let begun =
      testing t (id_of r) false undefined
        (fixing t (id_of r) true (num (thousandths (test_step_timeout * 2))) s) in
    (
      e.others 1 begun,
      rw online refl,
      rw (calm begun) (fixing-on t t (id_of r) (num (thousandths (test_step_timeout * 2))) s ne),
    )
