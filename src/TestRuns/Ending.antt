-- ===== src/TestRuns/Ending.antt =====
-- In what state the run of the tests of one robot leaves it, and when it counts as a success.
use robot_maintanance.Prelude.{
  String, Bool, true, false, not, ◌&&◌, ◌||◌, some, is_empty, ◌===◌, if◌then◌else◌, ◌≡◌, ◌≢◌, refl,
  ◌∙◌, arith, eq_iff, contains, contains-delete, if-Holds,
}
use robot_maintanance.Js.{
  Value, undefined, null, bool, num, str, arr, obj, no_items, thousandths, get, array_or_empty,
  is_array,
}
use robot_maintanance.Js.Engine.{Engine}
use robot_maintanance.Fleet.{Robot, id_of, robot_id}
use robot_maintanance.Fleet.Ids.{robot_id-robot_id}
use robot_maintanance.Activities.{
  Activities, Moment, set_robot_testing, is_robot_testing, estimate_countdown,
}
use robot_maintanance.OnlineCheck.{
  OneAnswer, http_error, payload, thrown, run_one_robot_online_check, get_robot_by_id,
}
use robot_maintanance.OnlineCheck.Answers.{is_ok}
use robot_maintanance.Selection.{is_online}
use robot_maintanance.Page.{PageState, Surroundings, testing, searching, set_online}
use robot_maintanance.TestRuns.{
  TestOptions, process_one_robot, process_found, process_robot, go_on, checked_first, run_tests,
  finally_not_testing, record_answer, tests_answer, test_body, test_count, body_field,
}

-- This page itself tests the robot; `isRobotTesting` also counts what the backend reports.
abbrev is_tested_here : String → PageState → Bool
is_tested_here key s = contains key s.activities.testing

abbrev is_searching : String → PageState → Bool
is_searching key s = contains key s.activities.searching

testing-off :
    (t : Moment) (key : String) (s : PageState)
    → robot_id key ≡ key
    → key ≢ ""
    → is_tested_here key (testing t key false undefined s) ≡ false
unfolding set_robot_testing
testing-off t key s e ne = ground (
  arith,
  e,
  ne,
  eq_iff (robot_id key) "",
  contains-delete (robot_id key) key s.activities.testing,
  eq_iff (robot_id key) key,
)

module _ (e : Surroundings) (key : String) (own : robot_id key ≡ key) (ne : key ≢ "") where
  finally-ends :
      (t : Moment) (x : Bool × PageState)
      → is_tested_here key (finally_not_testing t key x).1 ≡ false
  finally-ends t (counts, s) = testing-off t key s own ne

  run_tests-ends :
      (t : Moment) (r : Robot) (o : TestOptions) (answer : OneAnswer) (s : PageState)
      → is_tested_here key (run_tests e t key r o answer s).1 ≡ false
  unfolding run_tests
  run_tests-ends t r o answer s =
      let body = test_body o.default_definitions r o.include_online o.body in
      let countdown =
        num (thousandths (estimate_countdown (test_count (body_field "testIds" body)))) in
      let waited = e.others 2 (testing t key true countdown s) in
      finally-ends (e.moment 3)
        (record_answer e.js (e.moment 3) r (tests_answer e.js (id_of r) answer) waited)

  go_on-ends :
      (r : Robot) (o : TestOptions) (answer : OneAnswer) (x : Bool × PageState)
      → (x.0 ≡ false → is_tested_here key x.1 ≡ false)
      → is_tested_here key (go_on e key r o answer x).1 ≡ false
  go_on-ends r o answer (true, s) h = run_tests-ends (e.moment 2) r o answer s
  go_on-ends r o answer (false, s) h = h refl

  checked_first-ends :
      (countdown : Value) (r : Robot) (check : OneAnswer) (s : PageState)
      → (checked_first e countdown key r check s).0 ≡ false
      → is_tested_here key (checked_first e countdown key r check s).1 ≡ false
  unfolding checked_first
  checked_first-ends countdown r check s =
      let u = run_one_robot_online_check e.js r check in
      let asked = e.others 0 (searching (e.moment 0) key true countdown s) in
      let told = record asked { robots = set_online key u asked.robots } in
      let t = e.moment 1 in
      if-Holds (λ (x : Bool × PageState). x.0 ≡ false → is_tested_here key x.1 ≡ false)
        (is_ok u.status) (true, searching (e.moment 2) key false undefined (e.others 1 told))
        (false, testing t key false undefined (searching t key false undefined told))
        (λ reached stays. cc)
        (λ missed ends. testing-off t key (searching t key false undefined told) own ne)

  process_robot-ends :
      (countdown : Value) (o : TestOptions) (check answer : OneAnswer) (r : Robot) (s : PageState)
      → is_tested_here key (process_robot e countdown o check answer key r s).1 ≡ false
  unfolding process_robot
  process_robot-ends countdown o check answer r s =
      if-Holds (λ (x : Bool × PageState). is_tested_here key x.1 ≡ false) (is_online r)
        (run_tests e (e.moment 0) key r o answer s)
        (go_on e key r o answer (checked_first e countdown key r check s))
        (λ online. run_tests-ends (e.moment 0) r o answer s)
        (λ offline.
          go_on-ends r o answer (checked_first e countdown key r check s)
            (checked_first-ends countdown r check s))

tested_here-off :
    (e : Surroundings) (countdown : Value) (o : TestOptions) (check answer : OneAnswer)
    (id : String) (r : Robot) (s : PageState)
    → robot_id id ≢ ""
    → get_robot_by_id s.robots id ≡ some r
    → is_tested_here (robot_id id) (process_one_robot e countdown o check answer id s).1 ≡ false
unfolding process_one_robot process_found
tested_here-off e countdown o check answer id r s ne found = rw found (
    if-Holds (λ (x : Bool × PageState). is_tested_here (robot_id id) x.1 ≡ false)
      (robot_id id === "") (false, s) (process_robot e countdown o check answer (robot_id id) r s)
      (λ blank. ground (arith, ne, blank, eq_iff (robot_id id) ""))
      (λ named.
        process_robot-ends e (robot_id id) (robot_id-robot_id id) ne countdown o check answer r s))

counted_by_backend :
    (key : String) (a : Activities)
    → robot_id key ≡ key
    → contains key a.testing ≡ false
    → is_robot_testing a key ≡ contains key a.auto_testing
counted_by_backend key a own off = rw (own, off) refl

-- The run of the tests of a robot that is found under an id that is not blank leaves the robot out
-- of the robots that this page tests, on every path: whether the online check or the tests answer,
-- fail or throw, and whatever else the page does while the run waits. The robot counts as tested
-- afterwards exactly where the backend is known to report it so.
pub process_one_robot-ends :
    (e : Surroundings) (countdown : Value) (o : TestOptions) (check answer : OneAnswer)
    (id : String) (r : Robot) (s : PageState)
    → robot_id id ≢ ""
    → get_robot_by_id s.robots id ≡ some r
    → let a = (process_one_robot e countdown o check answer id s).1.activities in
      (contains (robot_id id) a.testing ≡ false)
      × (is_robot_testing a (robot_id id) ≡ contains (robot_id id) a.auto_testing)
process_one_robot-ends e countdown o check answer id r s ne found =
    let off = tested_here-off e countdown o check answer id r s ne found in
    (
      off,
      counted_by_backend (robot_id id)
          (process_one_robot e countdown o check answer id s).1.activities (robot_id-robot_id id)
          off,
    )

-- The answer has results.
abbrev pub has_results : OneAnswer → Bool
has_results (payload v) = not (is_empty (array_or_empty (get v "results")))
has_results _ = false

array_or_empty-or_empty :
    (w : Value) → array_or_empty (if is_array w then w else arr no_items) ≡ array_or_empty w
array_or_empty-or_empty (arr vs) = refl
array_or_empty-or_empty undefined = refl
array_or_empty-or_empty null = refl
array_or_empty-or_empty (bool b) = refl
array_or_empty-or_empty (num n) = refl
array_or_empty-or_empty (str x) = refl
array_or_empty-or_empty (obj fs) = refl

finally-counts :
    (t : Moment) (key : String) (x : Bool × PageState) → (finally_not_testing t key x).0 ≡ x.0
finally-counts t key (counts, s) = refl

record_answer-counts :
    (js : Engine) (t : Moment) (r : Robot) (id : String) (answer : OneAnswer) (s : PageState)
    → (record_answer js t r (tests_answer js id answer) s).0 ≡ has_results answer
unfolding tests_answer record_answer
record_answer-counts js t r id (http_error code message) s = refl
record_answer-counts js t r id (thrown message) s = refl
record_answer-counts js t r id (payload v) s =
    rw (array_or_empty-or_empty (get v "results")) (ground arith)

run_tests-counts :
    (e : Surroundings) (t : Moment) (key : String) (r : Robot) (o : TestOptions)
    (answer : OneAnswer) (s : PageState)
    → (run_tests e t key r o answer s).0 ≡ has_results answer
unfolding run_tests
run_tests-counts e t key r o answer s =
    let body = test_body o.default_definitions r o.include_online o.body in
    let countdown =
      num (thousandths (estimate_countdown (test_count (body_field "testIds" body)))) in
    let waited = e.others 2 (testing t key true countdown s) in
    finally-counts (e.moment 3) key
      (record_answer e.js (e.moment 3) r (tests_answer e.js (id_of r) answer) waited)
    ∙ record_answer-counts e.js (e.moment 3) r (id_of r) answer waited

go_on-counts :
    (e : Surroundings) (key : String) (r : Robot) (o : TestOptions) (answer : OneAnswer)
    (x : Bool × PageState)
    → (go_on e key r o answer x).0 ≡ (x.0 && has_results answer)
go_on-counts e key r o answer (true, s) = run_tests-counts e (e.moment 2) key r o answer s
go_on-counts e key r o answer (false, s) = refl

checked_first-counts :
    (e : Surroundings) (countdown : Value) (key : String) (r : Robot) (check : OneAnswer)
    (s : PageState)
    → (checked_first e countdown key r check s).0
      ≡ is_ok (run_one_robot_online_check e.js r check).status
unfolding checked_first
checked_first-counts e countdown key r check s = ground arith

process_robot-counts :
    (e : Surroundings) (countdown : Value) (o : TestOptions) (check answer : OneAnswer)
    (key : String) (r : Robot) (s : PageState)
    → (process_robot e countdown o check answer key r s).0 ≡ (
        (is_online r || is_ok (run_one_robot_online_check e.js r check).status)
        && has_results answer)
unfolding process_robot
process_robot-counts e countdown o check answer key r s = ground (
  arith,
  run_tests-counts e (e.moment 0) key r o answer s,
  go_on-counts e key r o answer (checked_first e countdown key r check s),
  checked_first-counts e countdown key r check s,
)

-- The run of the tests of a robot that is found under an id that is not blank counts as a success
-- exactly where the robot was online or its online check found it online, and the answer to the
-- tests has results.
pub process_one_robot-counts :
    (e : Surroundings) (countdown : Value) (o : TestOptions) (check answer : OneAnswer)
    (id : String) (r : Robot) (s : PageState)
    → robot_id id ≢ ""
    → get_robot_by_id s.robots id ≡ some r
    → (process_one_robot e countdown o check answer id s).0 ≡ (
        (is_online r || is_ok (run_one_robot_online_check e.js r check).status)
        && has_results answer)
unfolding process_one_robot process_found
process_one_robot-counts e countdown o check answer id r s ne found = rw found (
    ground (
      arith,
      ne,
      eq_iff (robot_id id) "",
      process_robot-counts e countdown o check answer (robot_id id) r s,
    ))
