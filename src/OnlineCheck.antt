-- ===== src/OnlineCheck.antt =====
-- The online check of one robot and of the fleet
-- (assets/js/modules/dashboard/controllers/runtime/dashboardRuntimeFixTests.js). The answers of
-- the backend are arguments, and a check is two steps, up to the request and from its answer on.
-- The estimate that `updateOnlineCheckEstimateFromResults` keeps and the rendering are left out.
pub mod Effects
pub mod Ending
pub mod Answers
use robot_maintanance.Prelude.{
  ℕ, ◌+◌, String, Bool, true, false, not, ◌&&◌, ◌||◌, Option, none, some, List, [], ◌∷◌, any, map,
  filter, find?, is_empty, ◌===◌, if◌then◌else◌, Dict, lookup, insert, contains, add, to_set,
}
use robot_maintanance.Js.{
  Value, undefined, Number, thousandths, get, is_array, array_or_empty, truthy, template, is_finite,
}
use robot_maintanance.Js.Engine.{Engine, number_of}
use robot_maintanance.Normalize.{
  Status, ok, warning, error, clean, normalize_status, normalize_text,
}
use robot_maintanance.Fleet.{Robot, TestResult, id_of}
use robot_maintanance.Activities.{Activities, Moment, is_robot_busy, set_robot_searching_bulk}
use robot_maintanance.Runtime.{finite_or_zero}

-- The result of an online check. `skipped` is `none` where the code leaves the key out.
pub record StatusUpdate : Type 0 where
  pub status : Status
  pub value : String
  pub details : String
  pub skipped : Option Bool

abbrev pub is_skipped : StatusUpdate → Bool
is_skipped u = elim u.skipped [ none ↦ false | some b ↦ b ]

abbrev unreachable : String → StatusUpdate
unreachable details = record {
  status = error;
  value = "unreachable";
  details = details;
  skipped = none;
}

-- How the request of one robot ends: an HTTP error with its code and body, a payload, or an
-- exception with its message.
pub data OneAnswer : Type 0 where
  http_error : Number → String → OneAnswer
  payload : Value → OneAnswer
  thrown : String → OneAnswer

abbrev found_result : Engine → Option Value → StatusUpdate
found_result js none = unreachable "Backend returned no online test result."
found_result js (some result) = record {
  status = normalize_status (get result "status");
  value = normalize_text js (get result "value") "n/a";
  details = normalize_text js (get result "details") "No detail available";
  skipped = some (truthy (get result "skipped"));
}

abbrev answered_update : Engine → String → OneAnswer → StatusUpdate
answered_update js id (http_error code text) = unreachable (
    template (
      "HTTP "
      ∷ js.number_text code
      ∷ ": "
      ∷ (if text === "" then "Unable to run online test" else text)
      ∷ []))
answered_update js id (payload v) =
    found_result js (
      find? (λ r. normalize_text js (get r "robotId") "" === id) (array_or_empty (get v "results")))
answered_update js id (thrown message) =
    unreachable (template ("Unable to run online test: " ∷ message ∷ []))

-- `runOneRobotOnlineCheck`, up to the time `ms` that only the estimate reads
unfoldable pub run_one_robot_online_check : Engine → Robot → OneAnswer → StatusUpdate
run_one_robot_online_check js r answer =
    if id_of r === ""
    then unreachable "Robot identifier is missing for online check."
    else answered_update js (id_of r) answer

pub record OnlineState : Type 0 where
  pub robots : List Robot
  pub activities : Activities
  pub is_online_refresh_in_flight : Bool
  pub is_auto_fix_in_progress : Bool
  pub online_refresh_started_at : ℕ
  pub online_refresh_last_at : ℕ
  pub online_refresh_next_at : ℕ

abbrev pub active_ids : OnlineState → List String
active_ids s = filter (λ id. not (id === "")) (map id_of s.robots)

abbrev pub busy_ids : OnlineState → List String
busy_ids s = filter (is_robot_busy s.activities) (active_ids s)

abbrev pub eligible_ids : OnlineState → List String
eligible_ids s = filter (λ id. not (contains id (busy_ids s))) (active_ids s)

-- `getRobotById`: a later robot with the same id takes the place of an earlier one.
unfoldable pub get_robot_by_id : List Robot → String → Option Robot
get_robot_by_id [] id = none
get_robot_by_id (r ∷ rs) id =
    let later = get_robot_by_id rs id in
    if not (id_of r === "") && id_of r === clean id "" && is_none later then some r else later
  where
    is_none : Option Robot → Bool
    is_none none = true
    is_none (some r) = false

abbrev name_or_id : Option Robot → String → String
name_or_id none id = id
name_or_id (some r) id = clean r.name id

abbrev pub skipped_names : OnlineState → List String
skipped_names s = to_set [] (
    filter (λ n. not (n === ""))
      (map (λ id. name_or_id (get_robot_by_id s.robots id) id) (busy_ids s)))

-- How the check of the fleet begins: it returns at once, or only reports the busy robots, or sends
-- a request for the eligible ids.
pub data Begun : Type 0 where
  ignored : Begun
  all_busy : OnlineState → Begun
  requested : List String → OnlineState → Begun

-- `runOnlineCheckForAllRobots` up to its request, with the countdown and the interval that the
-- monitor configuration gives
unfoldable pub begin_online_check : Moment → Value → ℕ → OnlineState → Begun
begin_online_check t countdown interval s =
    let ids = eligible_ids s in
    if is_empty s.robots || s.is_online_refresh_in_flight || s.is_auto_fix_in_progress
    then ignored
    else if is_empty (active_ids s)
    then ignored
    else if is_empty ids
    then all_busy
        (record s { online_refresh_last_at = t.now; online_refresh_next_at = t.now + interval })
    else requested ids (record s {
      is_online_refresh_in_flight = true;
      online_refresh_started_at = t.now;
      online_refresh_next_at = 0;
      activities = set_robot_searching_bulk t ids true countdown s.activities;
    })
