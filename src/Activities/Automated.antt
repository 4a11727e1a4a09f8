-- ===== src/Activities/Automated.antt =====
-- The activities that the backend reports: `syncAutomatedRobotActivityFromState` of
-- dashboardRuntimeFleetView.js.
use robot_maintanance.Prelude.{
  ℕ, String, ◌||◌, List, [], ◌∷◌, is_empty, ◌===◌, if◌then◌else◌, Dict, insert, erase, contains,
  add,
}
use robot_maintanance.Fleet.{Robot, id_of}
use robot_maintanance.Activities.{
  scanning, finding, Countdown, Activities, test_step_timeout, online_check_timeout, stop_timer,
  start_timer, countdown_of, Moment, is_local,
}

-- What the loop over the robots in `syncAutomatedRobotActivityFromState` fills.
pub record AutoSync : Type 0 where
  pub next_searching : List String
  pub next_testing : List String
  pub next_activity : List String
  pub next_countdowns : Dict Countdown

abbrev pub mark_auto_searching : ℕ → String → AutoSync → AutoSync
mark_auto_searching now id s = record s {
  next_searching = add id s.next_searching;
  next_activity = add id s.next_activity;
  next_countdowns = insert id (countdown_of finding now online_check_timeout) s.next_countdowns;
}

abbrev pub mark_auto_testing : ℕ → String → AutoSync → AutoSync
mark_auto_testing now id s = record s {
  next_testing = add id s.next_testing;
  next_activity = add id s.next_activity;
  next_countdowns = insert id (countdown_of scanning now test_step_timeout) s.next_countdowns;
}

unfoldable pub sync_robot : Activities → ℕ → Robot → AutoSync → AutoSync
sync_robot a now r s =
    let id = id_of r in
    if id === "" || is_local a id
    then s
    else (let s' = if r.activity.searching then mark_auto_searching now id s else s in
        if r.activity.testing then mark_auto_testing now id s' else s')

unfoldable pub sync_robots : Activities → ℕ → List Robot → AutoSync → AutoSync
unfolding sync_robot
sync_robots a now [] s = s
sync_robots a now (r ∷ rs) s = sync_robots a now rs (sync_robot a now r s)

-- The loop over the robots that were active before.
unfoldable pub drop_stale : Activities → List String → List String → Dict Countdown → Dict Countdown
drop_stale a next [] cs = cs
drop_stale a next (id ∷ ids) cs =
    drop_stale a next ids (if contains id next || is_local a id then cs else erase id cs)

abbrev pub sync_start : Activities → AutoSync
sync_start a = record {
  next_searching = [];
  next_testing = [];
  next_activity = [];
  next_countdowns = a.countdowns;
}

-- `syncAutomatedRobotActivityFromState` up to its last test
unfoldable pub synced : ℕ → List Robot → Activities → Activities
unfolding sync_robots drop_stale
synced now robots a =
    let s = sync_robots a now robots (sync_start a) in
    record a {
      auto_searching = s.next_searching;
      auto_testing = s.next_testing;
      auto_activity = s.next_activity;
      countdowns = drop_stale a s.next_activity a.auto_activity s.next_countdowns;
    }

-- `syncAutomatedRobotActivityFromState`
unfoldable pub sync_automated : Moment → List Robot → Activities → Activities
unfolding synced start_timer
sync_automated t robots a =
    let a' = synced t.now robots a in
    if is_empty a'.countdowns then stop_timer a' else start_timer t.nodes a'
