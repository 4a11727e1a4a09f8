-- ===== src/Activities/Auto.antt =====
-- `syncAutomatedRobotActivityFromState` of dashboardRuntimeFleetView.js.
use robot_maintanance.Prelude.{
  ℕ, String, Bool, true, not, List, [], ◌∷◌, is_empty, Dict, insert, erase, has-insert, has-erase,
  contains-add, contains, add, eq_iff, if-Holds, ◌≡◌, arith, ◌===◌, any, has, ◌&&◌, ◌||◌,
}
use robot_maintanance.Fleet.{Robot, id_of}
use robot_maintanance.Activities.{
  Activities, Countdown, finding, scanning, Moment, countdown_of, start_timer, refresh_countdowns,
  is_local, test_step_timeout, online_check_timeout,
}
use robot_maintanance.Activities.Automated.{
  sync_robot, sync_robots, drop_stale, AutoSync, sync_start, synced, sync_automated,
}
use robot_maintanance.Activities.Timer.{IsTimed}
use robot_maintanance.Activities.Owners.{IsValid}
use robot_maintanance.Activities.Bulk.{IsOwned, begin-IsValid}

-- A robot of the list has this id and searches by its own report.
abbrev pub reports_searching : Activities → List Robot → String → Bool
reports_searching a rs id =
    not (id === "") && not (is_local a id) && any (λ r. id_of r === id && r.activity.searching) rs

abbrev pub reports_testing : Activities → List Robot → String → Bool
reports_testing a rs id =
    not (id === "") && not (is_local a id) && any (λ r. id_of r === id && r.activity.testing) rs

sync_robots-searching :
    (a : Activities) (now : ℕ) (rs : List Robot) (s : AutoSync) (id : String)
    → contains id (sync_robots a now rs s).next_searching
      ≡ (contains id s.next_searching || reports_searching a rs id)
unfolding sync_robots sync_robot
sync_robots-searching a now [] s id = ground (arith)
sync_robots-searching a now (r ∷ rs) s id = ground (
  arith,
  sync_robots-searching a now rs (sync_robot a now r s) id,
  eq_iff (id_of r) id,
  contains-add (id_of r) id s.next_searching,
)

sync_robots-testing :
    (a : Activities) (now : ℕ) (rs : List Robot) (s : AutoSync) (id : String)
    → contains id (sync_robots a now rs s).next_testing
      ≡ (contains id s.next_testing || reports_testing a rs id)
unfolding sync_robots sync_robot
sync_robots-testing a now [] s id = ground (arith)
sync_robots-testing a now (r ∷ rs) s id = ground (
  arith,
  sync_robots-testing a now rs (sync_robot a now r s) id,
  eq_iff (id_of r) id,
  contains-add (id_of r) id s.next_testing,
)

sync_robot-countdowns :
    (a : Activities) (now : ℕ) (r : Robot) (s : AutoSync) (id : String)
    → (has id s.next_countdowns ≡ true
        → (contains id s.next_activity || has id a.countdowns) ≡ true)
    → has id (sync_robot a now r s).next_countdowns ≡ true
    → (contains id (sync_robot a now r s).next_activity || has id a.countdowns) ≡ true
unfolding sync_robot
sync_robot-countdowns a now r s id h p =
    let find = countdown_of finding now online_check_timeout in
    let scan = countdown_of scanning now test_step_timeout in
    let cs = s.next_countdowns in
    let k = id_of r in
    ground (
      arith,
      h,
      p,
      eq_iff k id,
      contains-add k id s.next_activity,
      contains-add k id (add k s.next_activity),
      has-insert k id find cs,
      has-insert k id scan cs,
      has-insert k id scan (insert k find cs),
    )

-- Every countdown that the loop sets is of a robot that it marks.
sync_robots-countdowns :
    (a : Activities) (now : ℕ) (rs : List Robot) (s : AutoSync) (id : String)
    → (has id s.next_countdowns ≡ true
        → (contains id s.next_activity || has id a.countdowns) ≡ true)
    → has id (sync_robots a now rs s).next_countdowns ≡ true
    → (contains id (sync_robots a now rs s).next_activity || has id a.countdowns) ≡ true
unfolding sync_robots
sync_robots-countdowns a now [] s id h = h
sync_robots-countdowns a now (r ∷ rs) s id h =
    sync_robots-countdowns a now rs (sync_robot a now r s) id (sync_robot-countdowns a now r s id h)

pub drop_stale-has :
    (a : Activities) (next ids : List String) (cs : Dict Countdown) (id : String)
    → has id (drop_stale a next ids cs)
      ≡ (has id cs && not (contains id ids && not (contains id next) && not (is_local a id)))
unfolding drop_stale contains
drop_stale-has a next [] cs id = ground arith
drop_stale-has a next (i ∷ ids) cs id = ground (
  arith,
  drop_stale-has a next ids cs id,
  drop_stale-has a next ids (erase i cs) id,
  has-erase i id cs,
  eq_iff i id,
)

synced-IsOwned :
    (now : ℕ) (rs : List Robot) (a : Activities) → IsOwned a → IsOwned (synced now rs a)
unfolding synced
synced-IsOwned now rs a h = λ id p.
    let s = sync_robots a now rs (sync_start a) in
    ground (
      arith,
      p,
      h id,
      drop_stale-has a s.next_activity a.auto_activity s.next_countdowns id,
      sync_robots-countdowns a now rs (sync_start a) id (λ q. ground (arith, q)),
    )

pub sync_automated-IsValid :
    (t : Moment) (rs : List Robot) (a : Activities) → IsValid a → IsValid (sync_automated t rs a)
unfolding sync_automated IsTimed
sync_automated-IsValid t rs a v =
    let a' = synced t.now rs a in
    if-Holds IsValid (is_empty a'.countdowns) _ _
      (λ e. record { owned = synced-IsOwned t.now rs a v.owned; timed = ground (arith, e) })
      (λ e. begin-IsValid t.nodes a' (synced-IsOwned t.now rs a v.owned) e)

-- After a synchronisation the robots that count as searched by the backend are exactly those that
-- report a search and have no local activity.
pub sync_automated-searching :
    (t : Moment) (rs : List Robot) (a : Activities) (id : String)
    → contains id (sync_automated t rs a).auto_searching ≡ reports_searching a rs id
unfolding sync_automated start_timer refresh_countdowns contains synced
sync_automated-searching t rs a id =
    ground (arith, sync_robots-searching a t.now rs (sync_start a) id)

-- The same for the robots that count as tested.
pub sync_automated-testing :
    (t : Moment) (rs : List Robot) (a : Activities) (id : String)
    → contains id (sync_automated t rs a).auto_testing ≡ reports_testing a rs id
unfolding sync_automated start_timer refresh_countdowns contains synced
sync_automated-testing t rs a id = ground (arith, sync_robots-testing a t.now rs (sync_start a) id)
