-- ===== src/Activities/Steps.antt =====
-- Every sequence of the operations of dashboardRuntimeFleetView.js on the activities, from the
-- empty state of dashboardController.js.
use robot_maintanance.Prelude.{
  ◌*◌, String, Bool, true, false, List, ◌≡◌, ◌≢◌, ◌≤◌, arith, refl, none, insert, has, lookup,
  lookup-erase, contains, contains-add, eq_iff,
}
use robot_maintanance.Js.{Value, num, thousandths}
use robot_maintanance.Fleet.{Robot, robot_id}
use robot_maintanance.Activities.{
  Activities, Moment, set_robot_testing, set_robot_searching, set_robot_fixing,
  set_robot_searching_bulk, refresh_countdowns, initial, normalize_countdown, countdown_min,
  countdown_max, start_timer, countdown_of, fixing, test_step_timeout,
}
use robot_maintanance.Activities.Automated.{sync_automated}
use robot_maintanance.Activities.Timer.{IsTimed}
use robot_maintanance.Activities.Owners.{
  IsValid, set_robot_testing-IsValid, set_robot_searching-IsValid, set_robot_fixing-IsValid,
}
use robot_maintanance.Activities.Bulk.{set_robot_searching_bulk-IsValid}
use robot_maintanance.Activities.Auto.{sync_automated-IsValid}

-- One operation, or one tick of the countdown interval.
pub data Step : Activities → Activities → Type 0 where
  test :
      (t : Moment) (r : String) (on : Bool) (ms : Value) (a : Activities)
      → Step a (set_robot_testing t r on ms a)
  search_one :
      (t : Moment) (r : String) (on : Bool) (ms : Value) (a : Activities)
      → Step a (set_robot_searching t r on ms a)
  fix :
      (t : Moment) (r : String) (on : Bool) (ms : Value) (a : Activities)
      → Step a (set_robot_fixing t r on ms a)
  bulk :
      (t : Moment) (rs : List String) (on : Bool) (ms : Value) (a : Activities)
      → Step a (set_robot_searching_bulk t rs on ms a)
  sync : (t : Moment) (rs : List Robot) (a : Activities) → Step a (sync_automated t rs a)
  tick : (nodes : List String) (a : Activities) → Step a (refresh_countdowns nodes a)

pub data Reachable : Activities → Type 0 where
  here : Reachable initial
  next : (a b : Activities) → Reachable a → Step a b → Reachable b

refresh_countdowns-IsValid :
    (nodes : List String) (a : Activities) → IsValid a → IsValid (refresh_countdowns nodes a)
unfolding refresh_countdowns IsTimed
refresh_countdowns-IsValid nodes a v = record {
  owned = λ j p. ground (arith, v.owned j);
  timed = ground (arith, v.timed);
}

step-IsValid : (a b : Activities) → Step a b → IsValid a → IsValid b
step-IsValid _ _ (test t r on ms a) v = set_robot_testing-IsValid t r on ms a v
step-IsValid _ _ (search_one t r on ms a) v = set_robot_searching-IsValid t r on ms a v
step-IsValid _ _ (fix t r on ms a) v = set_robot_fixing-IsValid t r on ms a v
step-IsValid _ _ (bulk t r on ms a) v = set_robot_searching_bulk-IsValid t r on ms a v
step-IsValid _ _ (sync t rs a) v = sync_automated-IsValid t rs a v
step-IsValid _ _ (tick nodes a) v = refresh_countdowns-IsValid nodes a v

-- In every state that marks and unmarks of robots, the backend's reports and the ticks of the
-- interval reach from the empty one, each countdown belongs to a robot that is tested, searched or
-- fixed locally or active by the backend's report, and the countdown interval runs exactly while
-- there is a countdown.
pub Reachable-IsValid : (a : Activities) → Reachable a → IsValid a
unfolding IsTimed has lookup
Reachable-IsValid _ here = record { owned = λ j p. cc; timed = refl }
Reachable-IsValid _ (next a b r s) = step-IsValid a b s (Reachable-IsValid a r)

-- Whatever countdown and fallback are given, the countdown that is set lasts from 3 to 60 seconds.
pub normalize_countdown-bounds :
    (countdown fallback : Value)
    → (countdown_min ≤ normalize_countdown countdown fallback)
      × (normalize_countdown countdown fallback ≤ countdown_max)
unfolding normalize_countdown
normalize_countdown-bounds countdown fallback = (ground arith, ground arith)

-- A fix that is running loses its countdown when the robot's test state is switched off: the robot
-- still counts as fixed and the store has no countdown for it.
pub fixing_loses_countdown :
    (t u : Moment) (r : String) (ms ms' : Value) (a : Activities)
    → robot_id r ≢ ""
    → (contains
          (robot_id r)
          (set_robot_testing u r false ms' (set_robot_fixing t r true ms a)).fixing
        ≡ true)
      × (lookup
            (robot_id r)
            (set_robot_testing u r false ms' (set_robot_fixing t r true ms a)).countdowns
          ≡ none)
unfolding set_robot_testing set_robot_fixing start_timer refresh_countdowns
fixing_loses_countdown t u r ms ms' a ne =
    let id = robot_id r in
    let c = normalize_countdown ms (num (thousandths (test_step_timeout * 2))) in
    let b = insert id (countdown_of fixing t.now c) a.countdowns in
    (
      ground (arith, ne, eq_iff id "", eq_iff id id, contains-add id id a.fixing),
      ground (arith, ne, eq_iff id "", eq_iff id id, lookup-erase id id b),
    )
