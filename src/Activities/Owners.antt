-- ===== src/Activities/Owners.antt =====
-- Every countdown of dashboardRuntimeFleetView.js belongs to an activity.
use robot_maintanance.Prelude.{
  ◌*◌, String, Bool, true, List, is_empty, insert, erase, is_empty-insert, is_empty-erase,
  has-insert, has-erase, contains-add, contains-delete, contains, add, eq_iff, ap, if-Holds, ◌≡◌,
  ◌≢◌, arith, refl, ◌===◌, has, ◌||◌, ◌∙◌,
}
use robot_maintanance.Js.{Value, num, thousandths}
use robot_maintanance.Fleet.{robot_id}
use robot_maintanance.Activities.{
  Activities, Countdown, scanning, finding, fixing, online_check_timeout, Moment, countdown_of,
  normalize_countdown, start_timer, stop_if_idle, set_robot_testing, set_robot_searching,
  set_robot_fixing, refresh_countdowns, is_local, test_step_timeout,
}
use robot_maintanance.Activities.Timer.{IsTimed, start_timer-IsTimed}

-- The robot is in one of the sets of active robots.
abbrev pub is_active : Activities → String → Bool
is_active a id = is_local a id || contains id a.auto_activity

-- Every countdown belongs to an active robot, and the interval runs while there is one.
pub record IsValid (a : Activities) : Type 0 where
  pub owned : (id : String) → has id a.countdowns ≡ true → is_active a id ≡ true
  pub timed : IsTimed a

-- A change of state that starts the countdown of one robot.
pub start-IsValid :
    (nodes : List String) (id : String) (c : Countdown) (a b : Activities)
    → IsValid a
    → b.countdowns ≡ insert id c a.countdowns
    → is_active b id ≡ true
    → ((j : String) → is_active a j ≡ true → is_active b j ≡ true)
    → IsValid (start_timer nodes b)
unfolding start_timer refresh_countdowns
start-IsValid nodes id c a b v e here there = record {
  owned = λ j p.
      ground (arith, e, here, there j, eq_iff id j, v.owned j, has-insert id j c a.countdowns);
  timed = start_timer-IsTimed nodes b (ap is_empty e ∙ is_empty-insert id c a.countdowns);
}

-- A change of state that ends the countdown of one robot.
pub stop-IsValid :
    (id : String) (a b : Activities)
    → IsValid a
    → b.countdowns ≡ erase id a.countdowns
    → b.timer ≡ a.timer
    → ((j : String) → id ≢ j → is_active a j ≡ true → is_active b j ≡ true)
    → IsValid (stop_if_idle b)
unfolding IsTimed
stop-IsValid id a b v e t there = record {
  owned = λ j p. ground (arith, e, there j, eq_iff id j, v.owned j, has-erase id j a.countdowns);
  timed = ground (arith, v.timed, t, e, is_empty-erase id a.countdowns);
}

pub set_robot_testing-IsValid :
    (t : Moment) (r : String) (on : Bool) (ms : Value) (a : Activities)
    → IsValid a
    → IsValid (set_robot_testing t r on ms a)
unfolding set_robot_testing
set_robot_testing-IsValid t r on ms a v =
    let id = robot_id r in
    let c =
      countdown_of scanning t.now (normalize_countdown ms (num (thousandths test_step_timeout))) in
    let b = record a { testing = add id a.testing; countdowns = insert id c a.countdowns } in
    if-Holds IsValid (id === "") _ _ (λ e. v)
      (λ e.
        if-Holds IsValid on _ _
          (λ o.
            start-IsValid t.nodes id c a b v refl
              (ground (arith, contains-add id id a.testing, eq_iff id id))
              (λ j h. ground (arith, contains-add id j a.testing)))
          (λ o.
            stop-IsValid id a _ v refl refl
              (λ j ne h. ground (arith, contains-delete id j a.testing, eq_iff id j))))

pub set_robot_searching-IsValid :
    (t : Moment) (r : String) (on : Bool) (ms : Value) (a : Activities)
    → IsValid a
    → IsValid (set_robot_searching t r on ms a)
unfolding set_robot_searching
set_robot_searching-IsValid t r on ms a v =
    let id = robot_id r in
    let c =
      countdown_of finding t.now
        (normalize_countdown ms (num (thousandths online_check_timeout))) in
    let b = record a { searching = add id a.searching; countdowns = insert id c a.countdowns } in
    if-Holds IsValid (id === "") _ _ (λ e. v)
      (λ e.
        if-Holds IsValid on _ _
          (λ o.
            start-IsValid t.nodes id c a b v refl
              (ground (arith, contains-add id id a.searching, eq_iff id id))
              (λ j h. ground (arith, contains-add id j a.searching)))
          (λ o.
            stop-IsValid id a _ v refl refl
              (λ j ne h. ground (arith, contains-delete id j a.searching, eq_iff id j))))

pub set_robot_fixing-IsValid :
    (t : Moment) (r : String) (on : Bool) (ms : Value) (a : Activities)
    → IsValid a
    → IsValid (set_robot_fixing t r on ms a)
unfolding set_robot_fixing
set_robot_fixing-IsValid t r on ms a v =
    let id = robot_id r in
    let c =
      countdown_of fixing t.now
        (normalize_countdown ms (num (thousandths (test_step_timeout * 2)))) in
    let b = record a { fixing = add id a.fixing; countdowns = insert id c a.countdowns } in
    if-Holds IsValid (id === "") _ _ (λ e. v)
      (λ e.
        if-Holds IsValid on _ _
          (λ o.
            start-IsValid t.nodes id c a b v refl
              (ground (arith, contains-add id id a.fixing, eq_iff id id))
              (λ j h. ground (arith, contains-add id j a.fixing)))
          (λ o.
            stop-IsValid id a _ v refl refl
              (λ j ne h. ground (arith, contains-delete id j a.fixing, eq_iff id j))))
