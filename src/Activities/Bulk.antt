-- ===== src/Activities/Bulk.antt =====
-- The bulk search and the automated activities of dashboardRuntimeFleetView.js, and every sequence
-- of the operations.
use robot_maintanance.Prelude.{
  ℕ, String, Bool, true, false, List, [], ◌∷◌, is_empty, insert, erase, is_empty-insert,
  is_empty-erase, has-insert, has-erase, contains-add, contains-delete, add, delete, eq_iff,
  if-Holds, ◌≡◌, arith, refl, has,
}
use robot_maintanance.Js.{Value, num, thousandths}
use robot_maintanance.Fleet.{robot_ids}
use robot_maintanance.Activities.{
  Activities, finding, Moment, countdown_of, normalize_countdown, start_timer, stop_if_idle,
  mark_searching, unmark_searching, set_robot_searching_bulk, refresh_countdowns,
  online_check_timeout,
}
use robot_maintanance.Activities.Timer.{IsTimed, start_timer-IsTimed}
use robot_maintanance.Activities.Owners.{IsValid, is_active}

-- Every countdown belongs to an active robot.
abbrev pub IsOwned : Activities → Type 0
IsOwned a = (id : String) → has id a.countdowns ≡ true → is_active a id ≡ true

start_timer-IsOwned :
    (nodes : List String) (a : Activities) → IsOwned a → IsOwned (start_timer nodes a)
unfolding start_timer refresh_countdowns
start_timer-IsOwned nodes a h = λ j p. ground (arith, h j)

mark_searching-IsOwned :
    (now ms : ℕ) (ids : List String) (a : Activities)
    → IsOwned a
    → IsOwned (mark_searching now ms ids a)
unfolding mark_searching
mark_searching-IsOwned now ms [] a h = h
mark_searching-IsOwned now ms (id ∷ ids) a h = mark_searching-IsOwned now ms ids _ (step a h)
  where
    step :
        (a : Activities)
        → IsOwned a
        → IsOwned (record a {
          searching = add id a.searching;
          countdowns = insert id (countdown_of finding now ms) a.countdowns;
        })
    step a h = λ j p. ground (
      arith,
      h j,
      eq_iff id j,
      contains-add id j a.searching,
      has-insert id j (countdown_of finding now ms) a.countdowns,
    )

mark_searching-nonempty :
    (now ms : ℕ) (ids : List String) (a : Activities)
    → is_empty a.countdowns ≡ false
    → is_empty (mark_searching now ms ids a).countdowns ≡ false
unfolding mark_searching
mark_searching-nonempty now ms [] a h = h
mark_searching-nonempty now ms (id ∷ ids) a h =
    mark_searching-nonempty now ms ids _
      (is_empty-insert id (countdown_of finding now ms) a.countdowns)

mark_searching-some :
    (now ms : ℕ) (ids : List String) (a : Activities)
    → is_empty ids ≡ false
    → is_empty (mark_searching now ms ids a).countdowns ≡ false
unfolding mark_searching
mark_searching-some now ms [] a h = cc
mark_searching-some now ms (id ∷ ids) a h =
    mark_searching-nonempty now ms ids _
      (is_empty-insert id (countdown_of finding now ms) a.countdowns)

unmark_searching-IsOwned :
    (ids : List String) (a : Activities) → IsOwned a → IsOwned (unmark_searching ids a)
unfolding unmark_searching
unmark_searching-IsOwned [] a h = h
unmark_searching-IsOwned (id ∷ ids) a h = unmark_searching-IsOwned ids _ (step a h)
  where
    step :
        (a : Activities)
        → IsOwned a
        → IsOwned
            (record a { searching = delete id a.searching; countdowns = erase id a.countdowns })
    step a h = λ j p.
        ground
          (arith, h j, eq_iff id j, contains-delete id j a.searching, has-erase id j a.countdowns)

unmark_searching-timer :
    (ids : List String) (a : Activities) → (unmark_searching ids a).timer ≡ a.timer
unfolding unmark_searching
unmark_searching-timer [] a = refl
unmark_searching-timer (id ∷ ids) a = unmark_searching-timer ids _

unmark_searching-empty :
    (ids : List String) (a : Activities)
    → is_empty a.countdowns ≡ true
    → is_empty (unmark_searching ids a).countdowns ≡ true
unfolding unmark_searching
unmark_searching-empty [] a h = h
unmark_searching-empty (id ∷ ids) a h =
    unmark_searching-empty ids _ (is_empty-erase id a.countdowns h)

pub begin-IsValid :
    (nodes : List String) (b : Activities)
    → IsOwned b
    → is_empty b.countdowns ≡ false
    → IsValid (start_timer nodes b)
begin-IsValid nodes b h e = record {
  owned = start_timer-IsOwned nodes b h;
  timed = start_timer-IsTimed nodes b e;
}

pub set_robot_searching_bulk-IsValid :
    (t : Moment) (rs : List String) (on : Bool) (ms : Value) (a : Activities)
    → IsValid a
    → IsValid (set_robot_searching_bulk t rs on ms a)
unfolding set_robot_searching_bulk IsTimed
set_robot_searching_bulk-IsValid t rs on ms a v =
    let ids = robot_ids rs in
    let n = normalize_countdown ms (num (thousandths online_check_timeout)) in
    if-Holds IsValid (is_empty ids) _ _ (λ e. v)
      (λ e.
        if-Holds IsValid on _ _
          (λ o.
            begin-IsValid t.nodes (mark_searching t.now n ids a)
              (mark_searching-IsOwned t.now n ids a v.owned) (mark_searching-some t.now n ids a e))
          (λ o.
            finish (unmark_searching ids a) (unmark_searching-IsOwned ids a v.owned)
              (unmark_searching-timer ids a) (unmark_searching-empty ids a)))
  where
    finish :
        (b : Activities)
        → IsOwned b
        → b.timer ≡ a.timer
        → (is_empty a.countdowns ≡ true → is_empty b.countdowns ≡ true)
        → IsValid (stop_if_idle b)
    finish b h t e = record {
      owned = λ j p. ground (arith, h j);
      timed = ground (arith, v.timed, t, e);
    }
