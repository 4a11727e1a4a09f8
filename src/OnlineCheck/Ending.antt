-- ===== src/OnlineCheck/Ending.antt =====
-- The state that the online check of the fleet leaves behind (dashboardRuntimeFixTests.js).
use robot_maintanance.Prelude.{
  ℕ, String, true, false, not, ◌&&◌, List, [], ◌∷◌, map, ◌===◌, erase, contains, delete, ◌≡◌, ◌≢◌,
  refl, arith, eq_iff, contains-filter, contains-delete, ap, ◌∙◌, sym,
}
use robot_maintanance.Js.{Value}
use robot_maintanance.Js.Engine.{Engine}
use robot_maintanance.Fleet.Ids.{contains-map-robot_id, map-id_of-clean}
use robot_maintanance.Fleet.{robot_ids, id_of, robot_id}
use robot_maintanance.Activities.{Activities, Moment, unmark_searching, set_robot_searching_bulk}
use robot_maintanance.OnlineCheck.{
  OnlineState, requested, active_ids, busy_ids, eligible_ids, begin_online_check,
}
use robot_maintanance.OnlineCheck.Answers.{Pending, Answer, end_online_check}
use robot_maintanance.OnlineCheck.Effects.{requested-guards}

unmark_searching-searching :
    (ids : List String) (a : Activities) (id : String)
    → contains id (unmark_searching ids a).searching
      ≡ (contains id a.searching && not (contains id ids))
unfolding unmark_searching contains
unmark_searching-searching [] a id = ground arith
unmark_searching-searching (i ∷ ids) a id =
    let b = record a { searching = delete i a.searching; countdowns = erase i a.countdowns } in
    ground
      (arith, unmark_searching-searching ids b id, contains-delete i id a.searching, eq_iff i id)

eligible-clean :
    (s : OnlineState) (id : String)
    → contains id (eligible_ids s) ≡ true
    → (robot_id id ≡ id) × (id ≢ "")
eligible-clean s id h = (map-id_of-clean s.robots id here named, named)
  where
    in_active : contains id (active_ids s) ≡ true
    in_active =
        ground (arith, h, contains-filter (λ j. not (contains j (busy_ids s))) id (active_ids s))

    here : contains id (map id_of s.robots) ≡ true
    here = ground (arith, in_active, contains-filter (λ j. not (j === "")) id (map id_of s.robots))

    named : id ≢ ""
    named = ground (
      arith,
      in_active,
      eq_iff id "",
      contains-filter (λ j. not (j === "")) id (map id_of s.robots),
    )

-- Whatever the answer is, and whatever happened to the state since the request was sent, at the
-- end of a check no robot that it was begun for is searched locally any more, and no check is in
-- flight.
pub end_online_check-idle :
    (js : Engine) (t u : Moment) (countdown : Value) (interval : ℕ) (s s' later : OnlineState)
    (p : Pending) (answer : Answer) (id : String)
    → begin_online_check t countdown interval s ≡ requested p.ids s'
    → contains id p.ids ≡ true
    → (contains id (end_online_check js u interval p answer later).activities.searching ≡ false)
      × ((end_online_check js u interval p answer later).is_online_refresh_in_flight ≡ false)
unfolding end_online_check set_robot_searching_bulk contains
end_online_check-idle js t u countdown interval s s' later p answer id e h =
    let (idle, no_fix, same) = requested-guards t countdown interval s s' p.ids e in
    let (fixed, named) = eligible-clean s id (ap (contains id) (sym same) ∙ h) in
    (
      ground (
        arith,
        h,
        named,
        eq_iff id "",
        contains-map-robot_id p.ids id fixed,
        contains-filter (λ j. not (j === "")) id (map robot_id p.ids),
        unmark_searching-searching (robot_ids p.ids) later.activities id,
      ),
      refl,
    )
