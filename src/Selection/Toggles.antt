-- ===== src/Selection/Toggles.antt =====
-- The selection of robots (dashboardRuntimeFleetView.js and dashboardRuntimeFixTests.js).
use robot_maintanance.Prelude.{
  String, Bool, true, false, not, ◌&&◌, List, [], ◌∷◌, map, filter, if-Holds, ◌===◌, if◌then◌else◌,
  ◌≡◌, arith, eq_iff, contains, contains-to_set, contains-delete_all, to_set, contains-filter,
}
use robot_maintanance.Fleet.{Robot, id_of, robot_id}
use robot_maintanance.Fleet.Ids.{
  contains-map-robot_id, map-id_of-clean, robot_ids-ids, robot_id-empty,
}
use robot_maintanance.Fleet.{robot_ids}
use robot_maintanance.Selection.{
  Selection, RunOptions, toggle_ids, are_all_selected, select_all_robots, select_robot_ids, all_ids,
  get_robot_ids_for_run, selected_robot_ids, reachable_robot_ids, is_online,
}

-- A toggle of a list of robots selects all of them, or none of them where all were selected
-- already, and leaves every other robot as it was.
pub toggle_ids-contains :
    (ids : List String) (s : Selection) (id : String)
    → contains id (toggle_ids ids s).selected ≡ (
        if contains id (robot_ids ids)
        then not (are_all_selected ids s)
        else contains id s.selected)
unfolding toggle_ids
toggle_ids-contains ids s id = ground (
  arith,
  contains-to_set id s.selected (robot_ids ids),
  contains-delete_all id s.selected (robot_ids ids),
)

-- Selecting all robots selects exactly the robots of the fleet, or none where all were selected
-- already.
pub select_all_robots-contains :
    (s : Selection) (id : String)
    → contains id (select_all_robots s).selected
      ≡ (contains id (all_ids s) && not (are_all_selected (all_ids s) s))
unfolding select_all_robots select_robot_ids contains
select_all_robots-contains s id =
    let ids = all_ids s in
    let target = to_set [] (robot_ids ids) in
    if-Holds (λ x. contains id x.selected ≡ (contains id ids && not (are_all_selected ids s)))
      (are_all_selected ids s) (select_robot_ids [] false s) (select_robot_ids ids true s)
      (λ e. ground (arith, e, contains-to_set id [] []))
      (λ e. ground (
        arith,
        e,
        robot_ids-ids s.robots,
        contains-to_set id [] (robot_ids ids),
        contains-to_set id target ids,
      ))

contains-reachable :
    (p : Robot → Bool) (rs : List Robot) (id : String)
    → contains id (map id_of (filter p rs)) ≡ true
    → contains id (map id_of rs) ≡ true
unfolding contains
contains-reachable p [] id h = h
contains-reachable p (r ∷ rs) id h = ground (arith, h, contains-reachable p rs id)

contains-selected :
    (selected : List String) (rs : List Robot) (id : String)
    → contains id (map id_of (filter (λ r. contains (id_of r) selected) rs)) ≡ true
    → contains id selected ≡ true
unfolding contains
contains-selected selected [] id h = cc
contains-selected selected (r ∷ rs) id h =
    ground (arith, h, eq_iff (id_of r) id, contains-selected selected rs id)

-- Without the fallback to the robot of the detail page, every robot that a run is started for is a
-- robot of the fleet that is selected when the run starts.
pub get_robot_ids_for_run-selected :
    (o : RunOptions) (s : Selection) (id : String)
    → o.fallback_to_active ≡ false
    → contains id (get_robot_ids_for_run o s).0 ≡ true
    → (contains id (map id_of s.robots) ≡ true)
      × (contains id (get_robot_ids_for_run o s).1.selected ≡ true)
unfolding get_robot_ids_for_run select_robot_ids contains
get_robot_ids_for_run-selected o s id f h =
    let chosen = selected_robot_ids s in
    let reachable = reachable_robot_ids s in
    let named_reachable = filter (λ i. not (robot_id i === "")) reachable in
    (
      ground (
        arith,
        f,
        h,
        contains-filter (λ i. not (robot_id i === "")) id chosen,
        contains-filter (λ i. not (robot_id i === "")) id reachable,
        contains-reachable (λ r. contains (id_of r) s.selected) s.robots id,
        contains-reachable is_online s.robots id,
      ),
      ground (
        arith,
        f,
        h,
        contains-selected s.selected s.robots id,
        contains-filter (λ i. not (robot_id i === "")) id chosen,
        contains-to_set id [] (robot_ids named_reachable),
        contains-filter (λ i. not (i === "")) id (map robot_id named_reachable),
        contains-map-robot_id named_reachable id,
        contains-filter (λ i. not (robot_id i === "")) id reachable,
        contains-reachable is_online s.robots id,
        map-id_of-clean s.robots id,
        robot_id-empty,
        eq_iff id "",
        eq_iff (robot_id id) "",
      ),
    )
