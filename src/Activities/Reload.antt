-- ===== src/Activities/Reload.antt =====
-- What `refreshRobotsFromBackendSnapshot`
-- (assets/js/modules/dashboard/controllers/runtime/dashboardRuntimeDetailShell.js) does to the
-- activities: it keeps those of the robots that are still there, and leaves the countdowns alone.
use robot_maintanance.Prelude.{
  ℕ, String, true, false, not, List, [], ◌∷◌, map, filter, ◌≡◌, refl, ◌∙◌, arith, ◌===◌, has,
  has-insert, insert, add, contains, contains-add, contains-filter, is_empty, if-Holds,
}
use robot_maintanance.Fleet.{Robot, id_of}
use robot_maintanance.Activities.{
  Activities, Moment, countdown_of, finding, scanning, online_check_timeout, test_step_timeout,
  stop_timer, start_timer, refresh_countdowns,
}
use robot_maintanance.Activities.Automated.{
  AutoSync, sync_robot, sync_robots, sync_start, synced, sync_automated,
}
use robot_maintanance.Activities.Owners.{is_active}
use robot_maintanance.Activities.Auto.{drop_stale-has}

-- `validRobotIds`
abbrev pub valid_ids : List Robot → List String
valid_ids robots = filter (λ id. not (id === "")) (map id_of robots)

abbrev pub kept : List Robot → List String → List String
kept robots ids = filter (λ id. contains id (valid_ids robots)) ids

abbrev pub pruned : List Robot → Activities → Activities
pruned robots a = record a {
  testing = kept robots a.testing;
  searching = kept robots a.searching;
  fixing = kept robots a.fixing;
  auto_testing = kept robots a.auto_testing;
  auto_searching = kept robots a.auto_searching;
  auto_activity = kept robots a.auto_activity;
}

-- The activities after the robots are loaded anew
unfoldable pub robots_reloaded : Moment → List Robot → Activities → Activities
unfolding sync_automated contains
robots_reloaded t robots a = sync_automated t robots (pruned robots a)

abbrev Untouched : String → AutoSync → AutoSync → Type 0
Untouched id s t =
    (has id t.next_countdowns ≡ has id s.next_countdowns)
    × (contains id t.next_activity ≡ contains id s.next_activity)

sync_robot-others :
    (a : Activities) (now : ℕ) (r : Robot) (s : AutoSync) (id : String)
    → (id_of r === id) ≡ false
    → Untouched id s (sync_robot a now r s)
unfolding sync_robot
sync_robot-others a now r s id e =
    let found = countdown_of finding now online_check_timeout in
    let tests = countdown_of scanning now test_step_timeout in
    let other = id_of r in
    ground (
      arith,
      e,
      has-insert other id found s.next_countdowns,
      has-insert other id tests s.next_countdowns,
      has-insert other id tests (insert other found s.next_countdowns),
      contains-add other id s.next_activity,
      contains-add other id (add other s.next_activity),
    )

sync_robots-others :
    (a : Activities) (now : ℕ) (rs : List Robot) (s : AutoSync) (id : String)
    → contains id (map id_of rs) ≡ false
    → Untouched id s (sync_robots a now rs s)
unfolding sync_robots contains
sync_robots-others a now [] s id e = (refl, refl)
sync_robots-others a now (r ∷ rs) s id e =
    let first = sync_robot-others a now r s id (ground (arith, e)) in
    let rest = sync_robots-others a now rs (sync_robot a now r s) id (ground (arith, e)) in
    (rest.0 ∙ first.0, rest.1 ∙ first.1)

start_timer-same :
    (nodes : List String) (a : Activities) (id : String)
    → (has id (start_timer nodes a).countdowns ≡ has id a.countdowns)
      × (is_active (start_timer nodes a) id ≡ is_active a id)
unfolding start_timer refresh_countdowns
start_timer-same nodes a id = ground arith

abbrev IsOrphan : String → Activities → Type 0
IsOrphan id a = (has id a.countdowns ≡ true) × (is_active a id ≡ false)

kept-gone :
    (robots : List Robot) (id : String) (ids : List String)
    → contains id (map id_of robots) ≡ false
    → contains id (kept robots ids) ≡ false
kept-gone robots id ids gone = ground (
  arith,
  gone,
  contains-filter (λ i. not (i === "")) id (map id_of robots),
  contains-filter (λ i. contains i (valid_ids robots)) id ids,
)

synced-IsOrphan :
    (now : ℕ) (robots : List Robot) (a : Activities) (id : String)
    → contains id (map id_of robots) ≡ false
    → has id a.countdowns ≡ true
    → IsOrphan id (synced now robots (pruned robots a))
unfolding synced contains
synced-IsOrphan now robots a id gone counts =
    let p = pruned robots a in
    let s = sync_robots p now robots (sync_start p) in
    let same = sync_robots-others p now robots (sync_start p) id gone in
    let test = kept-gone robots id a.testing gone in
    let search = kept-gone robots id a.searching gone in
    let fix = kept-gone robots id a.fixing gone in
    let auto = kept-gone robots id a.auto_activity gone in
    (
      ground (
        arith,
        counts,
        same,
        auto,
        drop_stale-has p s.next_activity p.auto_activity s.next_countdowns id,
      ),
      ground (arith, same, test, search, fix),
    )

-- A countdown of a robot that is gone after the robots are loaded anew stays, though nothing of
-- the robot counts as active any more.
pub robots_reloaded-IsOrphan :
    (t : Moment) (robots : List Robot) (a : Activities) (id : String)
    → contains id (map id_of robots) ≡ false
    → has id a.countdowns ≡ true
    → (has id (robots_reloaded t robots a).countdowns ≡ true)
      × (is_active (robots_reloaded t robots a) id ≡ false)
unfolding robots_reloaded sync_automated
robots_reloaded-IsOrphan t robots a id gone counts =
    let b = synced t.now robots (pruned robots a) in
    let orphan = synced-IsOrphan t.now robots a id gone counts in
    let same = start_timer-same t.nodes b id in
    if-Holds (IsOrphan id) (is_empty b.countdowns) (stop_timer b) (start_timer t.nodes b)
      (λ none_left. orphan) (λ some_left. (same.0 ∙ orphan.0, same.1 ∙ orphan.1))
