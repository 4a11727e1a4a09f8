-- ===== src/Selection.antt =====
-- Which robots are shown, counted, selected and run
-- (assets/js/modules/dashboard/controllers/runtime/dashboardRuntimeFleetView.js and
-- dashboardRuntimeFixTests.js).
pub mod Toggles
pub mod Visible
use robot_maintanance.Prelude.{
  ℕ, String, Bool, true, false, not, ◌&&◌, ◌||◌, Option, none, some, List, [], ◌∷◌, ◌++◌, any, all,
  map, filter, length, is_empty, ◌===◌, if◌then◌else◌, Dict, lookup, keys, contains, add, delete,
  to_set, delete_all,
}
use robot_maintanance.Js.{includes}
use robot_maintanance.Js.Engine.{Engine}
use robot_maintanance.Normalize.{Status, ok, warning, error, clean}
use robot_maintanance.Fleet.{Robot, TestResult, TestDefinition, id_of, robot_id}
use robot_maintanance.Fleet.{robot_ids}

pub data Score : Type 0 where
  critical cautious healthy : Score

abbrev has_status : (Status → Bool) → Engine → Robot → Bool
has_status p js r =
    any (λ (id, t). not (js.lower (clean id "") === "battery") && p t.status) r.tests

abbrev is_error : Status → Bool
is_error error = true
is_error _ = false

abbrev is_warning : Status → Bool
is_warning warning = true
is_warning _ = false

-- `statusFromScore`: 'critical', 'warning' and 'ok'
unfoldable pub status_from_score : Engine → Robot → Score
status_from_score js r =
    if has_status is_error js r
    then critical
    else if has_status is_warning js r
    then cautious
    else healthy

abbrev pub is_healthy : Score → Bool
is_healthy healthy = true
is_healthy _ = false

abbrev pub is_cautious : Score → Bool
is_cautious cautious = true
is_cautious _ = false

abbrev pub is_critical : Score → Bool
is_critical critical = true
is_critical _ = false

-- `statusSortRank`
abbrev pub status_sort_rank : Engine → Robot → ℕ
status_sort_rank js r = elim (status_from_score js r) [ critical ↦ 0 | cautious ↦ 1 | healthy ↦ 2 ]

-- `cycleOnlineSortMode`, up to rendering
unfoldable pub cycle_online_sort_mode : String → String
cycle_online_sort_mode mode =
    if mode === "battery" then "name" else if mode === "name" then "status" else "battery"

pub record Filter : Type 0 where
  pub name : String
  pub type : String
  pub error : String

abbrev differs_from_ok : Status → Bool
differs_from_ok ok = false
differs_from_ok _ = true

abbrev matches_error : Engine → String → Robot → Bool
matches_error js e r =
    let score = status_from_score js r in
    if e === "healthy"
    then is_healthy score
    else if e === "warning"
    then is_cautious score
    else if e === "critical"
    then is_critical score
    else if e === "error"
    then not (is_healthy score)
    else if e === "all"
    then true
    else any (λ (id, t). id === e && differs_from_ok t.status) r.tests

-- `applyFilters`
unfoldable pub apply_filters : Engine → Filter → List Robot → List Robot
unfolding status_from_score
apply_filters js f robots =
    filter
      (λ r.
        includes (js.lower f.name) (js.lower r.name)
        && (f.type === "all" || r.type === f.type)
        && matches_error js f.error r)
      robots

pub record Kpis : Type 0 where
  pub kpi_healthy : ℕ
  pub kpi_warn : ℕ
  pub kpi_critical : ℕ

-- `updateKPIs`
unfoldable pub update_kpis : Engine → List Robot → Kpis
unfolding status_from_score
update_kpis js list = record {
  kpi_healthy = length (filter (λ r. is_healthy (status_from_score js r)) list);
  kpi_warn = length (filter (λ r. is_cautious (status_from_score js r)) list);
  kpi_critical = length (filter (λ r. is_critical (status_from_score js r)) list);
}

-- `normalizeStatus(robot?.tests?.online?.status) === 'ok'`
abbrev pub is_online : Robot → Bool
is_online r = elim (lookup "online" r.tests) [
  | none ↦ false
  | some t ↦ not (differs_from_ok t.status)
]

-- `getVisibleOnlineRobotIds`, `getVisibleOfflineRobotIds`
abbrev pub visible_online_robot_ids : Engine → Filter → List Robot → List String
visible_online_robot_ids js f robots = map id_of (filter is_online (apply_filters js f robots))

abbrev pub visible_offline_robot_ids : Engine → Filter → List Robot → List String
visible_offline_robot_ids js f robots =
    map id_of (filter (λ r. not (is_online r)) (apply_filters js f robots))

-- `state.robots` and `state.selectedRobotIds`
pub record Selection : Type 0 where
  pub robots : List Robot
  pub selected : List String

-- `setRobotSelection`
unfoldable pub set_robot_selection : String → Bool → Selection → Selection
set_robot_selection robot is_selected s =
    let id = robot_id robot in
    if id === ""
    then s
    else record s { selected = if is_selected then add id s.selected else delete id s.selected }

abbrev pub all_ids : Selection → List String
all_ids s = filter (λ id. not (id === "")) (map id_of s.robots)

-- `selectRobotIds`
unfoldable pub select_robot_ids : List String → Bool → Selection → Selection
select_robot_ids list fallback_select_all s =
    let target = to_set [] (robot_ids list) in
    record s {
      selected =
          if fallback_select_all && is_empty target then to_set target (all_ids s) else target;
    }

-- `addRobotIdsToSelection`, `removeRobotIdsFromSelection`, `areAllRobotIdsSelected`
abbrev pub add_robot_ids : List String → Selection → Selection
add_robot_ids list s = record s { selected = to_set s.selected (robot_ids list) }

abbrev pub remove_robot_ids : List String → Selection → Selection
remove_robot_ids list s = record s { selected = delete_all s.selected (robot_ids list) }

unfoldable pub are_all_selected : List String → Selection → Bool
are_all_selected list s =
    let ids = robot_ids list in not (is_empty ids) && all (λ id. contains id s.selected) ids

-- `selectAllRobots`
unfoldable pub select_all_robots : Selection → Selection
unfolding select_robot_ids are_all_selected
select_all_robots s =
    if are_all_selected (all_ids s) s
    then select_robot_ids [] false s
    else select_robot_ids (all_ids s) true s

-- `selectAllOnlineRobots` and `selectAllOfflineRobots`, of the visible ids that they toggle
unfoldable pub toggle_ids : List String → Selection → Selection
unfolding are_all_selected
toggle_ids ids s = if are_all_selected ids s then remove_robot_ids ids s else add_robot_ids ids s

unfoldable pub select_all_online_robots : Engine → Filter → Selection → Selection
unfolding toggle_ids
select_all_online_robots js f s = toggle_ids (visible_online_robot_ids js f s.robots) s

unfoldable pub select_all_offline_robots : Engine → Filter → Selection → Selection
unfolding toggle_ids
select_all_offline_robots js f s = toggle_ids (visible_offline_robot_ids js f s.robots) s

-- `getSelectedRobotIds`, `getReachableRobotIds`
abbrev pub selected_robot_ids : Selection → List String
selected_robot_ids s = map id_of (filter (λ r. contains (id_of r) s.selected) s.robots)

abbrev pub reachable_robot_ids : Selection → List String
reachable_robot_ids s = map id_of (filter is_online s.robots)

abbrev pub named : List String → List String
named ids = filter (λ id. not (robot_id id === "")) ids

pub record RunOptions : Type 0 where
  pub auto_select_online_when_empty : Bool
  pub fallback_to_active : Bool
  pub detail_robot_id : String

-- `getRobotIdsForRun`: the ids to run and the selection afterwards
unfoldable pub get_robot_ids_for_run : RunOptions → Selection → List String × Selection
unfolding select_robot_ids
get_robot_ids_for_run o s =
    let reachable = named (reachable_robot_ids s) in
    if not (is_empty (named (selected_robot_ids s)))
    then (named (selected_robot_ids s), s)
    else if o.auto_select_online_when_empty
    then (if is_empty reachable then ([], s) else (reachable, select_robot_ids reachable false s))
    else if o.fallback_to_active && not (o.detail_robot_id === "")
    then (o.detail_robot_id ∷ [], s)
    else ([], s)

abbrev wanted : Bool → List String → List String
wanted include_online ids =
    filter (λ id. not (id === "") && (include_online || not (id === "online"))) ids

-- `getConfiguredDefaultTestIds`, with `env.TEST_DEFINITIONS`
unfoldable pub get_configured_default_test_ids : List TestDefinition → Robot → Bool → List String
get_configured_default_test_ids definitions r include_online =
    let by_definition = if is_empty r.test_definitions then definitions else r.test_definitions in
    let from_definitions =
      filter (λ id. not (id === "")) (map (λ d. clean d.id "") by_definition) in
    let from_tests = map (λ id. clean id "") (keys r.tests) in
    let ids = wanted include_online (to_set [] (from_definitions ++ from_tests)) in
    if is_empty ids then wanted include_online (map (λ d. clean d.id "") definitions) else ids
