-- ===== src/Fixes.antt =====
-- Automatic fixes: which ones are offered, and the run of one of them over its robots
-- (assets/js/modules/dashboard/controllers/runtime/dashboardRuntimeFixTests.js).
pub mod Run
pub mod Ending
use robot_maintanance.Prelude.{
  ℕ, ◌+◌, String, Bool, true, false, not, ◌&&◌, ◌||◌, Option, none, some, List, [], ◌∷◌, ◌++◌, map,
  filter, is_empty, ◌===◌, if◌then◌else◌, Dict, lookup, insert, has, contains,
}
use robot_maintanance.Js.{str, template}
use robot_maintanance.Js.Engine.{Engine}
use robot_maintanance.Normalize.{clean, normalize_type_id}
use robot_maintanance.Fleet.{Robot, AutoFix, id_of, robot_ids}
use robot_maintanance.Definitions.{Config, get_auto_fixes_for_type}
use robot_maintanance.OnlineCheck.{get_robot_by_id}
use robot_maintanance.Workers.{Pool, start_pool, worker_count}

-- A fix that is offered for some robots.
pub record Candidate : Type 0 where
  pub key : String
  pub id : String
  pub label : String
  pub description : String
  pub post_test_ids : List String
  pub type_label : String
  pub robot_ids : List String

unfoldable pub candidate_key : Engine → Robot → AutoFix → String
candidate_key js r f =
    let type_label = clean r.type (clean r.type_id "Unknown type") in
    let type_key =
      normalize_type_id js (str (if r.type_id === "" then type_label else r.type_id)) in
    template (type_key ∷ ":" ∷ f.id ∷ [])

abbrev pub offer : Engine → Robot → AutoFix → Candidate
offer js r f = record {
  key = candidate_key js r f;
  id = f.id;
  label = f.label;
  description = f.description;
  post_test_ids = f.post_test_ids;
  type_label = clean r.type (clean r.type_id "Unknown type");
  robot_ids = [];
}

abbrev pub with_robot : Robot → Candidate → Candidate
with_robot r c = record c { robot_ids = c.robot_ids ++ id_of r ∷ [] }

abbrev pub found_or : Option Candidate → Candidate → Candidate
found_or none c = c
found_or (some d) c = d

-- `byKey` after a fix of a selected robot
unfoldable pub add_offer : Engine → Robot → AutoFix → Dict Candidate → Dict Candidate
add_offer js r f m =
    let key = candidate_key js r f in
    insert key (with_robot r (found_or (lookup key m) (offer js r f))) m

unfoldable pub add_offers : Engine → Robot → List AutoFix → Dict Candidate → Dict Candidate
unfolding add_offer
add_offers js r [] m = m
add_offers js r (f ∷ fs) m = add_offers js r fs (add_offer js r f m)

unfoldable pub add_all_offers : Engine → Config → List Robot → Dict Candidate → Dict Candidate
unfolding add_offers
add_all_offers js config [] m = m
add_all_offers js config (r ∷ rs) m =
    add_all_offers js config rs
      (add_offers js r (get_auto_fixes_for_type js config (str r.type_id)) m)

abbrev pub selected_robots : List String → List Robot → List Robot
selected_robots selected robots = filter (λ r. contains (id_of r) selected) robots

-- `getDashboardFixCandidates`: the candidates by key, before they are sorted by label
unfoldable pub dashboard_fix_candidates :
    Engine → Config → List String → List Robot → Dict Candidate
unfolding add_all_offers
dashboard_fix_candidates js config selected robots =
    add_all_offers js config (selected_robots selected robots) []

abbrev detail_offer : Engine → Robot → AutoFix → Candidate
detail_offer js r f = record {
  key = template (normalize_type_id js (str r.type_id) ∷ ":" ∷ f.id ∷ []);
  id = f.id;
  label = f.label;
  description = f.description;
  post_test_ids = f.post_test_ids;
  type_label = r.type;
  robot_ids = id_of r ∷ [];
}

-- `getDetailFixCandidates`
unfoldable pub detail_fix_candidates : Engine → Config → String → List Robot → List Candidate
unfolding get_robot_by_id
detail_fix_candidates js config detail robots = elim (get_robot_by_id robots detail) [
  | none ↦ []
  | some r ↦ map (detail_offer js r) (get_auto_fixes_for_type js config (str r.type_id))
]

-- The flags that keep long actions apart.
pub record Flags : Type 0 where
  pub is_auto_fix_in_progress : Bool
  pub is_test_run_in_progress : Bool
  pub is_online_refresh_in_flight : Bool

-- How the run of a candidate begins: it returns at once, reports that there is no robot, or starts
-- its workers.
pub data FixBegun : Type 0 where
  ignored no_robots : FixBegun
  started : Pool → Flags → FixBegun

-- `runAutoFixCandidate` up to its workers
unfoldable pub begin_auto_fix : ℕ → Candidate → Flags → FixBegun
begin_auto_fix parallelism c s =
    let ids = robot_ids c.robot_ids in
    if s.is_auto_fix_in_progress || s.is_test_run_in_progress || s.is_online_refresh_in_flight
    then ignored
    else if is_empty ids
    then no_robots
    else started (start_pool (worker_count parallelism ids) ids)
        (record s { is_auto_fix_in_progress = true })

-- The end of `runAutoFixCandidate`, its `finally` block included
abbrev pub end_auto_fix : Flags → Flags
end_auto_fix s = record s { is_auto_fix_in_progress = false }

pub data Context : Type 0 where
  on_dashboard on_detail : Context

-- `state.fixModeOpen`
pub record FixMode : Type 0 where
  pub dashboard : Bool
  pub detail : Bool

-- `toggleFixMode`, up to rendering
unfoldable pub toggle_fix_mode : Context → Flags → FixMode → FixMode
toggle_fix_mode on_dashboard s m =
    if s.is_auto_fix_in_progress then m else record m { dashboard = not m.dashboard }
toggle_fix_mode on_detail s m =
    if s.is_auto_fix_in_progress then m else record m { detail = not m.detail }
