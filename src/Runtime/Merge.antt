-- ===== src/Runtime/Merge.antt =====
-- How the entries of the backend enter the robots of the page: `mergeRuntimeRobotsIntoList` of
-- dashboardRuntimeDataInit.js.
use robot_maintanance.Prelude.{
  String, Bool, false, not, ◌&&◌, Option, none, some, List, [], ◌∷◌, map, present, ◌===◌,
  if◌then◌else◌, Dict, lookup, insert, spread, add,
}
use robot_maintanance.Js.{Value, obj, no_fields, str}
use robot_maintanance.Js.Engine.{Engine}
use robot_maintanance.Fleet.{Activity, TestResult, Robot, id_of}
use robot_maintanance.Activities.{Activities, is_local}
use robot_maintanance.Definitions.{Config}
use robot_maintanance.Definitions.Tables.{normalize_robot_activity, normalize_robot_tests}
use robot_maintanance.Runtime.{
  RuntimeEntry, normalize_runtime_robot_entry, have_runtime_tests_changed, activity_changed,
}

pub record Options : Type 0 where
  pub respect_local_priority : Bool
  pub full_snapshot : Bool

-- `new Map(runtimeEntries.map(normalize).filter(Boolean).map((entry) => [entry.id, entry]))`
abbrev index_entries : Dict RuntimeEntry → List RuntimeEntry → Dict RuntimeEntry
index_entries m [] = m
index_entries m (e ∷ es) = index_entries (insert e.id e m) es

abbrev pub runtime_by_id : Engine → List Value → Dict RuntimeEntry
runtime_by_id js entries =
    index_entries [] (present (map (normalize_runtime_robot_entry js) entries))

-- The entry of a robot: in a full snapshot a robot that is not listed has an empty entry.
abbrev pub entry_of : Engine → Bool → Dict RuntimeEntry → String → Option RuntimeEntry
entry_of js full m id = elim (lookup id m) [
  | some e ↦ some e
  | none ↦
      if full
      then some (record {
        id = id;
        tests = [];
        activity = normalize_robot_activity js (obj no_fields);
        has_runtime_data = false;
      })
      else none
]

abbrev pub next_tests : Engine → Config → Robot → RuntimeEntry → Dict TestResult
next_tests js config r e =
    spread
      (if not e.has_runtime_data
        then (normalize_robot_tests js config (obj no_fields) (str r.type_id)).tests
        else r.tests)
      e.tests

abbrev pub next_activity : Engine → RuntimeEntry → Activity
next_activity js e =
    if not e.has_runtime_data then normalize_robot_activity js (obj no_fields) else e.activity

-- The robot after the entry, `none` where it is kept as it is.
unfoldable pub merge_entry : Engine → Config → Bool → Robot → RuntimeEntry → Option Robot
unfolding have_runtime_tests_changed
merge_entry js config is_local_priority r e =
    let tests = if is_local_priority then r.tests else next_tests js config r e in
    let activity = if is_local_priority then r.activity else next_activity js e in
    if not (activity_changed r.activity activity) && not (have_runtime_tests_changed r.tests tests)
    then none
    else some (record r { tests = tests; activity = activity })

unfoldable pub merge_robot :
    Engine → Config → Activities → Options → Dict RuntimeEntry → Robot → Option Robot
unfolding merge_entry
merge_robot js config a options m r =
    let id = id_of r in
    if id === "" then none else elim (entry_of js options.full_snapshot m id) [
      | none ↦ none
      | some e ↦ merge_entry js config (options.respect_local_priority && is_local a id) r e
    ]

abbrev pub after : Option Robot → Robot → Robot
after none r = r
after (some r') r = r'

-- The ids after a robot that the merge leaves alone or replaces.
abbrev pub mark_changed : Option Robot → Robot → List String → List String
mark_changed none r ids = ids
mark_changed (some r') r ids = add (id_of r) ids

pub record Merged : Type 0 where
  pub merged : List Robot
  pub changed_robot_ids : List String

unfoldable pub merge_robots :
    Engine → Config → Activities → Options → Dict RuntimeEntry → List Robot → List String → Merged
unfolding merge_robot
merge_robots js config a options m [] changed = record { merged = []; changed_robot_ids = changed }
merge_robots js config a options m (r ∷ rs) changed =
    let o = merge_robot js config a options m r in
    let rest = merge_robots js config a options m rs (mark_changed o r changed) in
    record rest { merged = after o r ∷ rest.merged }

-- `mergeRuntimeRobotsIntoList`
unfoldable pub merge_runtime_robots_into_list :
    Engine → Config → Activities → Options → List Robot → List Value → Merged
unfolding merge_robots normalize_runtime_robot_entry
merge_runtime_robots_into_list js config a options robots entries =
    merge_robots js config a options (runtime_by_id js entries) robots []
