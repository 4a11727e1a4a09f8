-- ===== src/Examples/Robots.antt =====
-- The theorems on activities, definitions and the runtime synchronisation, applied.
use robot_maintanance.Prelude.{
  ℕ, true, false, some, none, List, [], ◌∷◌, filter, All, is_empty, ◌≡◌, ◌≢◌, refl, contains,
  lookup, insert,
}
use robot_maintanance.Js.{
  Value, num, str, undefined, thousandths, obj, field, no_fields, arr, item, no_items, trim,
}
use robot_maintanance.Js.Engine.{text_of}
use robot_maintanance.Normalize.{clean, normalize_text}
use robot_maintanance.Fleet.{id_of, robot_id}
use robot_maintanance.Activities.{
  Activities, initial, is_local, set_robot_testing, set_robot_fixing, set_robot_searching_bulk,
}
use robot_maintanance.Activities.Automated.{sync_automated}
use robot_maintanance.Activities.Owners.{IsValid}
use robot_maintanance.Activities.Auto.{reports_searching}
use robot_maintanance.Activities.Steps.{
  Reachable, here, next, bulk, sync, fix, Reachable-IsValid, fixing_loses_countdown,
}
use robot_maintanance.Definitions.{normalize_robot_type_config}
use robot_maintanance.Definitions.Named.{IsNamed, normalize_robot_type_config-named}
use robot_maintanance.Definitions.Tables.{normalize_robot_activity}
use robot_maintanance.Runtime.{
  normalize_runtime_robot_entry, normalize_runtime_test_update, have_runtime_tests_changed,
}
use robot_maintanance.Runtime.Merge.{
  Options, merge_runtime_robots_into_list, merge_robots, merge_robot, merge_entry,
}
use robot_maintanance.Runtime.Merging.{merge-unchanged, merge-local}
use robot_maintanance.Runtime.Syncing.{
  RuntimeState, answered, answer_merge, delta_of, end_refresh-applies, begin_refresh, SyncReachable,
  IsSingle, reachable-IsSingle, Requests,
}
use robot_maintanance.Runtime.Syncing
use robot_maintanance.Examples.{plain, fleet, busy, moment, no_types, entry}

-- A search of two robots, a report of the backend and a fix.
abbrev searched : Activities
searched = set_robot_searching_bulk moment ("r1" ∷ "r2" ∷ []) true undefined initial

abbrev reported : Activities
reported = sync_automated moment fleet searched

abbrev fixed : Activities
fixed = set_robot_fixing moment "r2" true undefined reported

session : Reachable fixed
session =
    next reported fixed
      (next searched reported
        (next initial searched here (bulk moment ("r1" ∷ "r2" ∷ []) true undefined initial))
        (sync moment fleet searched))
      (fix moment "r2" true undefined reported)

Reachable-IsValid_example : IsValid fixed
Reachable-IsValid_example = Reachable-IsValid fixed session

r1_named : robot_id "r1" ≢ ""
unfolding clean trim
r1_named e = cc

fixing_loses_countdown_example :
    (contains
        (robot_id "r1")
        (set_robot_testing moment "r1" false undefined
          (set_robot_fixing moment "r1" true undefined busy)).fixing
      ≡ true)
    × (lookup
          (robot_id "r1")
          (set_robot_testing moment "r1" false undefined
            (set_robot_fixing moment "r1" true undefined busy)).countdowns
        ≡ none)
fixing_loses_countdown_example =
    fixing_loses_countdown moment moment "r1" undefined undefined busy r1_named

abbrev types : Value
types = obj (
    field "robotTypes"
      (arr (
        item
          (obj (
            field "typeId" (str "rover") (
              field "tests"
                (arr
                  (item (obj (field "id" (str " arm ") no_fields)) (item (obj no_fields) no_items)))
                no_fields)))
          (item undefined no_items)))
      no_fields)

normalize_robot_type_config-named_example : All IsNamed (normalize_robot_type_config plain types)
normalize_robot_type_config-named_example = normalize_robot_type_config-named plain types

abbrev raw_tests : Value
raw_tests = obj (field "arm" (obj (field "status" (str "ok") no_fields)) no_fields)

abbrev options : Options
options = record { respect_local_priority = true; full_snapshot = true }

abbrev entries : List Value
entries = entry "r1" ∷ entry "r2" ∷ []

abbrev partial : Options
partial = record { respect_local_priority = true; full_snapshot = false }

nothing_changed :
    is_empty
      (merge_runtime_robots_into_list plain no_types busy partial fleet
        (entry "r1" ∷ [])).changed_robot_ids
    ≡ true
unfolding merge_runtime_robots_into_list merge_robots merge_robot merge_entry
    normalize_runtime_robot_entry normalize_text normalize_runtime_test_update
    normalize_robot_activity clean trim lookup insert have_runtime_tests_changed contains text_of
nothing_changed = refl

merge-unchanged_example :
    (merge_runtime_robots_into_list plain no_types busy partial fleet (entry "r1" ∷ [])).merged
    ≡ fleet
merge-unchanged_example =
    merge-unchanged plain no_types busy partial fleet (entry "r1" ∷ []) nothing_changed

merge-local_example :
    filter
      (λ r. is_local busy (id_of r))
      (merge_runtime_robots_into_list plain no_types busy options fleet entries).merged
    ≡ filter (λ r. is_local busy (id_of r)) fleet
merge-local_example = merge-local plain no_types busy options fleet entries refl

abbrev waiting : RuntimeState
waiting = record {
  robots = fleet;
  activities = busy;
  runtime_version = 4;
  is_runtime_sync_in_flight = true;
}

abbrev payload : Value
payload = obj (
    field "version" (num (thousandths 7000))
      (field "robots" (arr (item (entry "r2") no_items)) no_fields))

end_refresh-applies_example :
    ((answered plain no_types moment 4 payload waiting).robots
      ≡ (answer_merge plain no_types 4 payload waiting).merged)
    × ((answered plain no_types moment 4 payload waiting).runtime_version
        ≡ (delta_of plain 4 payload).version)
    × ((answered plain no_types moment 4 payload waiting).is_runtime_sync_in_flight ≡ false)
    × (contains "r2" (answered plain no_types moment 4 payload waiting).activities.auto_searching
        ≡ reports_searching waiting.activities
            (answer_merge plain no_types 4 payload waiting).merged
            "r2")
end_refresh-applies_example = end_refresh-applies plain no_types moment 4 payload waiting "r2"

abbrev quiet : RuntimeState
quiet = record waiting { is_runtime_sync_in_flight = false }

begun : begin_refresh quiet ≡ some waiting
unfolding begin_refresh
begun = refl

-- Requests while no load is, and while one is as well.
abbrev requests : RuntimeState → ℕ → ℕ → Requests
requests s refreshes loads = record { state = s; refreshes = refreshes; loads = loads }

under_way : SyncReachable (requests waiting 1 1)
under_way =
    Syncing.SyncReachable.next (requests quiet 0 1) (requests waiting 1 1)
      (Syncing.SyncReachable.next (requests quiet 0 0) (requests quiet 0 1)
        (Syncing.SyncReachable.start fleet busy 4)
        (Syncing.SyncStep.begin_load (requests quiet 0 0)))
      (Syncing.SyncStep.begin (requests quiet 0 1) waiting begun)

reachable-IsSingle_example : IsSingle (requests waiting 1 1)
reachable-IsSingle_example = reachable-IsSingle (requests waiting 1 1) under_way
