-- ===== src/Runtime/Merging.antt =====
-- `mergeRuntimeRobotsIntoList` of dashboardRuntimeDataInit.js.
use robot_maintanance.Prelude.{
  String, Bool, true, false, ◌&&◌, ◌||◌, Option, none, some, List, [], ◌∷◌, any, map, filter,
  is_some, is_empty, ◌===◌, Dict, lookup, keys, add, contains, contains-add, ◌≡◌, refl, arith,
  eq_refl, ap,
}
use robot_maintanance.Js.{Value, Number, nan, infinite, minus_infinite, below_zero, thousandths}
use robot_maintanance.Js.Engine.{Engine}
use robot_maintanance.Normalize.{Status, ok, warning, error}
use robot_maintanance.Fleet.{Activity, TestResult, Robot, id_of, robot_id}
use robot_maintanance.Activities.{Activities, is_local}
use robot_maintanance.Definitions.{Config}
use robot_maintanance.Runtime.{
  RuntimeEntry, text_or_empty, have_runtime_tests_changed, activity_changed, differs, same_status,
  same_number, checked_or_zero, result_or_empty,
}
use robot_maintanance.Runtime.Merge.{
  Options, merge_robot, merge_robots, merge_runtime_robots_into_list, merge_entry, runtime_by_id,
  after, mark_changed,
}

same_status_refl : (s : Status) → same_status s s ≡ true
same_status_refl ok = refl
same_status_refl warning = refl
same_status_refl error = refl

same_checked : (n : Option Number) → same_number (checked_or_zero n) (checked_or_zero n) ≡ true
same_checked none = refl
same_checked (some nan) = refl
same_checked (some infinite) = refl
same_checked (some minus_infinite) = refl
same_checked (some (below_zero n)) = ground arith
same_checked (some (thousandths n)) = ground arith

differs_self : (r : TestResult) → differs r r ≡ false
differs_self r = ground (
  arith,
  same_status_refl r.status,
  same_checked r.checked_at,
  eq_refl (text_or_empty r.value),
  eq_refl (text_or_empty r.details),
  eq_refl (text_or_empty r.reason),
  eq_refl (text_or_empty r.source),
)

any-differs_self :
    (m : Dict TestResult) (ids : List String)
    → any (λ id. differs (result_or_empty (lookup id m)) (result_or_empty (lookup id m))) ids
      ≡ false
any-differs_self m [] = refl
any-differs_self m (id ∷ ids) =
    rw (differs_self (result_or_empty (lookup id m)), any-differs_self m ids)

tests_changed_self : (m : Dict TestResult) → have_runtime_tests_changed m m ≡ false
unfolding have_runtime_tests_changed
tests_changed_self m = ground (arith, any-differs_self m (keys m))

activity_changed_self : (a : Activity) → activity_changed a a ≡ false
activity_changed_self a =
    ground (arith, eq_refl (text_or_empty a.phase), eq_refl (text_or_empty a.last_full_test_source))

module _ (js : Engine) (config : Config) (a : Activities) (options : Options) where
  merge_entry-id :
      (local : Bool) (r : Robot) (e : RuntimeEntry)
      → (after (merge_entry js config local r e) r).id ≡ r.id
  unfolding merge_entry
  merge_entry-id local r e = ground arith

  merge_robot-id :
      (m : Dict RuntimeEntry) (r : Robot)
      → (after (merge_robot js config a options m r) r).id ≡ r.id
  unfolding merge_robot merge_entry
  merge_robot-id m r = ground arith

  merge_robots-ids :
      (m : Dict RuntimeEntry) (rs : List Robot) (changed : List String)
      → map (λ r. r.id) (merge_robots js config a options m rs changed).merged ≡ map (λ r. r.id) rs
  unfolding merge_robots
  merge_robots-ids m [] changed = refl
  merge_robots-ids m (r ∷ rs) changed = rw (
    merge_robot-id m r,
    merge_robots-ids m rs (mark_changed (merge_robot js config a options m r) r changed),
  )

  -- A merge keeps the robots, their ids and their order.
  pub merge-ids :
      (robots : List Robot) (entries : List Value)
      → map (λ r. r.id) (merge_runtime_robots_into_list js config a options robots entries).merged
        ≡ map (λ r. r.id) robots
  unfolding merge_runtime_robots_into_list
  merge-ids robots entries = merge_robots-ids (runtime_by_id js entries) robots []

  -- A robot with this id is replaced by the merge.
  abbrev pub is_changed : Dict RuntimeEntry → List Robot → String → Bool
  is_changed m rs id = any (λ r. id_of r === id && is_some (merge_robot js config a options m r)) rs

  contains-mark_changed :
      (o : Option Robot) (r : Robot) (changed : List String) (id : String)
      → contains id (mark_changed o r changed)
        ≡ (contains id changed || (id_of r === id && is_some o))
  contains-mark_changed none r changed id = ground arith
  contains-mark_changed (some r') r changed id = ground (arith, contains-add (id_of r) id changed)

  merge_robots-changed :
      (m : Dict RuntimeEntry) (rs : List Robot) (changed : List String) (id : String)
      → contains id (merge_robots js config a options m rs changed).changed_robot_ids
        ≡ (contains id changed || is_changed m rs id)
  unfolding merge_robots
  merge_robots-changed m [] changed id = ground arith
  merge_robots-changed m (r ∷ rs) changed id =
      let o = merge_robot js config a options m r in
      ground (
        arith,
        merge_robots-changed m rs (mark_changed o r changed) id,
        contains-mark_changed o r changed id,
      )

  -- The ids that a merge reports are exactly those of the robots that it replaces.
  pub merge-changed :
      (robots : List Robot) (entries : List Value) (id : String)
      → contains id
          (merge_runtime_robots_into_list js config a options robots entries).changed_robot_ids
        ≡ is_changed (runtime_by_id js entries) robots id
  unfolding merge_runtime_robots_into_list contains
  merge-changed robots entries id =
      ground (arith, merge_robots-changed (runtime_by_id js entries) robots [] id)

  mark_changed-empty :
      (o : Option Robot) (r : Robot) (changed : List String)
      → is_empty (mark_changed o r changed) ≡ true
      → (o ≡ none) × (is_empty changed ≡ true)
  unfolding add
  mark_changed-empty none r changed h = (refl, h)
  mark_changed-empty (some r') r [] h = ground arith
  mark_changed-empty (some r') r (c ∷ cs) h = ground arith

  merge_robots-unchanged :
      (m : Dict RuntimeEntry) (rs : List Robot) (changed : List String)
      → is_empty (merge_robots js config a options m rs changed).changed_robot_ids ≡ true
      → ((merge_robots js config a options m rs changed).merged ≡ rs) × (is_empty changed ≡ true)
  unfolding merge_robots
  merge_robots-unchanged m [] changed h = (refl, h)
  merge_robots-unchanged m (r ∷ rs) changed h =
      let o = merge_robot js config a options m r in
      let (same, none_before) = merge_robots-unchanged m rs (mark_changed o r changed) h in
      let (kept, none_yet) = mark_changed-empty o r changed none_before in
      (ground (arith, same, kept), none_yet)

  -- A merge that reports no id gives the list of robots back as it was.
  pub merge-unchanged :
      (robots : List Robot) (entries : List Value)
      → is_empty
          (merge_runtime_robots_into_list js config a options robots entries).changed_robot_ids
        ≡ true
      → (merge_runtime_robots_into_list js config a options robots entries).merged ≡ robots
  unfolding merge_runtime_robots_into_list
  merge-unchanged robots entries h =
      (merge_robots-unchanged (runtime_by_id js entries) robots [] h).0

  merge_robot-local :
      (m : Dict RuntimeEntry) (r : Robot)
      → options.respect_local_priority ≡ true
      → is_local a (id_of r) ≡ true
      → merge_robot js config a options m r ≡ none
  unfolding merge_robot merge_entry
  merge_robot-local m r p l =
      ground (arith, p, l, tests_changed_self r.tests, activity_changed_self r.activity)

  merge_robots-local :
      (m : Dict RuntimeEntry) (rs : List Robot) (changed : List String)
      → options.respect_local_priority ≡ true
      → filter (λ r. is_local a (id_of r)) (merge_robots js config a options m rs changed).merged
        ≡ filter (λ r. is_local a (id_of r)) rs
  unfolding merge_robots
  merge_robots-local m [] changed p = refl
  merge_robots-local m (r ∷ rs) changed p =
      let o = merge_robot js config a options m r in
      ground (
        arith,
        merge_robots-local m rs (mark_changed o r changed) p,
        merge_robot-local m r p,
        ap robot_id (merge_robot-id m r),
      )

  -- A merge that respects local activity leaves every robot with local activity exactly as it was,
  -- whatever the backend reports.
  pub merge-local :
      (robots : List Robot) (entries : List Value)
      → options.respect_local_priority ≡ true
      → filter
          (λ r. is_local a (id_of r))
          (merge_runtime_robots_into_list js config a options robots entries).merged
        ≡ filter (λ r. is_local a (id_of r)) robots
  unfolding merge_runtime_robots_into_list
  merge-local robots entries p = merge_robots-local (runtime_by_id js entries) robots [] p
