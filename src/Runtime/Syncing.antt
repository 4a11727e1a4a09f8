-- ===== src/Runtime/Syncing.antt =====
-- `refreshRuntimeStateFromBackend` and what it calls
-- (assets/js/modules/dashboard/controllers/runtime/dashboardRuntimeDataInit.js). The answer of the
-- backend is an argument: `none` for a request that fails. A refresh is two steps, up to the
-- request and from its answer on, since the page goes on between them.
use robot_maintanance.Prelude.{
  ℕ, suc, ◌/◌, String, Bool, true, false, not, Option, none, some, List, is_empty, if◌then◌else◌,
  ◌≡◌, refl, ◌∙◌, arith, contains, ap,
}
use robot_maintanance.Js.{Value, Number, thousandths, num, get, truthy, is_finite, array_or_empty}
use robot_maintanance.Js.Engine.{Engine, number_of}
use robot_maintanance.Fleet.{Robot, whole}
use robot_maintanance.Activities.{Activities, Moment}
use robot_maintanance.Activities.Automated.{sync_automated}
use robot_maintanance.Activities.Auto.{reports_searching, sync_automated-searching}
use robot_maintanance.Definitions.{Config}
use robot_maintanance.Runtime.Merge.{Options, Merged, merge_runtime_robots_into_list}
use robot_maintanance.Runtime.Merging.{merge-unchanged}

-- `Math.max(0, Math.trunc(n))` of a finite number
abbrev truncated : Number → ℕ
truncated (thousandths n) = n / 1000
truncated _ = 0

-- `resolveRuntimeVersion`
unfoldable pub resolve_runtime_version : Engine → Value → Value → ℕ
resolve_runtime_version js raw fallback =
    if is_finite (number_of js raw)
    then truncated (number_of js raw)
    else if is_finite (number_of js fallback)
    then truncated (number_of js fallback)
    else 0

pub record Delta : Type 0 where
  pub version : ℕ
  pub full : Bool
  pub robots : List Value

-- `loadFleetRuntimeDelta` from the payload of the answer. The version that it asks for is the
-- state's.
unfoldable pub delta_of : Engine → ℕ → Value → Delta
unfolding resolve_runtime_version
delta_of js since payload = record {
  version = resolve_runtime_version js (get payload "version") (num (thousandths (whole since)));
  full = truthy (get payload "full");
  robots = array_or_empty (get payload "robots");
}

pub record RuntimeState : Type 0 where
  pub robots : List Robot
  pub activities : Activities
  pub runtime_version : ℕ
  pub is_runtime_sync_in_flight : Bool

-- The guard of `refreshRuntimeStateFromBackend`: `none` where it returns at once.
unfoldable pub begin_refresh : RuntimeState → Option RuntimeState
begin_refresh s =
    if s.is_runtime_sync_in_flight
    then none
    else some (record s { is_runtime_sync_in_flight = true })

abbrev pub refresh_options : Bool → Options
refresh_options full = record { respect_local_priority = true; full_snapshot = full }

abbrev pub refresh_merge : Engine → Config → Delta → RuntimeState → Merged
refresh_merge js config d s =
    merge_runtime_robots_into_list js config s.activities (refresh_options d.full) s.robots d.robots

abbrev apply_delta : Engine → Config → Moment → Delta → RuntimeState → RuntimeState
apply_delta js config t d s =
    let m = refresh_merge js config d s in
    let robots = if not (is_empty m.changed_robot_ids) then m.merged else s.robots in
    record s {
      runtime_version =
          resolve_runtime_version js (num (thousandths (whole d.version)))
            (num (thousandths (whole s.runtime_version)));
      robots = robots;
      activities = sync_automated t robots s.activities;
    }

-- The rest of `refreshRuntimeStateFromBackend`, up to rendering: `since` is the version that was
-- asked for.
unfoldable pub end_refresh :
    Engine → Config → Moment → ℕ → Option Value → RuntimeState → RuntimeState
unfolding delta_of resolve_runtime_version
end_refresh js config t since none s = record s { is_runtime_sync_in_flight = false }
end_refresh js config t since (some payload) s =
    record (apply_delta js config t (delta_of js since payload) s) {
      is_runtime_sync_in_flight = false;
    }

whole_quotient : (n : ℕ) → whole n / 1000 ≡ n
whole_quotient n = ground arith

-- Setting the robots only where an id has changed makes no difference.
merged_or_kept :
    (js : Engine) (config : Config) (d : Delta) (s : RuntimeState)
    → (if not (is_empty (refresh_merge js config d s).changed_robot_ids)
        then (refresh_merge js config d s).merged
        else s.robots)
      ≡ (refresh_merge js config d s).merged
merged_or_kept js config d s =
    ground
      (arith, merge-unchanged js config s.activities (refresh_options d.full) s.robots d.robots)

abbrev pub answered : Engine → Config → Moment → ℕ → Value → RuntimeState → RuntimeState
answered js config t since payload s = end_refresh js config t since (some payload) s

abbrev pub answer_merge : Engine → Config → ℕ → Value → RuntimeState → Merged
answer_merge js config since payload s = refresh_merge js config (delta_of js since payload) s

-- When an answer arrives, the robots become exactly the merge of the backend's entries into the
-- list of that moment, the version becomes the answer's, the request is no longer in flight, and
-- the robots that count as searched by the backend are those that report it after the merge and
-- have no local activity.
pub end_refresh-applies :
    (js : Engine) (config : Config) (t : Moment) (since : ℕ) (payload : Value) (s : RuntimeState)
    (id : String)
    → ((answered js config t since payload s).robots
        ≡ (answer_merge js config since payload s).merged)
      × ((answered js config t since payload s).runtime_version
          ≡ (delta_of js since payload).version)
      × ((answered js config t since payload s).is_runtime_sync_in_flight ≡ false)
      × (contains id (answered js config t since payload s).activities.auto_searching
          ≡ reports_searching s.activities (answer_merge js config since payload s).merged id)
unfolding end_refresh resolve_runtime_version
end_refresh-applies js config t since payload s id =
    let d = delta_of js since payload in
    let m = refresh_merge js config d s in
    let robots = if not (is_empty m.changed_robot_ids) then m.merged else s.robots in
    let same = merged_or_kept js config d s in
    (
      same,
      whole_quotient d.version,
      refl,
      sync_automated-searching t robots s.activities id
          ∙ ap (λ rs. reports_searching s.activities rs id) same,
    )

-- The runtime state, with the number of requests of `refreshRuntimeStateFromBackend` under way and
-- the number of those of `loadRobotsFromBackend`, which neither looks at the flag nor sets it.
pub record Requests : Type 0 where
  pub state : RuntimeState
  pub refreshes : ℕ
  pub loads : ℕ

-- A refresh that is let through begins a request, an answer or a failure ends one; a load begins and
-- ends its own, and sets the version; everything else leaves both numbers alone.
pub data SyncStep : Requests → Requests → Type 0 where
  begin :
      (q : Requests) (s : RuntimeState)
      → begin_refresh q.state ≡ some s
      → SyncStep q (record q { state = s; refreshes = suc q.refreshes })
  skip : (q : Requests) → begin_refresh q.state ≡ none → SyncStep q q
  finish :
      (js : Engine) (config : Config) (t : Moment) (since : ℕ) (answer : Option Value)
      (q : Requests) (n : ℕ)
      → q.refreshes ≡ suc n
      → SyncStep q
          (record q { state = end_refresh js config t since answer q.state; refreshes = n })
  begin_load : (q : Requests) → SyncStep q (record q { loads = suc q.loads })
  end_load :
      (version : ℕ) (q : Requests) (n : ℕ)
      → q.loads ≡ suc n
      → SyncStep q (record q { state = record q.state { runtime_version = version }; loads = n })
  other :
      (robots : List Robot) (a : Activities) (q : Requests)
      → SyncStep q (record q { state = record q.state { robots = robots; activities = a } })

pub data SyncReachable : Requests → Type 0 where
  start :
      (robots : List Robot) (a : Activities) (version : ℕ)
      → SyncReachable (record {
        state = record {
          robots = robots;
          activities = a;
          runtime_version = version;
          is_runtime_sync_in_flight = false;
        };
        refreshes = 0;
        loads = 0;
      })
  next : (p q : Requests) → SyncReachable p → SyncStep p q → SyncReachable q

-- The flag says exactly whether the one refresh is under way.
abbrev pub IsSingle : Requests → Type 0
IsSingle q = q.refreshes ≡ (if q.state.is_runtime_sync_in_flight then 1 else 0)

end_refresh-flag :
    (js : Engine) (config : Config) (t : Moment) (since : ℕ) (answer : Option Value)
    (s : RuntimeState)
    → (end_refresh js config t since answer s).is_runtime_sync_in_flight ≡ false
unfolding end_refresh
end_refresh-flag js config t since none s = refl
end_refresh-flag js config t since (some payload) s = refl

step-IsSingle : (p q : Requests) → SyncStep p q → IsSingle p → IsSingle q
unfolding begin_refresh
step-IsSingle _ _ (begin q s e) h = ground (arith, e, h)
step-IsSingle _ _ (skip q e) h = h
step-IsSingle _ _ (finish js config t since answer q n e) h =
    ground (arith, e, h, end_refresh-flag js config t since answer q.state)
step-IsSingle _ _ (begin_load q) h = h
step-IsSingle _ _ (end_load version q n e) h = h
step-IsSingle _ _ (other robots a q) h = h

-- In every sequence of refreshes, their answers and failures, loads of the robots and other changes,
-- at most one request of `refreshRuntimeStateFromBackend` is under way, and the flag says whether
-- one is. The requests of `loadRobotsFromBackend`, which have no guard, do not count.
pub reachable-IsSingle : (q : Requests) → SyncReachable q → IsSingle q
reachable-IsSingle _ (start robots a version) = refl
reachable-IsSingle _ (next p q r s) = step-IsSingle p q s (reachable-IsSingle p r)
