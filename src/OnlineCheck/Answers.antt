-- ===== src/OnlineCheck/Answers.antt =====
-- The online check of the fleet from the answer of the backend on: the second half of
-- `runOnlineCheckForAllRobots` of dashboardRuntimeFixTests.js.
use robot_maintanance.Prelude.{
  ℕ, ◌+◌, String, Bool, true, false, not, ◌&&◌, Option, none, some, List, [], ◌∷◌, ◌===◌,
  if◌then◌else◌, Dict, lookup, insert, contains, add,
}
use robot_maintanance.Js.{Value, undefined, get, array_or_empty}
use robot_maintanance.Js.Engine.{Engine}
use robot_maintanance.Normalize.{Status, ok, clean, normalize_text}
use robot_maintanance.Fleet.{Robot, TestResult, id_of}
use robot_maintanance.Activities.{Moment, set_robot_searching_bulk}
use robot_maintanance.OnlineCheck.{
  StatusUpdate, is_skipped, OneAnswer, found_result, run_one_robot_online_check, OnlineState,
  get_robot_by_id,
}

-- The results by robot id, as both answers are read.
abbrev pub batch_entries : Engine → List Value → Dict StatusUpdate → Dict StatusUpdate
batch_entries js [] m = m
batch_entries js (e ∷ es) m =
    let id = normalize_text js (get e "robotId") "" in
    let u = found_result js (some e) in batch_entries js es (if id === "" then m else insert id u m)

abbrev pub add_checked :
    Engine → (String → OneAnswer) → String → Option Robot → Dict StatusUpdate → Dict StatusUpdate
add_checked js answer id none m = m
add_checked js answer id (some r) m = insert id (run_one_robot_online_check js r (answer id)) m

abbrev pub fallback_entries :
    Engine → List Robot → (String → OneAnswer) → List String → Dict StatusUpdate → Dict StatusUpdate
fallback_entries js robots answer [] m = m
fallback_entries js robots answer (id ∷ ids) m =
    fallback_entries js robots answer ids (add_checked js answer id (get_robot_by_id robots id) m)

-- What `updateFleetOnlineSummary` is given, the skipped names before they are sorted.
pub record Summary : Type 0 where
  pub online_names : List String
  pub offline_names : List String
  pub skipped : List String

pub record Applied : Type 0 where
  pub robots : List Robot
  pub summary : Summary

abbrev pub online_result : StatusUpdate → TestResult
online_result u = record {
  status = u.status;
  value = some u.value;
  details = some u.details;
  reason = none;
  source = none;
  checked_at = none;
}

abbrev pub with_online : StatusUpdate → Robot → Robot
with_online u r = record r { tests = insert "online" (online_result u) r.tests }

-- The result that a robot takes over: none for a robot without an id, without a result or skipped.
abbrev pub update_of : Dict StatusUpdate → Robot → Option StatusUpdate
update_of m r =
    if id_of r === ""
    then none
    else elim (lookup (id_of r) m) [ none ↦ none | some u ↦ if is_skipped u then none else some u ]

-- The robot's result was skipped, or it has none and was busy at the start.
abbrev pub counts_skipped : List String → Dict StatusUpdate → Robot → Bool
counts_skipped busy m r =
    not (id_of r === "")
    && elim (lookup (id_of r) m) [ none ↦ contains (id_of r) busy | some u ↦ is_skipped u ]

abbrev label_of : Robot → String
label_of r = clean r.name (id_of r)

abbrev pub is_ok : Status → Bool
is_ok ok = true
is_ok _ = false

abbrev pub summarise : Option StatusUpdate → Bool → Robot → Summary → Summary
summarise none false r s = s
summarise none true r s = record s { skipped = add (label_of r) s.skipped }
summarise (some u) skip r s =
    if is_ok u.status
    then record s { online_names = label_of r ∷ s.online_names }
    else record s { offline_names = label_of r ∷ s.offline_names }

-- The `mapRobots` of both answers. The batch answer counts the robots that were busy as skipped,
-- the single checks count none of them (`busy` is empty there).
unfoldable pub apply_updates : List String → Dict StatusUpdate → List String → List Robot → Applied
apply_updates busy m skipped [] = record {
  robots = [];
  summary = record { online_names = []; offline_names = []; skipped = skipped };
}
apply_updates busy m skipped (r ∷ rs) =
    let rest = apply_updates busy m skipped rs in
    let u = update_of m r in
    record {
      robots = elim u [ none ↦ r | some v ↦ with_online v r ] ∷ rest.robots;
      summary = summarise u (counts_skipped busy m r) r rest.summary;
    }

-- How the request of the fleet ends: with the payload of a good response, with none or a bad one,
-- after which each robot is checked alone, or with a body that cannot be read.
pub data Answer : Type 0 where
  batch : Value → Answer
  single : List Robot → (String → OneAnswer) → Answer
  unreadable : Answer

-- What a check in flight remembers of its start.
pub record Pending : Type 0 where
  pub ids : List String
  pub busy : List String
  pub skipped : List String

abbrev pub applied : Engine → Pending → Answer → List Robot → Option Applied
applied js p (batch v) rs =
    some
      (apply_updates p.busy (batch_entries js (array_or_empty (get v "results")) []) p.skipped rs)
applied js p (single known answer) rs =
    some (apply_updates [] (fallback_entries js known answer p.ids []) p.skipped rs)
applied js p unreadable rs = none

abbrev pub robots_after : Option Applied → List Robot → List Robot
robots_after none rs = rs
robots_after (some x) rs = x.robots

-- `runOnlineCheckForAllRobots` from the answer on, its `finally` block included
unfoldable pub end_online_check : Engine → Moment → ℕ → Pending → Answer → OnlineState → OnlineState
end_online_check js t interval p answer s = record s {
  robots = robots_after (applied js p answer s.robots) s.robots;
  is_online_refresh_in_flight = false;
  activities = set_robot_searching_bulk t p.ids false undefined s.activities;
  online_refresh_last_at = t.now;
  online_refresh_next_at = t.now + interval;
}
