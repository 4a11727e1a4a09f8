-- ===== src/Monitor/Refresh.antt =====
-- The summary of the automatic checks: `normalizeCheckedAtMs` and `syncAutoMonitorRefreshState`
-- (assets/js/modules/dashboard/controllers/runtime/dashboardRuntimeFleetView.js).
use robot_maintanance.Prelude.{
  ℕ, suc, ◌+◌, ◌/◌, ◌≤◌, String, Bool, false, not, ◌&&◌, ◌||◌, Option, none, some, List, [], ◌∷◌,
  length, if◌then◌else◌, ◌===◌, ◌==◌, leb, max, Dict, lookup, ◌≡◌, refl, arith,
}
use mathlib.Core.Path.{subst}
use robot_maintanance.Js.{Number, thousandths}
use robot_maintanance.Normalize.{clean}
use robot_maintanance.Fleet.{Robot, TestResult, whole}

-- `normalizeCheckedAtMs`: what is more than 10 ^ 12 is milliseconds, and the rest is seconds.
unfoldable pub normalize_checked_at : Number → ℕ
normalize_checked_at (thousandths n) = if leb n (whole 1000000000000) then n else n / 1000
normalize_checked_at _ = 0

-- `lastCheckedAtMs` and `checkedRobotCount`
pub record Checks : Type 0 where
  pub last_checked_at : ℕ
  pub checked_robot_count : ℕ

pub record RefreshSummary : Type 0 where
  pub has_data : Bool
  pub online : Checks
  pub battery : Checks
  pub topics : Checks

abbrev pub no_checks : Checks
no_checks = record { last_checked_at = 0; checked_robot_count = 0 }

abbrev pub empty_summary : RefreshSummary
empty_summary = record {
  has_data = false;
  online = no_checks;
  battery = no_checks;
  topics = no_checks;
}

-- When a result of this source was checked, 0 where it is none or has no time.
unfoldable pub checked_time : String → Option TestResult → ℕ
unfolding normalize_checked_at
checked_time source none = 0
checked_time source (some r) = if source_of r.source === source then time_of r.checked_at else 0
  where
    source_of : Option String → String
    source_of none = ""
    source_of (some s) = clean s ""

    time_of : Option Number → ℕ
    time_of none = 0
    time_of (some n) = normalize_checked_at n

-- A time of 0 is no check.
abbrev pub count_check : ℕ → Checks → Checks
count_check ℕ.zero c = c
count_check (ℕ.suc n) c = record {
  last_checked_at = max c.last_checked_at (suc n);
  checked_robot_count = c.checked_robot_count + 1;
}

-- The latest check of a topic among the tests of a robot, 0 where there is none
unfoldable pub topics_time : Dict TestResult → ℕ
topics_time [] = 0
topics_time ((id, r) ∷ tests) =
    let rest = topics_time tests in
    if id === "online" || id === "battery"
    then rest
    else max (checked_time "auto-monitor-topics" (some r)) rest

unfoldable pub add_robot : Bool → Robot → RefreshSummary → RefreshSummary
unfolding topics_time
add_robot include_topics r s =
    let online = checked_time "auto-monitor" (lookup "online" r.tests) in
    let battery = checked_time "auto-monitor" (lookup "battery" r.tests) in
    let topics = if include_topics then topics_time r.tests else 0 in
    record {
      has_data = s.has_data || not (online == 0) || not (battery == 0) || not (topics == 0);
      online = count_check online s.online;
      battery = count_check battery s.battery;
      topics = count_check topics s.topics;
    }

abbrev add_robots : Bool → List Robot → RefreshSummary → RefreshSummary
add_robots include_topics [] s = s
add_robots include_topics (r ∷ rs) s = add_robots include_topics rs (add_robot include_topics r s)

-- `syncAutoMonitorRefreshState`
unfoldable pub sync_auto_monitor_refresh_state : Bool → List Robot → RefreshSummary
sync_auto_monitor_refresh_state include_topics robots =
    add_robots include_topics robots empty_summary

-- A kind of check has a time exactly where some robot counts, and at most `n` robots count.
abbrev pub IsCounted : ℕ → Checks → Type 0
IsCounted n c =
    ((c.last_checked_at == 0) ≡ (c.checked_robot_count == 0)) × (c.checked_robot_count ≤ n)

abbrev pub counts_any : RefreshSummary → Bool
counts_any s =
    not (s.online.checked_robot_count == 0)
    || not (s.battery.checked_robot_count == 0)
    || not (s.topics.checked_robot_count == 0)

pub record IsSummary (n : ℕ) (s : RefreshSummary) : Type 0 where
  pub online : IsCounted n s.online
  pub battery : IsCounted n s.battery
  pub topics : IsCounted n s.topics
  pub has_data : s.has_data ≡ counts_any s

count_check-IsCounted : (t n : ℕ) (c : Checks) → IsCounted n c → IsCounted (n + 1) (count_check t c)
count_check-IsCounted ℕ.zero n c h = (h.0, omega (arith, h.1))
count_check-IsCounted (ℕ.suc t) n c h = ground (arith, h)

count_check-counts :
    (t : ℕ) (c : Checks)
    → ((count_check t c).checked_robot_count == 0) ≡ ((t == 0) && (c.checked_robot_count == 0))
count_check-counts ℕ.zero c = refl
count_check-counts (ℕ.suc t) c = ground arith

add_robot-IsSummary :
    (include_topics : Bool) (r : Robot) (n : ℕ) (s : RefreshSummary)
    → IsSummary n s
    → IsSummary (n + 1) (add_robot include_topics r s)
unfolding add_robot
add_robot-IsSummary include_topics r n s h =
    let online = checked_time "auto-monitor" (lookup "online" r.tests) in
    let battery = checked_time "auto-monitor" (lookup "battery" r.tests) in
    let topics = if include_topics then topics_time r.tests else 0 in
    record {
      online = count_check-IsCounted online n s.online h.online;
      battery = count_check-IsCounted battery n s.battery h.battery;
      topics = count_check-IsCounted topics n s.topics h.topics;
      has_data = ground (
        arith,
        h.has_data,
        count_check-counts online s.online,
        count_check-counts battery s.battery,
        count_check-counts topics s.topics,
      );
    }

add_robots-IsSummary :
    (include_topics : Bool) (robots : List Robot) (n : ℕ) (s : RefreshSummary)
    → IsSummary n s
    → IsSummary (n + length robots) (add_robots include_topics robots s)
add_robots-IsSummary include_topics [] n s h = let e : n + 0 ≡ n = omega arith in rw e h
add_robots-IsSummary include_topics (r ∷ rs) n s h =
    let e : n + suc (length rs) ≡ n + 1 + length rs = omega arith in
    rw e (
      add_robots-IsSummary include_topics rs (n + 1) (add_robot include_topics r s)
        (add_robot-IsSummary include_topics r n s h))

-- For each of the three kinds of automatic checks, the summary has a time exactly where it counts
-- some robot, and it counts no more robots than there are; it has data exactly where it counts
-- some robot for one of the kinds.
pub sync_auto_monitor-IsSummary :
    (include_topics : Bool) (robots : List Robot)
    → IsSummary (length robots) (sync_auto_monitor_refresh_state include_topics robots)
unfolding sync_auto_monitor_refresh_state
sync_auto_monitor-IsSummary include_topics robots =
    subst (λ n. IsSummary n (add_robots include_topics robots empty_summary)) (omega arith)
      (add_robots-IsSummary include_topics robots 0 empty_summary (record {
        online = (refl, omega arith);
        battery = (refl, omega arith);
        topics = (refl, omega arith);
        has_data = refl;
      }))
