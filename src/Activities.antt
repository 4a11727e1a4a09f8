-- ===== src/Activities.antt =====
-- Which robots are being tested, searched or fixed, and their countdowns
-- (assets/js/modules/dashboard/controllers/runtime/dashboardRuntimeFleetView.js).
pub mod Owners
pub mod Timer
pub mod Bulk
pub mod Auto
pub mod Steps
pub mod Reload
pub mod Texts
pub mod Automated
use robot_maintanance.Prelude.{
  ℕ, ◌+◌, ◌-◌, ◌*◌, ◌/◌, String, Bool, true, false, not, ◌&&◌, ◌||◌, Option, none, some, List, [],
  ◌∷◌, map, is_empty, filter, any, ◌===◌, if◌then◌else◌, Dict, lookup, insert, erase, has, contains,
  add, delete, min, max,
}
use robot_maintanance.Js.{Value, num, thousandths, template}
use robot_maintanance.Js.Engine.{Engine}
use robot_maintanance.Normalize.{clean}
use robot_maintanance.Fleet.{whole, Activity, Robot, robot_id, id_of, robot_ids}

pub data Mode : Type 0 where
  scanning finding fixing : Mode

pub record Countdown : Type 0 where
  pub mode : Mode
  pub expires_at : ℕ
  pub total_ms : ℕ

-- The fields of `state` that these operations read and write. `timer` says that the interval of
-- `testingCountdownTimer` is running.
pub record Activities : Type 0 where
  pub testing : List String
  pub searching : List String
  pub fixing : List String
  pub auto_testing : List String
  pub auto_searching : List String
  pub auto_activity : List String
  pub countdowns : Dict Countdown
  pub timer : Bool

abbrev pub initial : Activities
initial = record {
  testing = [];
  searching = [];
  fixing = [];
  auto_testing = [];
  auto_searching = [];
  auto_activity = [];
  countdowns = [];
  timer = false;
}

-- TEST_STEP_TIMEOUT_MS, ONLINE_CHECK_TIMEOUT_MS and the bounds of a countdown.
abbrev pub test_step_timeout : ℕ
test_step_timeout = whole 12000

abbrev pub online_check_timeout : ℕ
online_check_timeout = whole 3000

abbrev pub countdown_min : ℕ
countdown_min = whole 3000

abbrev pub countdown_max : ℕ
countdown_max = whole 60000

-- `Number.isFinite(v) && v > 0 ? v : fallback`
abbrev pub positive_or : Value → ℕ → ℕ
positive_or (num (thousandths ℕ.zero)) fallback = fallback
positive_or (num (thousandths n)) fallback = n
positive_or _ fallback = fallback

-- `normalizeCountdownMs`
unfoldable pub normalize_countdown : Value → Value → ℕ
normalize_countdown countdown fallback =
    let safe_default = positive_or fallback test_step_timeout in
    max countdown_min (min (positive_or countdown safe_default) countdown_max)

-- `estimateTestCountdownMsFromBody`: `none` where `body.testIds` is no list.
unfoldable pub estimate_countdown : Option ℕ → ℕ
estimate_countdown none = max countdown_min (min test_step_timeout countdown_max)
estimate_countdown (some ℕ.zero) = max countdown_min (min test_step_timeout countdown_max)
estimate_countdown (some n) = max countdown_min (min (n * test_step_timeout) countdown_max)

-- `startTestingCountdowns` and `stopTestingCountdowns`
abbrev pub stop_timer : Activities → Activities
stop_timer a = record a { timer = false }

-- `refreshTestingCountdowns`, over the robot ids of the countdown nodes on the page. The texts of
-- the nodes are not part of the state.
unfoldable pub refresh_countdowns : List String → Activities → Activities
refresh_countdowns nodes a =
    let has_active = any (λ n. not (clean n "" === "") && has (clean n "") a.countdowns) nodes in
    if not has_active && is_empty a.countdowns then stop_timer a else a

unfoldable pub start_timer : List String → Activities → Activities
unfolding refresh_countdowns
start_timer nodes a = if a.timer then a else refresh_countdowns nodes (record a { timer = true })

-- The end of the branches that remove a countdown.
abbrev pub stop_if_idle : Activities → Activities
stop_if_idle a = if is_empty a.countdowns then stop_timer a else a

abbrev countdown_of : Mode → ℕ → ℕ → Countdown
countdown_of mode now ms = record { mode = mode; expires_at = now + ms; total_ms = ms }

-- The page and the clock when an operation runs: the countdown nodes and `Date.now()`.
pub record Moment : Type 0 where
  pub nodes : List String
  pub now : ℕ

-- `setRobotTesting`, up to rendering
unfoldable pub set_robot_testing : Moment → String → Bool → Value → Activities → Activities
unfolding normalize_countdown start_timer
set_robot_testing t robot is_testing countdown a =
    let id = robot_id robot in
    let ms = normalize_countdown countdown (num (thousandths test_step_timeout)) in
    if id === ""
    then a
    else if is_testing
    then start_timer t.nodes (record a {
      testing = add id a.testing;
      countdowns = insert id (countdown_of scanning t.now ms) a.countdowns;
    })
    else stop_if_idle
        (record a { testing = delete id a.testing; countdowns = erase id a.countdowns })

-- `setRobotSearching`
unfoldable pub set_robot_searching : Moment → String → Bool → Value → Activities → Activities
unfolding normalize_countdown start_timer
set_robot_searching t robot is_searching countdown a =
    let id = robot_id robot in
    let ms = normalize_countdown countdown (num (thousandths online_check_timeout)) in
    if id === ""
    then a
    else if is_searching
    then start_timer t.nodes (record a {
      searching = add id a.searching;
      countdowns = insert id (countdown_of finding t.now ms) a.countdowns;
    })
    else stop_if_idle
        (record a { searching = delete id a.searching; countdowns = erase id a.countdowns })

-- `setRobotFixing`
unfoldable pub set_robot_fixing : Moment → String → Bool → Value → Activities → Activities
unfolding normalize_countdown start_timer
set_robot_fixing t robot is_fixing countdown a =
    let id = robot_id robot in
    let ms = normalize_countdown countdown (num (thousandths (test_step_timeout * 2))) in
    if id === ""
    then a
    else if is_fixing
    then start_timer t.nodes (record a {
      fixing = add id a.fixing;
      countdowns = insert id (countdown_of fixing t.now ms) a.countdowns;
    })
    else stop_if_idle (record a { fixing = delete id a.fixing; countdowns = erase id a.countdowns })

-- The loops of `setRobotSearchingBulk`
unfoldable pub mark_searching : ℕ → ℕ → List String → Activities → Activities
mark_searching now ms [] a = a
mark_searching now ms (id ∷ ids) a = mark_searching now ms ids (record a {
  searching = add id a.searching;
  countdowns = insert id (countdown_of finding now ms) a.countdowns;
})

unfoldable pub unmark_searching : List String → Activities → Activities
unmark_searching [] a = a
unmark_searching (id ∷ ids) a =
    unmark_searching ids
      (record a { searching = delete id a.searching; countdowns = erase id a.countdowns })

-- `setRobotSearchingBulk`, up to rendering
unfoldable pub set_robot_searching_bulk :
    Moment → List String → Bool → Value → Activities → Activities
unfolding mark_searching unmark_searching normalize_countdown start_timer
set_robot_searching_bulk t robots is_searching countdown a =
    let ids = robot_ids robots in
    let ms = normalize_countdown countdown (num (thousandths online_check_timeout)) in
    if is_empty ids
    then a
    else if is_searching
    then start_timer t.nodes (mark_searching t.now ms ids a)
    else stop_if_idle (unmark_searching ids a)

-- The three local activities go before what the backend reports.
abbrev pub is_local : Activities → String → Bool
is_local a id = contains id a.testing || contains id a.searching || contains id a.fixing

-- `isRobotTesting`, `isRobotSearching`, `isRobotFixing`, `isRobotAutoSearching`,
-- `isRobotBusyForOnlineRefresh`
abbrev pub is_robot_testing : Activities → String → Bool
is_robot_testing a r = contains (robot_id r) a.testing || contains (robot_id r) a.auto_testing

abbrev pub is_robot_searching : Activities → String → Bool
is_robot_searching a r = contains (robot_id r) a.searching || contains (robot_id r) a.auto_searching

abbrev pub is_robot_fixing : Activities → String → Bool
is_robot_fixing a r = contains (robot_id r) a.fixing

abbrev pub is_robot_busy : Activities → String → Bool
is_robot_busy a r = is_robot_searching a r || is_robot_testing a r || is_robot_fixing a r
