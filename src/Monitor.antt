-- ===== src/Monitor.antt =====
-- The monitor's configuration and the parallelism of the fleet
-- (assets/js/modules/dashboard/controllers/runtime/dashboardRuntimeMonitorConfig.js, the intervals
-- and the summary of the automatic checks of dashboardRuntimeFleetView.js). Seconds with fractions
-- are counted in thousandths, whole seconds and the parallelism as they are.
pub mod Parallelism
pub mod Settled
pub mod Refresh
pub mod Bounds
pub mod Applying
use robot_maintanance.Prelude.{
  ℕ, ◌+◌, ◌*◌, ◌/◌, String, Bool, true, false, not, if◌then◌else◌, ◌===◌, min, max, Option, none,
  some,
}
use robot_maintanance.Js.{
  Value, Number, nan, infinite, minus_infinite, below_zero, thousandths, get,
}
use robot_maintanance.Js.Engine.{Engine, number_of}
use robot_maintanance.Normalize.{normalize_text}
use robot_maintanance.Fleet.{whole}

-- The constants FLEET_PARALLELISM_*, MONITOR_* and ONLINE_CHECK_* of the dashboard
abbrev pub parallelism_min : ℕ
parallelism_min = 1

abbrev pub parallelism_max : ℕ
parallelism_max = 100

abbrev pub parallelism_default : ℕ
parallelism_default = 8

abbrev pub topics_min : ℕ
topics_min = 5

abbrev pub topics_max : ℕ
topics_max = 300

abbrev pub topics_default : ℕ
topics_default = 30

abbrev pub interval_min : ℕ
interval_min = 500

abbrev pub interval_max : ℕ
interval_max = 60000

abbrev pub interval_default : ℕ
interval_default = 2000

abbrev pub check_timeout : ℕ
check_timeout = whole 3000

abbrev pub check_buffer : ℕ
check_buffer = whole 800

abbrev pub check_min : ℕ
check_min = whole 2000

abbrev pub check_max : ℕ
check_max = whole 12000

-- `Math.max(low, Math.min(n, high))`
abbrev pub clamp : ℕ → ℕ → ℕ → ℕ
clamp low high n = max low (min n high)

-- `Number.isFinite(n) ? Math.round(n) : fallback`, with 0 for what rounds to less
abbrev pub rounded_or : ℕ → Number → ℕ
rounded_or fallback nan = fallback
rounded_or fallback infinite = fallback
rounded_or fallback minus_infinite = fallback
rounded_or fallback (below_zero n) = 0
rounded_or fallback (thousandths n) = (n + 500) / 1000

-- `Number.isFinite(n) ? n : fallback`, with 0 for what is less
abbrev pub finite_or : ℕ → Number → ℕ
finite_or fallback nan = fallback
finite_or fallback infinite = fallback
finite_or fallback minus_infinite = fallback
finite_or fallback (below_zero n) = 0
finite_or fallback (thousandths n) = n

-- `clampFleetParallelism`
unfoldable pub clamp_fleet_parallelism : Engine → Value → ℕ
clamp_fleet_parallelism js v =
    clamp parallelism_min parallelism_max (rounded_or parallelism_default (number_of js v))

-- `clampMonitorTopicsInterval`
unfoldable pub clamp_monitor_topics_interval : Engine → Value → ℕ
clamp_monitor_topics_interval js v =
    clamp topics_min topics_max (rounded_or topics_default (number_of js v))

-- `clampMonitorBatteryInterval`
unfoldable pub clamp_monitor_battery_interval : Engine → Value → ℕ
clamp_monitor_battery_interval js v =
    clamp interval_min interval_max (finite_or interval_default (number_of js v))

-- `clampMonitorOnlineInterval`
unfoldable pub clamp_monitor_online_interval : Engine → Value → ℕ
clamp_monitor_online_interval js v =
    clamp interval_min interval_max (finite_or interval_default (number_of js v))

-- `isTopicsMonitorMode`
abbrev pub is_topics_monitor_mode : Engine → Value → Bool
is_topics_monitor_mode js mode = normalize_text js mode "" === "online_battery_topics"

-- The fields of `state` that hold the configuration
pub record MonitorConfig : Type 0 where
  pub monitor_mode : String
  pub monitor_online_interval : ℕ
  pub monitor_battery_interval : ℕ
  pub monitor_topics_interval_sec : ℕ
  pub monitor_parallelism : ℕ

-- `applyMonitorConfigFromPayload`
unfoldable pub apply_monitor_config_from_payload : Engine → Value → MonitorConfig
unfolding clamp_monitor_online_interval clamp_monitor_battery_interval clamp_monitor_topics_interval
    clamp_fleet_parallelism
apply_monitor_config_from_payload js payload =
    let mode = normalize_text js (get payload "mode") "online_battery" in
    record {
      monitor_mode =
          if mode === "online_battery_topics" then "online_battery_topics" else "online_battery";
      monitor_online_interval = clamp_monitor_online_interval js (get payload "onlineIntervalSec");
      monitor_battery_interval =
          clamp_monitor_battery_interval js (get payload "batteryIntervalSec");
      monitor_topics_interval_sec =
          clamp_monitor_topics_interval js (get payload "topicsIntervalSec");
      monitor_parallelism = clamp_fleet_parallelism js (get payload "parallelism");
    }

-- `getMonitorOnlineIntervalMs`, `getMonitorBatteryIntervalMs` and `getMonitorTopicsIntervalMs`, in
-- milliseconds
abbrev pub get_monitor_online_interval : MonitorConfig → ℕ
get_monitor_online_interval c =
    max interval_min (clamp interval_min interval_max c.monitor_online_interval)

abbrev pub get_monitor_battery_interval : MonitorConfig → ℕ
get_monitor_battery_interval c =
    max interval_min (clamp interval_min interval_max c.monitor_battery_interval)

abbrev pub get_monitor_topics_interval : MonitorConfig → ℕ
get_monitor_topics_interval c =
    max (topics_min * 1000) (clamp topics_min topics_max c.monitor_topics_interval_sec * 1000)

-- `clampOnlineCountdownMs`
unfoldable pub clamp_online_countdown : Number → ℕ
clamp_online_countdown n = clamp check_min check_max (finite_or check_timeout n)

-- `state.onlineCheckEstimateMs || ONLINE_CHECK_TIMEOUT_MS`, with the timeout as the larger one
abbrev pub base_estimate : Number → Number
base_estimate nan = thousandths check_timeout
base_estimate infinite = infinite
base_estimate minus_infinite = thousandths check_timeout
base_estimate (below_zero n) = thousandths check_timeout
base_estimate (thousandths n) = thousandths (max check_timeout n)

abbrev pub buffered : Number → Number
buffered (thousandths n) = thousandths (n + check_buffer)
buffered n = n

-- `getOnlineCheckCountdownMs`
unfoldable pub get_online_check_countdown : Number → ℕ
unfolding clamp_online_countdown
get_online_check_countdown estimate = clamp_online_countdown (buffered (base_estimate estimate))

-- `initFleetParallelism`: the value of the storage, where there is one and it can be read.
unfoldable pub init_fleet_parallelism : Engine → Option Value → ℕ
unfolding clamp_fleet_parallelism
init_fleet_parallelism js none = clamp parallelism_min parallelism_max parallelism_default
init_fleet_parallelism js (some stored) = clamp_fleet_parallelism js stored
