-- ===== src/Monitor/Bounds.antt =====
-- What the monitor's configuration is limited to.
use robot_maintanance.Prelude.{
  ℕ, ◌*◌, ◌≤◌, String, if◌then◌else◌, ◌===◌, ◌≡◌, ◌⊎◌, inl, inr, refl, arith, if-Holds,
}
use robot_maintanance.Js.{Value, get}
use robot_maintanance.Js.Engine.{Engine, number_of}
use robot_maintanance.Normalize.{normalize_text}
use robot_maintanance.Monitor.{
  clamp, clamp_fleet_parallelism, MonitorConfig, get_monitor_online_interval,
  get_monitor_battery_interval, get_monitor_topics_interval, apply_monitor_config_from_payload,
  interval_min, interval_max, topics_min, topics_max, parallelism_min, parallelism_max, finite_or,
  rounded_or, parallelism_default, clamp_monitor_online_interval, clamp_monitor_battery_interval,
  clamp_monitor_topics_interval, interval_default, topics_default,
}

abbrev pub Within : ℕ → ℕ → ℕ → Type 0
Within low high n = (low ≤ n) × (n ≤ high)

pub clamp-Within : (low high n : ℕ) → low ≤ high → Within low high (clamp low high n)
clamp-Within low high n h = ground (arith, h)

abbrev pub IsMode : String → Type 0
IsMode m = (m ≡ "online_battery_topics") ⊎ (m ≡ "online_battery")

-- One of the two modes, and every number within its limits
pub record IsLimited (c : MonitorConfig) : Type 0 where
  pub mode : IsMode c.monitor_mode
  pub online : Within interval_min interval_max c.monitor_online_interval
  pub battery : Within interval_min interval_max c.monitor_battery_interval
  pub topics : Within topics_min topics_max c.monitor_topics_interval_sec
  pub parallelism : Within parallelism_min parallelism_max c.monitor_parallelism

-- Whatever the backend answers, also with fields that are missing or no numbers: the configuration
-- has one of the two modes, and its intervals and its parallelism are within their limits.
pub apply_monitor_config-IsLimited :
    (js : Engine) (payload : Value) → IsLimited (apply_monitor_config_from_payload js payload)
unfolding apply_monitor_config_from_payload clamp_monitor_online_interval
    clamp_monitor_battery_interval clamp_monitor_topics_interval clamp_fleet_parallelism
apply_monitor_config-IsLimited js payload = record {
  mode = one_mode (normalize_text js (get payload "mode") "online_battery");
  online =
      clamp-Within interval_min interval_max
        (finite_or interval_default (number_of js (get payload "onlineIntervalSec"))) (omega arith);
  battery =
      clamp-Within interval_min interval_max
        (finite_or interval_default (number_of js (get payload "batteryIntervalSec")))
        (omega arith);
  topics =
      clamp-Within topics_min topics_max
        (rounded_or topics_default (number_of js (get payload "topicsIntervalSec"))) (omega arith);
  parallelism =
      clamp-Within parallelism_min parallelism_max
        (rounded_or parallelism_default (number_of js (get payload "parallelism"))) (omega arith);
}
  where
    one_mode :
        (m : String)
        → IsMode
            (if m === "online_battery_topics" then "online_battery_topics" else "online_battery")
    one_mode m =
        if-Holds IsMode (m === "online_battery_topics") "online_battery_topics" "online_battery"
          (λ topics. inl refl) (λ plain. inr refl)

-- The intervals that the page counts with are those of the configuration, in milliseconds, once it
-- is limited.
pub intervals-IsLimited :
    (c : MonitorConfig)
    → IsLimited c
    → (get_monitor_online_interval c ≡ c.monitor_online_interval)
      × (get_monitor_battery_interval c ≡ c.monitor_battery_interval)
      × (get_monitor_topics_interval c ≡ c.monitor_topics_interval_sec * 1000)
intervals-IsLimited c h =
    (ground (arith, h.online), ground (arith, h.battery), ground (arith, h.topics))
