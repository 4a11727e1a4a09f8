-- ===== src/Monitor/Parallelism.antt =====
-- The synchronisation of the monitor's parallelism with the slider of the fleet:
-- `setFleetParallelism`, `scheduleMonitorParallelismSync` and `syncMonitorParallelismWithFleet`
-- (assets/js/modules/dashboard/controllers/runtime/dashboardRuntimeMonitorConfig.js). A request
-- and its answer are two steps, and the slider moves in between.
use robot_maintanance.Prelude.{
  ℕ, ◌==◌, Bool, true, false, not, ◌&&◌, ◌||◌, Option, none, some, is_some, if◌then◌else◌, ◌≡◌,
}
use robot_maintanance.Js.{Value, get}
use robot_maintanance.Js.Engine.{Engine}
use robot_maintanance.Monitor.{clamp_fleet_parallelism}

-- The slider's value, what the monitor is known to use, the value that waits, the value of the
-- request that is under way (`none` where `monitorParallelismSyncInFlight` is false), and whether
-- the timer of 150 ms runs.
pub record Parallelism : Type 0 where
  pub fleet_parallelism : ℕ
  pub monitor_parallelism : ℕ
  pub pending_value : Option ℕ
  pub in_flight : Option ℕ
  pub sync_timer : Bool

-- `setFleetParallelism`, with `scheduleMonitorParallelismSync`
unfoldable pub set_fleet_parallelism : Engine → Value → Parallelism → Parallelism
unfolding clamp_fleet_parallelism
set_fleet_parallelism js v s = record s {
  fleet_parallelism = clamp_fleet_parallelism js v;
  sync_timer = true;
}

-- `syncMonitorParallelismWithFleet` up to its first request
abbrev pub request_or_wait : Option ℕ → Parallelism → Parallelism
request_or_wait (some n) s = record s { pending_value = some s.fleet_parallelism }
request_or_wait none s =
    if s.monitor_parallelism == s.fleet_parallelism
    then s
    else record s { in_flight = some s.fleet_parallelism }

-- The timer fires.
unfoldable pub fire_timer : Parallelism → Parallelism
fire_timer s = request_or_wait s.in_flight (record s { sync_timer = false })

-- The loop after a good answer: the value that waited is sent next if it is not the monitor's.
abbrev pub send_pending : Option ℕ → Parallelism → Parallelism
send_pending none s = record s { in_flight = none }
send_pending (some n) s =
    if n == s.monitor_parallelism
    then record s { in_flight = none }
    else record s { in_flight = some n }

unfoldable pub answer_ok : Engine → Value → Parallelism → Parallelism
unfolding clamp_fleet_parallelism
answer_ok js payload s = send_pending s.pending_value (record s {
  monitor_parallelism = clamp_fleet_parallelism js (get payload "parallelism");
  pending_value = none;
})

-- The loop after an error or an exception
unfoldable pub answer_failed : Parallelism → Parallelism
answer_failed s = record s { in_flight = none }

-- The parallelism of a payload, as `applyMonitorConfigFromPayload` stores it.
unfoldable pub monitor_configured : Engine → Value → Parallelism → Parallelism
unfolding clamp_fleet_parallelism
monitor_configured js payload s = record s {
  monitor_parallelism = clamp_fleet_parallelism js (get payload "parallelism");
}

-- `loadMonitorConfig`, whose answer may be none: the timer is started in any case.
unfoldable pub monitor_loaded : Engine → Option Value → Parallelism → Parallelism
unfolding monitor_configured
monitor_loaded js none s = record s { sync_timer = true }
monitor_loaded js (some payload) s = record (monitor_configured js payload s) { sync_timer = true }

-- What happens while every request of the loop is answered with the parallelism that it asks for:
-- the slider moves, the timer fires, an answer arrives, the configuration is loaded.
pub data ParallelismStep (js : Engine) : Parallelism → Parallelism → Type 0 where
  slides : (v : Value) (s : Parallelism) → ParallelismStep js s (set_fleet_parallelism js v s)
  fires : (s : Parallelism) → s.sync_timer ≡ true → ParallelismStep js s (fire_timer s)
  answers :
      (target : ℕ) (payload : Value) (s : Parallelism)
      → s.in_flight ≡ some target
      → clamp_fleet_parallelism js (get payload "parallelism") ≡ target
      → ParallelismStep js s (answer_ok js payload s)
  loads :
      (payload : Option Value) (s : Parallelism)
      → ParallelismStep js s (monitor_loaded js payload s)

-- The page after `initFleetParallelism`: the timer runs.
abbrev pub at_start : ℕ → ℕ → Parallelism
at_start fleet monitor = record {
  fleet_parallelism = fleet;
  monitor_parallelism = monitor;
  pending_value = none;
  in_flight = none;
  sync_timer = true;
}

-- Neither the timer runs nor a request is under way.
abbrev pub is_idle : Parallelism → Bool
is_idle s = not s.sync_timer && not (is_some s.in_flight)

-- Any sequence of these steps and of answers to `applyMonitorConfig`, which store a parallelism
-- without starting the timer. The Boolean says whether such an answer has come at an idle moment
-- since the timer ran last.
pub data Syncs (js : Engine) : Bool → Parallelism → Type 0 where
  started : (fleet monitor : ℕ) → Syncs js false (at_start fleet monitor)
  synced :
      (late : Bool) (s t : Parallelism)
      → Syncs js late s
      → ParallelismStep js s t
      → Syncs js (late && not s.sync_timer) t
  applied :
      (late : Bool) (payload : Value) (s : Parallelism)
      → Syncs js late s
      → Syncs js (late || is_idle s) (monitor_configured js payload s)
