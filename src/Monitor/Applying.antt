-- ===== src/Monitor/Applying.antt =====
-- The controls of the monitor (assets/js/modules/dashboard/controllers/runtime/
-- dashboardRuntimeMonitorConfig.js): `applyMonitorConfig` up to its request and from the answer on,
-- `loadMonitorConfig` and the two inputs. The parallelism of the request is the fleet's, which
-- Monitor/Parallelism keeps.
use robot_maintanance.Prelude.{
  ℕ, suc, [], ◌∷◌, String, Bool, true, false, Option, none, some, ◌===◌, ◌≡◌, inl, inr, refl, arith,
  if◌then◌else◌, if-Holds,
}
use robot_maintanance.Js.{Value, template}
use robot_maintanance.Js.Engine.{Engine, number_of}
use robot_maintanance.Monitor.{
  MonitorConfig, apply_monitor_config_from_payload, clamp_monitor_topics_interval,
  is_topics_monitor_mode, rounded_or, topics_default, topics_min, topics_max, interval_default,
  parallelism_default,
}
use robot_maintanance.Monitor.Bounds.{
  IsMode, IsLimited, clamp-Within, apply_monitor_config-IsLimited,
}

pub data Tone : Type 0 where
  ok warn error : Tone

pub record MonitorPage : Type 0 where
  pub config : MonitorConfig
  pub is_apply_in_flight : Bool
  pub status : Option (String × Tone)

-- The answer to `applyMonitorConfig`: a payload, a refusal with its text, or an exception.
pub data ConfigReply : Type 0 where
  config_answer : Value → ConfigReply
  config_refused config_failed : String → ConfigReply

abbrev pub first_monitor_page : MonitorPage
first_monitor_page = record {
  config = record {
    monitor_mode = "online_battery";
    monitor_online_interval = interval_default;
    monitor_battery_interval = interval_default;
    monitor_topics_interval_sec = topics_default;
    monitor_parallelism = parallelism_default;
  };
  is_apply_in_flight = false;
  status = none;
}

unfoldable pub begin_apply : MonitorPage → Option MonitorPage
begin_apply p =
    if p.is_apply_in_flight
    then none
    else some
        (record p { is_apply_in_flight = true; status = some ("Applying monitor config...", warn) })

abbrev update_failed : String → Option (String × Tone)
update_failed m = some (template ("Monitor config update failed: " ∷ m ∷ []), error)

abbrev config_applied : Engine → ConfigReply → MonitorPage → MonitorPage
unfolding apply_monitor_config_from_payload
config_applied js (config_answer payload) p = record p {
  config = apply_monitor_config_from_payload js payload;
  status = some ("Monitor config saved.", ok);
}
config_applied js (config_refused text) p = record p {
  status = update_failed (if text === "" then "Unable to apply monitor config" else text);
}
config_applied js (config_failed m) p = record p { status = update_failed m }

unfoldable pub end_apply : Engine → ConfigReply → MonitorPage → MonitorPage
unfolding config_applied
end_apply js reply p = record (config_applied js reply p) { is_apply_in_flight = false }

-- `loadMonitorConfig`, with the payload where there is one
unfoldable pub load_monitor_config : Engine → Option Value → MonitorPage → MonitorPage
unfolding apply_monitor_config_from_payload
load_monitor_config js none p = p
load_monitor_config js (some payload) p = record p {
  config = apply_monitor_config_from_payload js payload;
}

-- The listeners of the select and of the input
unfoldable pub select_mode : Engine → Value → MonitorPage → MonitorPage
select_mode js v p = record p {
  config = record p.config {
    monitor_mode =
        if is_topics_monitor_mode js v then "online_battery_topics" else "online_battery";
  };
}

unfoldable pub input_topics_interval : Engine → Value → MonitorPage → MonitorPage
unfolding clamp_monitor_topics_interval
input_topics_interval js v p = record p {
  config = record p.config { monitor_topics_interval_sec = clamp_monitor_topics_interval js v };
}

-- The states of the page from the start on, with the number of requests of `applyMonitorConfig` that
-- wait for their answers.
pub data Monitored (js : Engine) : ℕ → MonitorPage → Type 0 where
  started : Monitored js 0 first_monitor_page
  selects :
      (n : ℕ) (p : MonitorPage) (v : Value) → Monitored js n p → Monitored js n (select_mode js v p)
  inputs :
      (n : ℕ) (p : MonitorPage) (v : Value)
      → Monitored js n p
      → Monitored js n (input_topics_interval js v p)
  loads :
      (n : ℕ) (p : MonitorPage) (payload : Option Value)
      → Monitored js n p
      → Monitored js n (load_monitor_config js payload p)
  begins :
      (n : ℕ) (p q : MonitorPage)
      → Monitored js n p
      → begin_apply p ≡ some q
      → Monitored js (suc n) q
  ends :
      (n : ℕ) (p : MonitorPage) (reply : ConfigReply)
      → Monitored js (suc n) p
      → Monitored js n (end_apply js reply p)

-- `Number(isMonitorConfigApplyInFlight)`
abbrev pub flag_count : Bool → ℕ
flag_count true = 1
flag_count false = 0

begin_apply-page :
    (p q : MonitorPage)
    → begin_apply p ≡ some q
    → (p.is_apply_in_flight ≡ false) × (q.is_apply_in_flight ≡ true) × (q.config ≡ p.config)
unfolding begin_apply
begin_apply-page p q e = ground (arith, e)

-- However the controls are used and whatever the backend answers, the configuration has one of the
-- two modes and its numbers are within their limits, and the flag tells how many requests of
-- `applyMonitorConfig` wait: one or none.
pub Monitored-IsLimited :
    (js : Engine) (n : ℕ) (p : MonitorPage)
    → Monitored js n p
    → IsLimited p.config × (n ≡ flag_count p.is_apply_in_flight)
unfolding select_mode input_topics_interval load_monitor_config end_apply
    clamp_monitor_topics_interval
Monitored-IsLimited js _ _ started = (ground arith, refl)
Monitored-IsLimited js _ _ (selects n p v m) =
    let (l, e) = Monitored-IsLimited js n p m in
    (
      record {
        mode = if-Holds IsMode (is_topics_monitor_mode js v) _ _ (λ t. inl refl) (λ t. inr refl);
        online = l.online;
        battery = l.battery;
        topics = l.topics;
        parallelism = l.parallelism;
      },
      e,
    )
Monitored-IsLimited js _ _ (inputs n p v m) =
    let (l, e) = Monitored-IsLimited js n p m in
    (
      record {
        mode = l.mode;
        online = l.online;
        battery = l.battery;
        topics =
            clamp-Within topics_min topics_max (rounded_or topics_default (number_of js v))
              (omega arith);
        parallelism = l.parallelism;
      },
      e,
    )
Monitored-IsLimited js _ _ (loads n p none m) = Monitored-IsLimited js n p m
Monitored-IsLimited js _ _ (loads n p (some payload) m) =
    (apply_monitor_config-IsLimited js payload, (Monitored-IsLimited js n p m).1)
Monitored-IsLimited js _ _ (begins n p q m b) =
    let (l, e) = Monitored-IsLimited js n p m in
    let (f, g, k) = begin_apply-page p q b in (rw k l, ground (arith, e, f, g))
Monitored-IsLimited js _ _ (ends n p reply m) =
    let (l, e) = Monitored-IsLimited js (suc n) p m in (kept reply l, ground (arith, e))
  where
    kept : (r : ConfigReply) → IsLimited p.config → IsLimited (end_apply js r p).config
    kept (config_answer payload) l = apply_monitor_config-IsLimited js payload
    kept (config_refused text) l = l
    kept (config_failed text) l = l
