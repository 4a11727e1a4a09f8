-- ===== src/Monitor/Settled.antt =====
-- Where the synchronisation of the parallelism comes to rest, and what a refused request leaves
-- behind.
use robot_maintanance.Prelude.{
  ℕ, Bool, true, false, not, ◌&&◌, ◌||◌, Option, none, some, is_some, ◌≡◌, ◌≢◌, refl, sym, ◌∙◌,
  arith,
}
use mathlib.Core.Path.{ap}
use robot_maintanance.Js.{Value, get}
use robot_maintanance.Js.Engine.{Engine}
use robot_maintanance.Monitor.{clamp_fleet_parallelism}
use robot_maintanance.Monitor.Parallelism.{
  Parallelism, set_fleet_parallelism, request_or_wait, fire_timer, send_pending, answer_ok,
  answer_failed, ParallelismStep, slides, fires, answers, loads, monitor_configured, monitor_loaded,
  is_idle, Syncs, started, synced, applied,
}

-- The value that the monitor is to have in the end: the one that waits, or else the requested one,
-- or else its own.
abbrev last_value : Option ℕ → Option ℕ → ℕ → ℕ
last_value (some n) in_flight monitor = n
last_value none (some n) monitor = n
last_value none none monitor = monitor

-- No value waits without a request, and once the timer has fired, the last value is the slider's,
-- unless an answer to `applyMonitorConfig` has come late.
abbrev IsPunctual : Bool → Parallelism → Type 0
IsPunctual late s =
    (s.in_flight ≡ none → s.pending_value ≡ none)
    × (s.sync_timer ≡ false
        → late ≡ false
        → last_value s.pending_value s.in_flight s.monitor_parallelism ≡ s.fleet_parallelism)

request_or_wait-IsPunctual :
    (late : Bool) (o : Option ℕ) (s : Parallelism)
    → s.in_flight ≡ o
    → (o ≡ none → s.pending_value ≡ none)
    → IsPunctual late (request_or_wait o s)
request_or_wait-IsPunctual late (some n) s e h = ground (arith, e)
request_or_wait-IsPunctual late none s e h = ground (arith, e, h refl)

send_pending-IsPunctual :
    (late : Bool) (o : Option ℕ) (s : Parallelism)
    → s.pending_value ≡ none
    → (s.sync_timer ≡ false
        → late ≡ false
        → last_value o none s.monitor_parallelism ≡ s.fleet_parallelism)
    → IsPunctual late (send_pending o s)
send_pending-IsPunctual late none s e h = (λ free. e, λ fired timely. rw e (h fired timely))
send_pending-IsPunctual late (some n) s e h = ground (arith, e, h)

answered-last_value :
    (o : Option ℕ) (target monitor : ℕ)
    → last_value o none target ≡ last_value o (some target) monitor
answered-last_value none target monitor = refl
answered-last_value (some n) target monitor = refl

not_late : (late timer : Bool) → timer ≡ false → (late && not timer) ≡ false → late ≡ false
not_late late timer off e = ground (arith, off, e)

step-IsPunctual :
    (js : Engine) (late : Bool) (s t : Parallelism)
    → ParallelismStep js s t
    → IsPunctual late s
    → IsPunctual (late && not s.sync_timer) t
unfolding set_fleet_parallelism fire_timer answer_ok monitor_loaded monitor_configured
step-IsPunctual js late _ _ (slides v s) h = (h.0, λ fired timely. cc)
step-IsPunctual js late _ _ (fires s on) h =
    request_or_wait-IsPunctual (late && not s.sync_timer) s.in_flight
      (record s { sync_timer = false }) refl h.0
step-IsPunctual js late _ _ (answers target payload s sent echo) h =
    send_pending-IsPunctual (late && not s.sync_timer) s.pending_value
      (record s {
        monitor_parallelism = clamp_fleet_parallelism js (get payload "parallelism");
        pending_value = none;
      })
      refl
      (λ fired timely. rw echo (
        answered-last_value s.pending_value target s.monitor_parallelism
        ∙ ap (λ o. last_value s.pending_value o s.monitor_parallelism) (sym sent)
        ∙ h.1 fired (not_late late s.sync_timer fired timely)))
step-IsPunctual js late _ _ (loads none s) h = (h.0, λ fired timely. cc)
step-IsPunctual js late _ _ (loads (some payload) s) h = (h.0, λ fired timely. cc)

-- Where a request is under way, the monitor's own value does not count.
busy-last_value :
    (o i : Option ℕ) (monitor other : ℕ)
    → is_some i ≡ true
    → last_value o i monitor ≡ last_value o i other
busy-last_value (some n) i monitor other h = refl
busy-last_value none (some n) monitor other h = refl
busy-last_value none none monitor other h = absurd (ground (arith, h))

busy :
    (late timer some_request : Bool)
    → timer ≡ false
    → (late || (not timer && not some_request)) ≡ false
    → (some_request ≡ true) × (late ≡ false)
busy late timer some_request off e = (ground (arith, off, e), ground (arith, off, e))

monitor_configured-IsPunctual :
    (js : Engine) (late : Bool) (payload : Value) (s : Parallelism)
    → IsPunctual late s
    → IsPunctual (late || is_idle s) (monitor_configured js payload s)
unfolding monitor_configured
monitor_configured-IsPunctual js late payload s h = (
  h.0,
  λ fired timely.
      let (sent, early) = busy late s.sync_timer (is_some s.in_flight) fired timely in
      busy-last_value s.pending_value s.in_flight
        (clamp_fleet_parallelism js (get payload "parallelism")) s.monitor_parallelism sent
      ∙ h.1 fired early,
)

Syncs-IsPunctual :
    (js : Engine) (late : Bool) (s : Parallelism) → Syncs js late s → IsPunctual late s
Syncs-IsPunctual js _ _ (started fleet monitor) = (λ free. refl, λ fired timely. cc)
Syncs-IsPunctual js _ _ (synced late s t before step) =
    step-IsPunctual js late s t step (Syncs-IsPunctual js late s before)
Syncs-IsPunctual js _ _ (applied late payload s before) =
    monitor_configured-IsPunctual js late payload s (Syncs-IsPunctual js late s before)

at_rest : (o i : Option ℕ) (monitor : ℕ) → o ≡ none → i ≡ none → monitor ≡ last_value o i monitor
at_rest o i monitor e f = rw (e, f) refl

-- However the slider has moved while requests were under way, and whatever configurations were
-- loaded or applied: when the timer has fired and no request is under way, the monitor uses the
-- slider's value, as long as every request of the loop was answered with the value it asked for and,
-- since the timer ran last, no answer to `applyMonitorConfig` came while no request was under way.
pub Syncs-settled :
    (js : Engine) (s : Parallelism)
    → Syncs js false s
    → s.sync_timer ≡ false
    → s.in_flight ≡ none
    → s.monitor_parallelism ≡ s.fleet_parallelism
Syncs-settled js s before fired free =
    let h = Syncs-IsPunctual js false s before in
    at_rest s.pending_value s.in_flight s.monitor_parallelism (h.0 free) free ∙ h.1 fired refl

-- A value that waits while a request fails goes on waiting: after the next request, which is sent
-- because the monitor's value is not the slider's and which is answered as it asks, the loop sends
-- that old value instead of the slider's, where the two differ.
pub answer_failed-stale :
    (js : Engine) (payload : Value) (old : ℕ) (s : Parallelism)
    → s.pending_value ≡ some old
    → old ≢ s.fleet_parallelism
    → s.monitor_parallelism ≢ s.fleet_parallelism
    → clamp_fleet_parallelism js (get payload "parallelism") ≡ s.fleet_parallelism
    → (answer_ok js payload (fire_timer (answer_failed s))).in_flight ≡ some old
unfolding answer_ok fire_timer answer_failed
answer_failed-stale js payload old s waits other behind echo =
    rw waits (ground (arith, other, behind, echo))
