-- ===== src/Terminal/Abandoned.antt =====
-- The promise of a stream whose socket was silenced while it was opening
-- (`_closeStream` and `_openStream` of assets/js/components/robot-terminal-component.js).
pub mod Later
use robot_maintanance.Prelude.{
  ℕ, ◌<◌, String, Bool, true, false, not, ◌&&◌, ◌||◌, Option, none, some, List, [], ◌∷◌, ◌==◌,
  ◌===◌, ◌≡◌, ◌≢◌, refl, arith, is_some, if◌then◌else◌, if-Holds, find?,
}
use robot_maintanance.Js.{Number, Value, template, trim}
use robot_maintanance.Js.Engine.{Engine}
use robot_maintanance.Terminal.{
  Setup, ViewOutcome, constructor_throws, opening_throws, wiring_throws, view_works, is_live, error,
  connected, disconnected, connecting,
}
use robot_maintanance.Terminal.State.{
  Terminal, Target, Preset, Flow, Stage, in_deletion, in_session, in_stream, Purpose, opening_view,
  reconnecting, running, Promised, of_socket, call, preset_launch, Message, opened, closed, status,
  write, build_endpoint, ok_line, new_terminal,
}
use robot_maintanance.Terminal.Stream.{
  set_ready, on_open, on_error, on_close, is_stream_open, handle_stream_message, handle_payload,
  message_type, text_field, send, send_resize, send_view_size, finalize, close_stream, open_stream,
  start_stream,
}
use robot_maintanance.Terminal.Session.{
  SessionAnswer, accepted, canceled, failed, refused, answer_session, answer_status, abort_session,
  disconnect_remote_session, ensure_remote_session, start_session,
}
use robot_maintanance.Terminal.View.{
  render_toolbar, initialize_terminal, start_view, view_at, fall_back, fallback_state, opened_view,
  load_fit, make_view, no_view, dispose,
}
use robot_maintanance.Terminal.Flows.{
  prepared, connect_live_session, run_command, run_for, run_text, run_live, echoed, end_command,
  end_reconnect, end_flow, launch, proceed, value_of, handle_input, resize, fit, sized,
  reconnect_with, has_fit_addon, has_id, reconnect_session, connect,
}
use robot_maintanance.Terminal.Events.{
  handle, socket_opens, socket_fails, socket_closes, socket_receives, Step, connects, commands,
  types, resizes, fits, reconnects, disposes, answers, opens, fails, begins_closing, closes,
  receives, proceeds, Reachable, built, stepped,
}

-- The socket is there, has no handlers and its promise is not settled.
abbrev pub Quiet : ℕ → Terminal → Type 0
Quiet k t = (k < t.next_socket) × ((t.sockets k).listening ≡ false) × ((t.sockets k).settled ≡ none)

module _ (c : Setup) (k : ℕ) where
  pub send-Quiet : (m : Message) (t : Terminal) → Quiet k t → Quiet k (send m t)
  unfolding send
  send-Quiet m t g = ground (arith, g)

  pub send_resize-Quiet :
      (cols rows : Number) (t : Terminal) → Quiet k t → Quiet k (send_resize cols rows t)
  unfolding send_resize
  send_resize-Quiet cols rows t g = grind (arith, send-Quiet)

  pub send_view_size-Quiet : (t : Terminal) → Quiet k t → Quiet k (send_view_size t)
  unfolding send_view_size
  send_view_size-Quiet t g = grind (arith, send_resize-Quiet)

  pub close_stream-Quiet : (t : Terminal) → Quiet k t → Quiet k (close_stream t)
  unfolding close_stream
  close_stream-Quiet t g = ground (arith, g)

  pub open_stream-Quiet :
      (robot : Option Target) (t : Terminal) → Quiet k t → Quiet k (open_stream c robot t).0
  unfolding open_stream start_stream
  open_stream-Quiet robot t g = ground (arith, g)

  pub finalize-Quiet :
      (j : ℕ) (good : Bool) (t : Terminal) → j ≢ k → Quiet k t → Quiet k (finalize j good t)
  unfolding finalize
  finalize-Quiet j good t n g = ground (arith, n, g)

  pub fall_back-Quiet :
      (reason : String) (t : Terminal) → Quiet k t → Quiet k (fall_back c reason t)
  unfolding fall_back fallback_state close_stream
  fall_back-Quiet reason t g =
      if-Holds (Quiet k) c.has_element _ _ (λ e. close_stream-Quiet t g)
        (λ e. close_stream-Quiet t g)

  pub ensure_remote_session-Quiet :
      (robot : Option Target) (t : Terminal)
      → Quiet k t
      → Quiet k (ensure_remote_session c robot t).0
  unfolding ensure_remote_session start_session
  ensure_remote_session-Quiet robot t g = ground (arith, g)

  pub connect_live_session-Quiet :
      (robot : Option Target) (purpose : Purpose) (t : Terminal)
      → Quiet k t
      → Quiet k (connect_live_session c robot purpose t)
  unfolding connect_live_session
  connect_live_session-Quiet robot purpose t g =
      if-Holds (Quiet k) (has_id robot && is_live t.mode) _ _
        (λ e. ensure_remote_session-Quiet robot t g) (λ e. g)

  pub delete-Quiet : (t : Terminal) → Quiet k t → Quiet k (disconnect_remote_session c t)
  unfolding disconnect_remote_session
  delete-Quiet t g = ground (arith, g)

  pub dispose-Quiet : (t : Terminal) → Quiet k t → Quiet k (dispose c t)
  unfolding dispose abort_session close_stream disconnect_remote_session
  dispose-Quiet t g = let s = close_stream-Quiet t g in ground (arith, s)

  pub render_toolbar-Quiet : (t : Terminal) → Quiet k t → Quiet k (render_toolbar c t)
  unfolding render_toolbar
  render_toolbar-Quiet t g = g

  pub opened_view-Quiet :
      (r : Target) (endpoint : String) (t : Terminal)
      → Quiet k t
      → Quiet k (opened_view c r endpoint t)
  unfolding opened_view load_fit write
  opened_view-Quiet r endpoint t g = g

  pub start_view-Quiet :
      (r : Target) (endpoint : String) (outcome : ViewOutcome) (t : Terminal)
      → Quiet k t
      → Quiet k (start_view c r endpoint outcome t)
  unfolding start_view
  start_view-Quiet r endpoint constructor_throws t g = fall_back-Quiet _ t g
  start_view-Quiet r endpoint opening_throws t g = fall_back-Quiet no_view (make_view c t) g
  start_view-Quiet r endpoint wiring_throws t g =
      fall_back-Quiet no_view (opened_view c r endpoint t) (opened_view-Quiet r endpoint t g)
  start_view-Quiet r endpoint view_works t g = opened_view-Quiet r endpoint t g

  pub view_at-Quiet :
      (r : Target) (endpoint : Option String) (t : Terminal)
      → Quiet k t
      → Quiet k (view_at c r endpoint t)
  unfolding view_at
  view_at-Quiet r none t g = fall_back-Quiet _ t g
  view_at-Quiet r (some endpoint) t g =
      start_view-Quiet r endpoint c.view (record t { input = none }) g

  pub initialize_terminal-Quiet :
      (robot : Option Target) (t : Terminal) → Quiet k t → Quiet k (initialize_terminal c robot t)
  unfolding initialize_terminal
  initialize_terminal-Quiet none t g = fall_back-Quiet _ t g
  initialize_terminal-Quiet (some r) t g =
      if-Holds (Quiet k) (not c.has_element) _ _ (λ e. fall_back-Quiet _ t g)
        (λ e.
          if-Holds (Quiet k) (not c.has_terminal_ctor) _ _ (λ e. fall_back-Quiet _ t g)
            (λ e. view_at-Quiet r (build_endpoint c r.id) t g))

  pub connect-Quiet :
      (robot : Option Target) (presets : List Preset) (t : Terminal)
      → Quiet k t
      → Quiet k (connect c robot presets t)
  unfolding connect prepared
  connect-Quiet robot presets t g =
      let u = record (dispose c (record t { preset_commands = presets })) {
        disposing = false;
        current_robot = robot;
      } in
      let q = dispose-Quiet (record t { preset_commands = presets }) g in
      connect_live_session-Quiet robot opening_view
        (initialize_terminal c robot (render_toolbar c u))
        (initialize_terminal-Quiet robot (render_toolbar c u) (render_toolbar-Quiet u q))

  pub run_live-Quiet :
      (text : String) (clears : Bool) (r : Target) (t : Terminal)
      → Quiet k t
      → Quiet k (run_live c text clears r t)
  unfolding run_live
  run_live-Quiet text true r t g = g
  run_live-Quiet text false r t g = connect_live_session-Quiet (some r) (running text) t g

  pub run_text-Quiet :
      (js : Engine) (text id : String) (echo : Bool) (r : Target) (t : Terminal)
      → Quiet k t
      → Quiet k (run_text c js text id echo r t)
  unfolding run_text echoed write
  run_text-Quiet js text id echo r t g =
      if-Holds (Quiet k) (text === "") _ _ (λ e. g)
        (λ e.
          if-Holds (Quiet k) (not (is_live t.mode)) _ _ (λ e. g)
            (λ e.
              run_live-Quiet text (js.lower text === "clear") r (echoed echo text t)
                (echoed-Quiet echo)))
    where
      echoed-Quiet : (b : Bool) → Quiet k (echoed b text t)
      echoed-Quiet true = g
      echoed-Quiet false = g

  pub run_for-Quiet :
      (js : Engine) (text id : String) (echo : Bool) (robot : Option Target) (t : Terminal)
      → Quiet k t
      → Quiet k (run_for c js text id echo robot t)
  unfolding run_for
  run_for-Quiet js text id echo none t g = g
  run_for-Quiet js text id echo (some r) t g = run_text-Quiet js text id echo r t g

  pub run_command-Quiet :
      (js : Engine) (command id : String) (echo : Bool) (t : Terminal)
      → Quiet k t
      → Quiet k (run_command c js command id echo t)
  unfolding run_command
  run_command-Quiet js command id echo t g =
      run_for-Quiet js (trim command) id echo t.current_robot t g

  pub launch-Quiet :
      (js : Engine) (p : Option Preset) (t : Terminal) → Quiet k t → Quiet k (launch c js p t)
  unfolding launch write
  launch-Quiet js none t g = g
  launch-Quiet js (some p) t g =
      run_command-Quiet js p.command p.id false
        (call (preset_launch p)
          (write (ok_line (template ("Launching preset: " ∷ p.label ∷ []))) t))
        g

  pub end_flow-Quiet :
      (js : Engine) (purpose : Purpose) (value : Bool) (t : Terminal)
      → Quiet k t
      → Quiet k (end_flow c js purpose value t)
  unfolding end_flow end_command end_reconnect write
  end_flow-Quiet js opening_view true t g =
      launch-Quiet js (find? Preset.auto t.preset_commands) t g
  end_flow-Quiet js opening_view false t g = g
  end_flow-Quiet js (running text) true t g =
      if-Holds (Quiet k) (is_stream_open t) _ _ (λ e. send-Quiet _ t g) (λ e. g)
  end_flow-Quiet js (running text) false t g = g
  end_flow-Quiet js reconnecting true t g = g
  end_flow-Quiet js reconnecting false t g = g

  pub proceed-Quiet :
      (js : Engine) (f : Flow) (stage : Stage) (value : Bool) (t : Terminal)
      → f.stage ≡ stage
      → Quiet k t
      → Quiet k (proceed c js f value t)
  unfolding proceed
  proceed-Quiet js f in_deletion value t e g =
      rw (e, proceed) (connect_live_session-Quiet t.current_robot f.purpose t g)
  proceed-Quiet js f in_session true t e g = rw (e, proceed) (open_stream-Quiet f.robot t g)
  proceed-Quiet js f in_session false t e g =
      rw (e, proceed) (end_flow-Quiet js f.purpose false t g)
  proceed-Quiet js f in_stream value t e g = rw (e, proceed) (end_flow-Quiet js f.purpose value t g)
