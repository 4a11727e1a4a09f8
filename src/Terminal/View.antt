-- ===== src/Terminal/View.antt =====
-- The view of the terminal: the toolbar, the start of the terminal view, the fallback mode and
-- `dispose`.
use robot_maintanance.Prelude.{
  String, true, false, not, ◌||◌, Option, none, some, [], ◌∷◌, if◌then◌else◌,
}
use robot_maintanance.Js.{template, includes}
use robot_maintanance.Js.Engine.{Engine}
use robot_maintanance.Terminal.{
  Setup, live, fallback, ViewOutcome, constructor_throws, opening_throws, wiring_throws, view_works,
  ok, warn, connecting, disconnected, set_connection_status, or_else,
}
use robot_maintanance.Terminal.State.{
  Terminal, Target, Preset, Xterm, fallback_mode, ok_line, warn_line, status, mode_badge, write,
  call, build_endpoint, robot_label,
}
use robot_maintanance.Terminal.Stream.{close_stream}
use robot_maintanance.Terminal.Session.{abort_session, disconnect_remote_session}

-- `_resolvePresetIntent`
pub data Intent : Type 0 where
  danger run : Intent

unfoldable pub resolve_preset_intent : Engine → Preset → Intent
resolve_preset_intent js preset =
    if includes "restart" (js.lower preset.id)
      || includes "docker compose" (js.lower preset.command)
    then danger
    else run

-- `_renderToolbar`: the LED and the reconnect button are made anew.
unfoldable pub render_toolbar : Setup → Terminal → Terminal
render_toolbar c t = record t {
  panel =
      if c.has_toolbar
      then set_connection_status c t.mode t.panel.connection_state t.panel.connection_message
          (record t.panel {
            led = some (record {
              shows = disconnected;
              title = "";
              text = or_else t.panel.connection_message "SSH disconnected";
            });
            reconnect =
                if c.shows_reconnect
                then some (record { disabled = false; label = "Reconnect SSH" })
                else none;
          })
      else t.panel;
}

abbrev prompt_of : Option Target → String
prompt_of robot = template (robot_label robot ∷ "@terminal$ " ∷ [])

-- `_fallbackState`
unfoldable pub fallback_state : Setup → Terminal → Terminal
unfolding close_stream
fallback_state c t =
    let t =
      mode_badge c "Fallback terminal mode" warn (close_stream (record t { mode = fallback })) in
    if c.has_element
    then call (fallback_mode t.current_robot)
        (record t { terminal = none; input = some (prompt_of t.current_robot) })
    else t

-- `_setFallbackMode(reason)` and `_fallbackState()`
unfoldable pub fall_back : Setup → String → Terminal → Terminal
unfolding fallback_state
fall_back c reason t =
    fallback_state c (mode_badge c (template ("Fallback terminal mode: " ∷ reason ∷ [])) warn t)

-- The view is made: the component is live.
abbrev pub make_view : Setup → Terminal → Terminal
make_view c t = status c connecting "Creating terminal session" (record t {
  mode = live;
  terminal = some (record { cols = c.cols; rows = c.rows; has_fit = true; written = [] });
})

abbrev without_fit : Option Xterm → Option Xterm
without_fit none = none
without_fit (some x) = some (record x { has_fit = false })

-- The fit addon is loaded, or given up with a warning.
unfoldable pub load_fit : Setup → Terminal → Terminal
unfolding write
load_fit c t = record t {
  terminal =
      if c.fit_works
      then t.terminal
      else (write (warn_line "Fit addon unavailable: terminal resizing is disabled.")
          (record t { terminal = without_fit t.terminal })).terminal;
}

unfoldable pub opened_view : Setup → Target → String → Terminal → Terminal
unfolding load_fit write
opened_view c r endpoint t =
    write
      (ok_line (template ("Connecting to " ∷ or_else r.name r.id ∷ " interactive shell..." ∷ [])))
      (status c disconnected "Not connected" (
        mode_badge c (template ("Streaming terminal: " ∷ endpoint ∷ [])) ok
          (load_fit c (make_view c t))))

abbrev pub no_view : String
no_view = "Unable to initialize terminal view."

-- The `try` of `_initializeTerminal`, after `_cleanupTerminalDOM` and `_detachLegacyInput`
unfoldable pub start_view : Setup → Target → String → ViewOutcome → Terminal → Terminal
unfolding fall_back opened_view
start_view c r endpoint constructor_throws t = fall_back c no_view t
start_view c r endpoint opening_throws t = fall_back c no_view (make_view c t)
start_view c r endpoint wiring_throws t = fall_back c no_view (opened_view c r endpoint t)
start_view c r endpoint view_works t = opened_view c r endpoint t

unfoldable pub view_at : Setup → Target → Option String → Terminal → Terminal
unfolding fall_back start_view
view_at c r none t = fall_back c "Command endpoint not configured." t
view_at c r (some endpoint) t = start_view c r endpoint c.view (record t { input = none })

-- `_initializeTerminal`
unfoldable pub initialize_terminal : Setup → Option Target → Terminal → Terminal
unfolding fall_back start_view view_at
initialize_terminal c none t = fall_back c "Invalid terminal container or robot." t
initialize_terminal c (some r) t =
    if not c.has_element
    then fall_back c "Invalid terminal container or robot." t
    else if not c.has_terminal_ctor
    then fall_back c "Terminal runtime is not available in this browser." t
    else view_at c r (build_endpoint c r.id) t

-- `dispose`
unfoldable pub dispose : Setup → Terminal → Terminal
unfolding abort_session close_stream disconnect_remote_session
dispose c t =
    let t =
      close_stream
        (record (abort_session (record t { disposing = true; mode = fallback; input = none })) {
          session_connect_controller = none;
          session_in_flight = false;
          session_state_promise = none;
        }) in
    let t = record t {
      panel = record t.panel {
        connection_state = disconnected;
        connection_message = "Session closed";
      };
      terminal = none;
    } in
    disconnect_remote_session c
      (status c disconnected "Session closed" (mode_badge c "Terminal disconnected" warn t))
