-- ===== src/Terminal/Showing/Steps.antt =====
-- What the terminal shows after its calls and the events of its sockets
-- (assets/js/components/robot-terminal-component.js).
use robot_maintanance.Prelude.{
  ℕ, String, Bool, true, false, not, ◌&&◌, ◌||◌, ◌==◌, Option, none, some, List, [], ◌∷◌, ◌≡◌, ◌∙◌,
  refl, arith, is_some, ◌===◌, find?, if-Holds,
}
use robot_maintanance.Js.{template, trim}
use robot_maintanance.Js.Engine.{Engine}
use robot_maintanance.Terminal.{Setup, fallback, is_live, disconnected, error, connected, warn}
use robot_maintanance.Terminal.State.{
  Terminal, Target, Preset, ok_line, Purpose, opening_view, reconnecting, running, Stage,
  in_deletion, in_session, in_stream, Flow,
}
use robot_maintanance.Terminal.Stream.{on_open, on_error, on_close, close_stream, is_stream_open}
use robot_maintanance.Terminal.Session.{abort_session, disconnect_remote_session}
use robot_maintanance.Terminal.View.{initialize_terminal, render_toolbar, dispose}
use robot_maintanance.Terminal.Flows.{
  prepared, connect_live_session, run_command, end_command, end_reconnect, end_flow, proceed,
  run_live, run_text, run_for, echoed, launch, has_id, connect,
}
use robot_maintanance.Terminal.Showing.{
  HasBadge, HasLed, ShowsState, set_mode_badge-ShowsControls, set_connection_status-ShowsControls,
  status-ShowsState, write-ShowsState, send-ShowsState, send_view_size-ShowsState,
  finalize-ShowsState, open_stream-ShowsState, ensure_remote_session-ShowsState,
}
use robot_maintanance.Terminal.Showing.Views.{initialize_terminal-ShowsState}

-- A state that differs in nothing that is shown.
pub as_before :
    (t u : Terminal)
    → ShowsState t
    → u.panel ≡ t.panel
    → u.mode ≡ t.mode
    → u.terminal ≡ t.terminal
    → u.input ≡ t.input
    → ShowsState u
as_before t u g panel mode terminal input = record {
  controls = rw (panel, mode) g.controls;
  view = rw (mode, terminal) g.view;
  input = rw (mode, input) g.input;
}

module _ (c : Setup) (h : HasBadge c) where
  pub delete-ShowsState : (t : Terminal) → ShowsState t → ShowsState (disconnect_remote_session c t)
  unfolding disconnect_remote_session
  delete-ShowsState t g =
      as_before t (disconnect_remote_session c t) g (ground arith) (ground arith) (ground arith)
        (ground arith)

  -- Whatever a terminal was, once disposed of it has no view and its controls are shown.
  pub dispose-ShowsState : (t : Terminal) → HasLed t.panel → ShowsState (dispose c t)
  unfolding dispose close_stream abort_session
  dispose-ShowsState t led = delete-ShowsState _ (record {
    controls =
        set_connection_status-ShowsControls c fallback disconnected _ _ h
          (set_mode_badge-ShowsControls c fallback _ warn _ h led).has_led;
    view = refl;
    input = λ e. refl;
  })

  render_toolbar-HasLed : (t : Terminal) → HasLed t.panel → HasLed (render_toolbar c t).panel
  unfolding render_toolbar
  render_toolbar-HasLed t led =
      if-Holds HasLed c.has_toolbar _ _
        (λ e.
          (set_connection_status-ShowsControls c t.mode t.panel.connection_state _ _ h
            (λ n. cc)).has_led)
        (λ e. led)

  render_toolbar-terminal : (t : Terminal) → (render_toolbar c t).terminal ≡ t.terminal
  unfolding render_toolbar
  render_toolbar-terminal t = ground arith

  dispose-terminal : (t : Terminal) → (dispose c t).terminal ≡ none
  unfolding dispose disconnect_remote_session
  dispose-terminal t = ground arith

  pub connect_live_session-ShowsState :
      (robot : Option Target) (purpose : Purpose) (t : Terminal)
      → ShowsState t
      → ShowsState (connect_live_session c robot purpose t)
  unfolding connect_live_session
  connect_live_session-ShowsState robot purpose t g =
      let s = ensure_remote_session-ShowsState c h robot t g in
      if-Holds ShowsState (has_id robot && is_live t.mode) _ _
        (λ e. record { controls = s.controls; view = s.view; input = s.input })
        (λ e. record { controls = g.controls; view = g.view; input = g.input })

  pub connect-ShowsState :
      (robot : Option Target) (presets : List Preset) (t : Terminal)
      → ShowsState t
      → ShowsState (connect c robot presets t)
  unfolding connect prepared
  connect-ShowsState robot presets t g =
      let d = record t { preset_commands = presets } in
      let u = record (dispose c d) { disposing = false; current_robot = robot } in
      connect_live_session-ShowsState robot opening_view
        (initialize_terminal c robot (prepared c robot presets t))
        (initialize_terminal-ShowsState c h robot (prepared c robot presets t)
          (render_toolbar-terminal u ∙ dispose-terminal d)
          (render_toolbar-HasLed u (dispose-ShowsState d g.controls.has_led).controls.has_led))

  pub run_live-ShowsState :
      (text : String) (clears : Bool) (r : Target) (t : Terminal)
      → ShowsState t
      → ShowsState (run_live c text clears r t)
  unfolding run_live
  run_live-ShowsState text true r t g = record {
    controls = g.controls;
    view = ground (arith, g.view);
    input = g.input;
  }
  run_live-ShowsState text false r t g = connect_live_session-ShowsState (some r) (running text) t g

  pub echoed-ShowsState :
      (echo : Bool) (text : String) (t : Terminal) → ShowsState t → ShowsState (echoed echo text t)
  unfolding echoed
  echoed-ShowsState true text t g = write-ShowsState c h _ t g
  echoed-ShowsState false text t g = g

  pub run_text-ShowsState :
      (js : Engine) (text id : String) (echo : Bool) (r : Target) (t : Terminal)
      → ShowsState t
      → ShowsState (run_text c js text id echo r t)
  unfolding run_text
  run_text-ShowsState js text id echo r t g =
      if-Holds ShowsState (text === "") t _ (λ e. g)
        (λ e.
          if-Holds ShowsState (not (is_live t.mode)) _ _
            (λ e. record { controls = g.controls; view = g.view; input = g.input })
            (λ e. run_live-ShowsState text _ r _ (echoed-ShowsState echo text t g)))

  pub run_for-ShowsState :
      (js : Engine) (text id : String) (echo : Bool) (robot : Option Target) (t : Terminal)
      → ShowsState t
      → ShowsState (run_for c js text id echo robot t)
  unfolding run_for
  run_for-ShowsState js text id echo none t g = g
  run_for-ShowsState js text id echo (some r) t g = run_text-ShowsState js text id echo r t g

  pub run_command-ShowsState :
      (js : Engine) (command id : String) (echo : Bool) (t : Terminal)
      → ShowsState t
      → ShowsState (run_command c js command id echo t)
  unfolding run_command
  run_command-ShowsState js command id echo t g =
      run_for-ShowsState js (trim command) id echo t.current_robot t g

  pub launch-ShowsState :
      (js : Engine) (p : Option Preset) (t : Terminal) → ShowsState t → ShowsState (launch c js p t)
  unfolding launch
  launch-ShowsState js none t g = g
  launch-ShowsState js (some p) t g =
      let s = write-ShowsState c h (ok_line (template ("Launching preset: " ∷ p.label ∷ []))) t g in
      run_command-ShowsState js p.command p.id false _
        (record { controls = s.controls; view = s.view; input = s.input })

  pub end_flow-ShowsState :
      (js : Engine) (purpose : Purpose) (value : Bool) (t : Terminal)
      → ShowsState t
      → ShowsState (end_flow c js purpose value t)
  unfolding end_flow end_command end_reconnect
  end_flow-ShowsState js opening_view true t g =
      launch-ShowsState js (find? Preset.auto t.preset_commands) t g
  end_flow-ShowsState js opening_view false t g = g
  end_flow-ShowsState js (running text) true t g =
      if-Holds ShowsState (is_stream_open t) _ _ (λ e. send-ShowsState c h _ t g)
        (λ e. write-ShowsState c h _ _ (status-ShowsState c h error _ t g))
  end_flow-ShowsState js (running text) false t g = write-ShowsState c h _ t g
  end_flow-ShowsState js reconnecting true t g =
      write-ShowsState c h _ _ (status-ShowsState c h connected _ t g)
  end_flow-ShowsState js reconnecting false t g =
      write-ShowsState c h _ _ (status-ShowsState c h error _ t g)

  pub proceed-ShowsState :
      (js : Engine) (f : Flow) (stage : Stage) (value : Bool) (t : Terminal)
      → f.stage ≡ stage
      → ShowsState t
      → ShowsState (proceed c js f value t)
  unfolding proceed
  proceed-ShowsState js f in_deletion value t e g =
      rw (e, proceed) (connect_live_session-ShowsState t.current_robot f.purpose t g)
  proceed-ShowsState js f in_session true t e g =
      let s = open_stream-ShowsState c h f.robot t g in
      rw (e, proceed) (record { controls = s.controls; view = s.view; input = s.input })
  proceed-ShowsState js f in_session false t e g =
      rw (e, proceed) (end_flow-ShowsState js f.purpose false t g)
  proceed-ShowsState js f in_stream value t e g =
      rw (e, proceed) (end_flow-ShowsState js f.purpose value t g)

  pub on_open-ShowsState : (k : ℕ) (t : Terminal) → ShowsState t → ShowsState (on_open c k t)
  unfolding on_open
  on_open-ShowsState k t g =
      finalize-ShowsState c h k true _
        (send_view_size-ShowsState c h _ (status-ShowsState c h connected _ t g))

  pub on_error-ShowsState : (k : ℕ) (t : Terminal) → ShowsState t → ShowsState (on_error c k t)
  unfolding on_error
  on_error-ShowsState k t g =
      if-Holds ShowsState (is_some (t.sockets k).settled) _ _ (λ e. g)
        (λ e. finalize-ShowsState c h k false _ (status-ShowsState c h error _ t g))

  pub on_close-ShowsState :
      (k code : ℕ) (t : Terminal) → ShowsState t → ShowsState (on_close c k code t)
  unfolding on_close
  on_close-ShowsState k code t g =
      let s : ShowsState (record t { stream_socket = none; stream_open_promise = none }) = record {
        controls = g.controls;
        view = g.view;
        input = g.input;
      } in
      if-Holds ShowsState (t.disposing || not (is_live t.mode)) _ _
        (λ e. finalize-ShowsState c h k false _ s)
        (λ e. finalize-ShowsState c h k false _ (
          if-Holds ShowsState (code == 1000) _ _ (λ e. status-ShowsState c h disconnected _ _ s)
            (λ e. write-ShowsState c h _ _ (status-ShowsState c h error _ _ s))))
