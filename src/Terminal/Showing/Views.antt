-- ===== src/Terminal/Showing/Views.antt =====
-- What the terminal shows after its view is made, given up or disposed of
-- (assets/js/components/robot-terminal-component.js).
use robot_maintanance.Prelude.{
  String, true, false, not, Option, none, some, [], ◌∷◌, ◌≡◌, refl, ap, arith, is_some, if-Holds,
}
use robot_maintanance.Js.{template}
use robot_maintanance.Terminal.{
  Setup, ViewOutcome, live, fallback, is_live, connecting, Kind, constructor_throws, opening_throws,
  wiring_throws, view_works, warn, disconnected, ok,
}
use robot_maintanance.Terminal.State.{Terminal, Target, build_endpoint, mode_badge, write}
use robot_maintanance.Terminal.Stream.{close_stream}
use robot_maintanance.Terminal.View.{
  fallback_state, fall_back, load_fit, make_view, opened_view, start_view, view_at,
  initialize_terminal,
}
use robot_maintanance.Terminal.Showing.{
  HasBadge, HasLed, ShowsState, set_mode_badge-ShowsControls, set_connection_status-ShowsControls,
  status-ShowsState, write-ShowsState,
}

module _ (c : Setup) (h : HasBadge c) where
  -- Setting the badge shows the state again, also after a change of the mode.
  pub mode_badge-ShowsState :
      (message : String) (kind : Kind) (t : Terminal)
      → (t.panel.led ≡ none → t.panel.reconnect ≡ none)
      → is_some t.terminal ≡ is_live t.mode
      → (is_some t.input ≡ true → t.mode ≡ fallback)
      → ShowsState (mode_badge c message kind t)
  mode_badge-ShowsState message kind t led view input = record {
    controls = set_mode_badge-ShowsControls c t.mode message kind t.panel h led;
    view = view;
    input = input;
  }

  -- The fallback mode shows itself, once an element or no view is there.
  pub fallback_state-ShowsState :
      (t : Terminal)
      → (c.has_element ≡ false → t.terminal ≡ none)
      → HasLed t.panel
      → ShowsState (fallback_state c t)
  unfolding fallback_state close_stream
  fallback_state-ShowsState t view led =
      let panel =
        set_mode_badge-ShowsControls c fallback "Fallback terminal mode" warn t.panel h led in
      if-Holds ShowsState c.has_element _ _
        (λ e. record { controls = panel; view = refl; input = λ i. refl })
        (λ e. record { controls = panel; view = ap is_some (view e); input = λ i. refl })

  pub fall_back-ShowsState :
      (reason : String) (t : Terminal)
      → (c.has_element ≡ false → t.terminal ≡ none)
      → HasLed t.panel
      → ShowsState (fall_back c reason t)
  unfolding fall_back
  fall_back-ShowsState reason t view led =
      fallback_state-ShowsState
        (mode_badge c (template ("Fallback terminal mode: " ∷ reason ∷ [])) warn t) view
        (set_mode_badge-ShowsControls c t.mode _ warn t.panel h led).has_led

  pub load_fit-ShowsState : (t : Terminal) → ShowsState t → ShowsState (load_fit c t)
  unfolding load_fit write
  load_fit-ShowsState t g = record {
    controls = g.controls;
    view = ground (arith, g.view);
    input = g.input;
  }

  pub make_view-ShowsState :
      (t : Terminal) → t.input ≡ none → HasLed t.panel → ShowsState (make_view c t)
  make_view-ShowsState t i led = record {
    controls = set_connection_status-ShowsControls c live connecting _ t.panel h led;
    view = refl;
    input = λ e. cc;
  }

  pub opened_view-ShowsState :
      (r : Target) (endpoint : String) (t : Terminal)
      → t.input ≡ none
      → HasLed t.panel
      → ShowsState (opened_view c r endpoint t)
  unfolding opened_view
  opened_view-ShowsState r endpoint t i led =
      let fitted = load_fit-ShowsState _ (make_view-ShowsState t i led) in
      write-ShowsState c h _ _ (
        status-ShowsState c h disconnected _ _
          (mode_badge-ShowsState _ ok _ fitted.controls.has_led fitted.view fitted.input))

  pub start_view-ShowsState :
      (r : Target) (endpoint : String) (outcome : ViewOutcome) (t : Terminal)
      → c.has_element ≡ true
      → t.terminal ≡ none
      → t.input ≡ none
      → HasLed t.panel
      → ShowsState (start_view c r endpoint outcome t)
  unfolding start_view
  start_view-ShowsState r endpoint constructor_throws t e v i led =
      fall_back-ShowsState _ t (λ f. v) led
  start_view-ShowsState r endpoint opening_throws t e v i led =
      fall_back-ShowsState _ (make_view c t) (λ f. cc)
        (make_view-ShowsState t i led).controls.has_led
  start_view-ShowsState r endpoint wiring_throws t e v i led =
      fall_back-ShowsState _ (opened_view c r endpoint t) (λ f. cc)
        (opened_view-ShowsState r endpoint t i led).controls.has_led
  start_view-ShowsState r endpoint view_works t e v i led =
      opened_view-ShowsState r endpoint t i led

  view_at-ShowsState :
      (r : Target) (endpoint : Option String) (t : Terminal)
      → c.has_element ≡ true
      → t.terminal ≡ none
      → HasLed t.panel
      → ShowsState (view_at c r endpoint t)
  unfolding view_at
  view_at-ShowsState r none t e v led = fall_back-ShowsState _ t (λ f. v) led
  view_at-ShowsState r (some endpoint) t e v led =
      start_view-ShowsState r endpoint c.view (record t { input = none }) e v refl led

  pub initialize_terminal-ShowsState :
      (robot : Option Target) (t : Terminal)
      → t.terminal ≡ none
      → HasLed t.panel
      → ShowsState (initialize_terminal c robot t)
  unfolding initialize_terminal
  initialize_terminal-ShowsState none t v led = fall_back-ShowsState _ t (λ f. v) led
  initialize_terminal-ShowsState (some r) t v led =
      if-Holds ShowsState (not c.has_element) _ _ (λ e. fall_back-ShowsState _ t (λ f. v) led)
        (λ e.
          if-Holds ShowsState (not c.has_terminal_ctor) _ _
            (λ e. fall_back-ShowsState _ t (λ f. v) led)
            (λ f. view_at-ShowsState r (build_endpoint c r.id) t (ground arith) v led))
