-- ===== src/Terminal/Showing/Reach.antt =====
-- What the terminal shows in every state that it can reach
-- (assets/js/components/robot-terminal-component.js).
use robot_maintanance.Prelude.{
  ℕ, String, not, ◌&&◌, Option, none, some, refl, arith, is_some, ◌===◌, if-Holds,
}
use robot_maintanance.Js.{Number, Value}
use robot_maintanance.Js.Engine.{Engine}
use robot_maintanance.Terminal.{Setup, is_live, connecting, disconnected, error}
use robot_maintanance.Terminal.State.{Terminal, opened, closed, Target, new_terminal}
use robot_maintanance.Terminal.Stream.{
  set_ready, on_open, on_error, on_close, is_stream_open, handle_stream_message, handle_payload,
  message_type, text_field, send_resize,
}
use robot_maintanance.Terminal.Session.{
  SessionAnswer, accepted, canceled, failed, refused, answer_session, answer_status, abort_session,
}
use robot_maintanance.Terminal.Flows.{
  handle_input, resize, fit, sized, reconnect_with, has_fit_addon, reconnect_session,
}
use robot_maintanance.Terminal.Events.{
  handle, socket_opens, socket_fails, socket_closes, socket_receives, Step, connects, launches,
  commands, types, resizes, fits, reconnects, disposes, answers, opens, fails, begins_closing,
  closes, receives, proceeds, Reachable, built, stepped,
}
use robot_maintanance.Terminal.Showing.{
  HasBadge, ShowsState, status-ShowsState, write-ShowsState, send-ShowsState,
  send_resize-ShowsState, close_stream-ShowsState,
}
use robot_maintanance.Terminal.Showing.Steps.{
  delete-ShowsState, dispose-ShowsState, connect-ShowsState, run_command-ShowsState,
  launch-ShowsState, proceed-ShowsState, on_open-ShowsState, on_error-ShowsState,
  on_close-ShowsState,
}

module _ (c : Setup) (h : HasBadge c) where
  size-ShowsState :
      (cols rows : Number) (t : Terminal)
      → ShowsState t
      → ShowsState (send_resize cols rows (record t { terminal = sized cols rows t.terminal }))
  size-ShowsState cols rows t g =
      send_resize-ShowsState c h cols rows _
        (record { controls = g.controls; view = ground (arith, g.view); input = g.input })

  handle_input-ShowsState :
      (text : String) (t : Terminal) → ShowsState t → ShowsState (handle_input c text t)
  unfolding handle_input
  handle_input-ShowsState text t g =
      if-Holds ShowsState (not (is_some t.terminal)) _ _ (λ e. g)
        (λ e.
          if-Holds ShowsState (is_stream_open t) _ _ (λ e. send-ShowsState c h _ t g)
            (λ e.
              if-Holds ShowsState (is_live t.mode) _ _ (λ e. status-ShowsState c h error _ t g)
                (λ e. g)))

  reconnect_with-ShowsState :
      (robot : Option Target) (t : Terminal) → ShowsState t → ShowsState (reconnect_with c robot t)
  unfolding reconnect_with abort_session
  reconnect_with-ShowsState none t g = g
  reconnect_with-ShowsState (some r) t g =
      let s = delete-ShowsState c h _ (
        status-ShowsState c h disconnected "Closing session..." _ (
          close_stream-ShowsState c h (abort_session t)
            (record { controls = g.controls; view = g.view; input = g.input }))) in
      record { controls = s.controls; view = s.view; input = s.input }

  answer_status-ShowsState :
      (answer : SessionAnswer) (t : Terminal) → ShowsState t → ShowsState (answer_status c answer t)
  answer_status-ShowsState accepted t g = status-ShowsState c h connecting _ t g
  answer_status-ShowsState canceled t g = status-ShowsState c h disconnected _ t g
  answer_status-ShowsState failed t g = status-ShowsState c h error _ t g
  answer_status-ShowsState (refused text code) t g = status-ShowsState c h error _ t g

  handle_stream_message-ShowsState :
      (js : Engine) (text : String) (t : Terminal)
      → ShowsState t
      → ShowsState (handle_stream_message c js text t)
  unfolding handle_stream_message handle_payload
  handle_stream_message-ShowsState js text t g =
      if-Holds ShowsState (is_some t.terminal) _ _ (λ e. handle_payload-ShowsState (c.parse text))
        (λ e. g)
    where
      handle_payload-ShowsState :
          (payload : Option Value) → ShowsState (handle_payload c js text payload t)
      handle_payload-ShowsState none = write-ShowsState c h _ t g
      handle_payload-ShowsState (some payload) =
          if-Holds ShowsState
            (message_type js payload === "output" && is_some (text_field payload "data")) _ _
            (λ e. write-ShowsState c h _ t g)
            (λ e.
              if-Holds ShowsState (message_type js payload === "error") _ _
                (λ e. status-ShowsState c h error _ _ (write-ShowsState c h _ t g)) (λ e. g))

  handle-ShowsState :
      (k : ℕ) (handler : Terminal → Terminal) (t : Terminal)
      → ShowsState (handler t)
      → ShowsState t
      → ShowsState (handle k handler t)
  handle-ShowsState k handler t s g =
      if-Holds ShowsState (t.sockets k).listening _ _ (λ e. s) (λ e. g)

  step-ShowsState : (js : Engine) (t u : Terminal) → Step c js t u → ShowsState t → ShowsState u
  unfolding resize fit reconnect_session socket_opens socket_fails socket_closes socket_receives
      answer_session
  step-ShowsState js _ _ (connects robot presets t) g = connect-ShowsState c h robot presets t g
  step-ShowsState js _ _ (commands command id echo t) g =
      run_command-ShowsState c h js command id echo t g
  step-ShowsState js _ _ (launches p t) g = launch-ShowsState c h js (some p) t g
  step-ShowsState js _ _ (types text t) g = handle_input-ShowsState text t g
  step-ShowsState js _ _ (resizes cols rows t) g = size-ShowsState cols rows t g
  step-ShowsState js _ _ (fits cols rows t) g =
      if-Holds ShowsState (is_live t.mode && has_fit_addon t.terminal) _ _
        (λ e. size-ShowsState cols rows t g) (λ e. g)
  step-ShowsState js _ _ (reconnects t) g = reconnect_with-ShowsState t.current_robot t g
  step-ShowsState js _ _ (disposes t) g = dispose-ShowsState c h t g.controls.has_led
  step-ShowsState js _ _ (answers k answer t e f) g =
      let s = answer_status-ShowsState answer t g in
      record { controls = s.controls; view = s.view; input = s.input }
  step-ShowsState js _ _ (opens k t) g =
      let s : ShowsState (set_ready k opened t) = record {
        controls = g.controls;
        view = g.view;
        input = g.input;
      } in
      handle-ShowsState k (on_open c k) _ (on_open-ShowsState c h k _ s) s
  step-ShowsState js _ _ (fails k t) g =
      let s : ShowsState (set_ready k closed t) = record {
        controls = g.controls;
        view = g.view;
        input = g.input;
      } in
      handle-ShowsState k (on_error c k) _ (on_error-ShowsState c h k _ s) s
  step-ShowsState js _ _ (begins_closing k t) g = record {
    controls = g.controls;
    view = g.view;
    input = g.input;
  }
  step-ShowsState js _ _ (closes k code t) g =
      let s : ShowsState (set_ready k closed t) = record {
        controls = g.controls;
        view = g.view;
        input = g.input;
      } in
      handle-ShowsState k (on_close c k code) _ (on_close-ShowsState c h k code _ s) s
  step-ShowsState js _ _ (receives k text t) g =
      handle-ShowsState k (handle_stream_message c js text) t
        (handle_stream_message-ShowsState js text t g) g
  step-ShowsState js _ _ (proceeds before after f value t e v) g =
      proceed-ShowsState c h js f f.stage value _ refl
        (record { controls = g.controls; view = g.view; input = g.input })

-- Where the page has the badge and its hint, in every state that the terminal can reach, the
-- reconnect button is enabled exactly where the terminal is live and not connecting and carries the
-- label of that state, a view is there exactly where it is live, and an input line only where it is
-- in fallback mode.
pub Reachable-ShowsState :
    (c : Setup) (js : Engine) (t : Terminal) → HasBadge c → Reachable c js t → ShowsState t
unfolding new_terminal
Reachable-ShowsState c js _ h built = record {
  controls = record { has_led = λ e. refl; button = refl };
  view = refl;
  input = λ e. cc;
}
Reachable-ShowsState c js _ h (stepped t u r s) =
    step-ShowsState c h js t u s (Reachable-ShowsState c js t h r)
