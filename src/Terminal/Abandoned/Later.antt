-- ===== src/Terminal/Abandoned/Later.antt =====
-- The promise of a stream whose socket was silenced while it was opening, in all later states
-- (`_closeStream` and `_openStream` of assets/js/components/robot-terminal-component.js).
use robot_maintanance.Prelude.{
  ℕ, ◌<◌, String, true, false, not, ◌&&◌, Option, none, some, ◌++◌, ◌===◌, ◌≡◌, ◌≢◌, refl, arith,
  is_some, if-Holds,
}
use robot_maintanance.Js.{Value}
use robot_maintanance.Js.Engine.{Engine}
use robot_maintanance.Terminal.{Setup, is_live, error, connected}
use robot_maintanance.Terminal.State.{
  Terminal, Target, of_socket, opened, closing, closed, ReadyState, status, write,
}
use robot_maintanance.Terminal.Stream.{
  set_ready, on_open, on_error, on_close, is_stream_open, handle_stream_message, handle_payload,
  message_type, text_field, send_view_size, finalize, close_stream,
}
use robot_maintanance.Terminal.Session.{
  SessionAnswer, accepted, canceled, failed, refused, answer_session, abort_session,
  disconnect_remote_session,
}
use robot_maintanance.Terminal.Flows.{
  value_of, handle_input, resize, fit, sized, reconnect_with, has_fit_addon, reconnect_session,
}
use robot_maintanance.Terminal.Events.{
  handle, socket_opens, socket_fails, socket_closes, socket_receives, Step, connects, launches,
  commands, types, resizes, fits, reconnects, disposes, answers, opens, fails, begins_closing,
  closes, receives, proceeds,
}
use robot_maintanance.Terminal.Abandoned.{
  Quiet, launch-Quiet, send-Quiet, send_resize-Quiet, send_view_size-Quiet, close_stream-Quiet,
  finalize-Quiet, connect-Quiet, dispose-Quiet, run_command-Quiet, proceed-Quiet,
}

-- The states that follow a state.
pub data Later (c : Setup) (js : Engine) (t : Terminal) : Terminal → Type 0 where
  here : Later c js t t
  onward : (u v : Terminal) → Later c js t u → Step c js u v → Later c js t v

module _ (c : Setup) (k : ℕ) where
  handle_input-Quiet : (text : String) (t : Terminal) → Quiet k t → Quiet k (handle_input c text t)
  unfolding handle_input
  handle_input-Quiet text t g =
      if-Holds (Quiet k) (not (is_some t.terminal)) _ _ (λ e. g)
        (λ e.
          if-Holds (Quiet k) (is_stream_open t) _ _ (λ e. send-Quiet c k _ t g)
            (λ e. if-Holds (Quiet k) (is_live t.mode) _ _ (λ e. g) (λ e. g)))

  reconnect_with-Quiet :
      (robot : Option Target) (t : Terminal) → Quiet k t → Quiet k (reconnect_with c robot t)
  unfolding reconnect_with abort_session close_stream disconnect_remote_session
  reconnect_with-Quiet none t g = g
  reconnect_with-Quiet (some r) t g = let s = close_stream-Quiet c k t g in ground (arith, s)

  answer_session-Quiet :
      (j : ℕ) (answer : SessionAnswer) (t : Terminal)
      → Quiet k t
      → Quiet k (answer_session c j answer t)
  unfolding answer_session
  answer_session-Quiet j accepted t g = g
  answer_session-Quiet j canceled t g = g
  answer_session-Quiet j failed t g = g
  answer_session-Quiet j (refused text code) t g = g

  handle_payload-Quiet :
      (js : Engine) (text : String) (payload : Option Value) (t : Terminal)
      → Quiet k t
      → Quiet k (handle_payload c js text payload t)
  unfolding handle_payload write
  handle_payload-Quiet js text none t g = g
  handle_payload-Quiet js text (some payload) t g =
      if-Holds (Quiet k)
        (message_type js payload === "output" && is_some (text_field payload "data")) _ _ (λ e. g)
        (λ e. if-Holds (Quiet k) (message_type js payload === "error") _ _ (λ e. g) (λ e. g))

  set_ready-Quiet :
      (j : ℕ) (ready : ReadyState) (t : Terminal) → Quiet k t → Quiet k (set_ready j ready t)
  set_ready-Quiet j ready t g = ground (arith, g)

  -- A socket that still has its handlers is another one.
  handle-Quiet :
      (j : ℕ) (handler : Terminal → Terminal) (t : Terminal)
      → Quiet k t
      → (j ≢ k → Quiet k (handler t))
      → Quiet k (handle j handler t)
  handle-Quiet j handler t g s =
      if-Holds (Quiet k) (t.sockets j).listening _ _ (λ e. s (ground (arith, e, g))) (λ e. g)

  on_open-Quiet : (j : ℕ) (t : Terminal) → j ≢ k → Quiet k t → Quiet k (on_open c j t)
  unfolding on_open
  on_open-Quiet j t n g =
      let u = status c connected "SSH stream connected" t in
      finalize-Quiet c k j true (send_view_size u) n (send_view_size-Quiet c k u g)

  on_error-Quiet : (j : ℕ) (t : Terminal) → j ≢ k → Quiet k t → Quiet k (on_error c j t)
  unfolding on_error
  on_error-Quiet j t n g =
      if-Holds (Quiet k) (is_some (t.sockets j).settled) _ _ (λ e. g)
        (λ e. finalize-Quiet c k j false (status c error "Terminal stream failed" t) n g)

  on_close-Quiet : (j code : ℕ) (t : Terminal) → j ≢ k → Quiet k t → Quiet k (on_close c j code t)
  unfolding on_close finalize write
  on_close-Quiet j code t n g = let s = finalize-Quiet c k j false t n g in ground (arith, s, g, n)

  step-Quiet : (js : Engine) (t u : Terminal) → Step c js t u → Quiet k t → Quiet k u
  unfolding resize fit reconnect_session socket_opens socket_fails socket_closes socket_receives
      handle_stream_message
  step-Quiet js _ _ (connects robot presets t) g = connect-Quiet c k robot presets t g
  step-Quiet js _ _ (commands command id echo t) g = run_command-Quiet c k js command id echo t g
  step-Quiet js _ _ (launches p t) g = launch-Quiet c k js (some p) t g
  step-Quiet js _ _ (types text t) g = handle_input-Quiet text t g
  step-Quiet js _ _ (resizes cols rows t) g =
      send_resize-Quiet c k cols rows (record t { terminal = sized cols rows t.terminal }) g
  step-Quiet js _ _ (fits cols rows t) g =
      if-Holds (Quiet k) (is_live t.mode && has_fit_addon t.terminal) _ _
        (λ e.
          send_resize-Quiet c k cols rows (record t { terminal = sized cols rows t.terminal }) g)
        (λ e. g)
  step-Quiet js _ _ (reconnects t) g = reconnect_with-Quiet t.current_robot t g
  step-Quiet js _ _ (disposes t) g = dispose-Quiet c k t g
  step-Quiet js _ _ (answers j answer t e f) g = answer_session-Quiet j answer t g
  step-Quiet js _ _ (opens j t) g =
      let u = set_ready j opened t in
      let s = set_ready-Quiet j opened t g in
      handle-Quiet j (on_open c j) u s (λ n. on_open-Quiet j u n s)
  step-Quiet js _ _ (fails j t) g =
      let u = set_ready j closed t in
      let s = set_ready-Quiet j closed t g in
      handle-Quiet j (on_error c j) u s (λ n. on_error-Quiet j u n s)
  step-Quiet js _ _ (begins_closing j t) g = set_ready-Quiet j closing t g
  step-Quiet js _ _ (closes j code t) g =
      let u = set_ready j closed t in
      let s = set_ready-Quiet j closed t g in
      handle-Quiet j (on_close c j code) u s (λ n. on_close-Quiet j code u n s)
  step-Quiet js _ _ (receives j text t) g =
      handle-Quiet j (handle_stream_message c js text) t g (λ n.
        if-Holds (Quiet k) (is_some t.terminal) _ _
          (λ e. handle_payload-Quiet js text (c.parse text) t g) (λ e. g))
  step-Quiet js _ _ (proceeds before after f value t e v) g =
      proceed-Quiet c k js f f.stage value (record t { flows = before ++ after }) refl g

  Later-Quiet : (js : Engine) (t u : Terminal) → Later c js t u → Quiet k t → Quiet k u
  Later-Quiet js t _ here g = g
  Later-Quiet js t _ (onward u v l s) g = step-Quiet js u v s (Later-Quiet js t u l g)

-- Where `_closeStream` ends the stream while it is still opening, its promise is settled in no later
-- state, whatever happens: a call that waits for the promise never goes on.
pub close_stream-never_settled :
    (c : Setup) (js : Engine) (k : ℕ) (t u : Terminal)
    → t.stream_socket ≡ some k
    → k < t.next_socket
    → (t.sockets k).settled ≡ none
    → Later c js (close_stream t) u
    → value_of u (of_socket k) ≡ none
unfolding close_stream
close_stream-never_settled c js k t u e l s later =
    (Later-Quiet c k js (close_stream t) u later (ground (arith, e, l, s))).2
