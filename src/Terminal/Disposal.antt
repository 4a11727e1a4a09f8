-- ===== src/Terminal/Disposal.antt =====
-- What `dispose` ends (assets/js/components/robot-terminal-component.js): the view, the stream, the
-- session and its request.
use robot_maintanance.Prelude.{ℕ, String, false, none, some, ◌≡◌, refl, arith}
use robot_maintanance.Js.Engine.{Engine}
use robot_maintanance.Terminal.{
  Setup, ViewMode, fallback, ConnectionState, disconnected, Panel, set_mode_badge,
  set_connection_status, update_connection_controls,
}
use robot_maintanance.Terminal.State.{Terminal, ReadyState, opened, closed}
use robot_maintanance.Terminal.Stream.{
  close_stream, set_ready, on_open, on_error, on_close, handle_stream_message,
}
use robot_maintanance.Terminal.Session.{abort_session, disconnect_remote_session}
use robot_maintanance.Terminal.View.{dispose}
use robot_maintanance.Terminal.Events.{
  handle, socket_opens, socket_fails, socket_closes, socket_receives,
}

pub set_connection_status-state :
    (c : Setup) (mode : ViewMode) (s : ConnectionState) (message : String) (p : Panel)
    → (set_connection_status c mode s message p).connection_state ≡ s
unfolding set_connection_status set_mode_badge update_connection_controls
set_connection_status-state c mode s message p = ground arith

-- Nothing is left of the view, the stream and the session.
pub record IsDisposed (u : Terminal) : Type 0 where
  pub mode : u.mode ≡ fallback
  pub view : u.terminal ≡ none
  pub input : u.input ≡ none
  pub stream : u.stream_socket ≡ none
  pub promise : u.stream_open_promise ≡ none
  pub controller : u.session_connect_controller ≡ none
  pub in_flight : u.session_in_flight ≡ false
  pub state : u.panel.connection_state ≡ disconnected

-- `dispose` leaves no view, no input line, no stream, no session request and the state
-- `disconnected`; it aborts the request that the component controls, and asks for the deletion of
-- the session as `_disconnectRemoteSession` does for the robot there was.
pub dispose-IsDisposed :
    (c : Setup) (t : Terminal)
    → IsDisposed (dispose c t)
      × ((dispose c t).tasks ≡ (abort_session t).tasks)
      × ((dispose c t).calls ≡ (disconnect_remote_session c t).calls)
unfolding dispose abort_session close_stream disconnect_remote_session
dispose-IsDisposed c t = (
  record {
    mode = refl;
    view = refl;
    input = refl;
    stream = refl;
    promise = refl;
    controller = refl;
    in_flight = refl;
    state = set_connection_status-state c fallback disconnected "Session closed" _;
  },
  refl,
  refl,
)

silenced :
    (c : Setup) (t : Terminal) (k : ℕ)
    → t.stream_socket ≡ some k
    → ((dispose c t).sockets k).listening ≡ false
unfolding dispose abort_session close_stream disconnect_remote_session
silenced c t k e = ground (arith, e)

handle-silent :
    (k : ℕ) (handler : Terminal → Terminal) (t : Terminal)
    → (t.sockets k).listening ≡ false
    → handle k handler t ≡ t
handle-silent k handler t e = rw e refl

set_ready-silent :
    (k : ℕ) (ready : ReadyState) (t : Terminal)
    → (t.sockets k).listening ≡ false
    → ((set_ready k ready t).sockets k).listening ≡ false
set_ready-silent k ready t e = ground (arith, e)

-- `dispose` of a component with a stream leaves no view, no input line, no stream, no session request
-- and the state `disconnected`; when the socket that was the stream opens, fails, closes or receives
-- a message afterwards, only its own state changes.
pub dispose-ends_stream :
    (c : Setup) (js : Engine) (t : Terminal) (k code : ℕ) (text : String)
    → t.stream_socket ≡ some k
    → let u = dispose c t in
      IsDisposed u
      × (socket_opens c k u ≡ set_ready k opened u)
      × (socket_fails c k u ≡ set_ready k closed u)
      × (socket_closes c k code u ≡ set_ready k closed u)
      × (socket_receives c js k text u ≡ u)
unfolding socket_opens socket_fails socket_closes socket_receives
dispose-ends_stream c js t k code text e =
    let s = silenced c t k e in
    let off = λ (ready : ReadyState). set_ready-silent k ready (dispose c t) s in
    (
      (dispose-IsDisposed c t).0,
      handle-silent k (on_open c k) _ (off opened),
      handle-silent k (on_error c k) _ (off closed),
      handle-silent k (on_close c k code) _ (off closed),
      handle-silent k (handle_stream_message c js text) _ s,
    )
