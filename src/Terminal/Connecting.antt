-- ===== src/Terminal/Connecting.antt =====
-- How a terminal gets connected (assets/js/components/robot-terminal-component.js).
use robot_maintanance.Prelude.{
  ℕ, String, Bool, true, false, not, Option, none, some, List, ◌∷◌, ◌≡◌, refl, ap, ◌∙◌, arith,
  is_some, if◌then◌else◌,
}
use robot_maintanance.Js.Engine.{Engine}
use robot_maintanance.Terminal.{Setup, live, connected, disconnected, ViewOutcome, view_works}
use robot_maintanance.Terminal.State.{
  Terminal, Target, Preset, Flow, opening_view, in_session, in_stream, of_task, of_socket,
  input_message, build_endpoint, write, opened, Call, session_post,
}
use robot_maintanance.Terminal.Stream.{open_stream, start_stream, send, on_open, finalize}
use robot_maintanance.Terminal.Session.{
  accepted, answer_session, abort_session, disconnect_remote_session, ensure_remote_session,
  start_session,
}
use robot_maintanance.Terminal.View.{
  initialize_terminal, start_view, view_at, opened_view, load_fit, render_toolbar, dispose,
}
use robot_maintanance.Terminal.Stream.{close_stream}
use robot_maintanance.Terminal.Flows.{
  prepared, connect, connect_live_session, proceed, handle_input,
}
use robot_maintanance.Terminal.Events.{socket_opens}
use robot_maintanance.Terminal.Disposal.{set_connection_status-state}

-- The page has what a terminal needs, and the robot has an endpoint.
pub record Works (c : Setup) (r : Target) : Type 0 where
  pub element : c.has_element ≡ true
  pub ctor : c.has_terminal_ctor ≡ true
  pub view : c.view ≡ view_works
  pub endpoint : is_some (build_endpoint c r.id) ≡ true

-- The flow of `connect` after its request, and after its stream.
abbrev pub session_flow : Target → ℕ → Flow
session_flow r n = record {
  robot = some r;
  purpose = opening_view;
  stage = in_session;
  awaits = of_task n;
}

abbrev pub stream_flow : Target → ℕ → Flow
stream_flow r n = record {
  robot = some r;
  purpose = opening_view;
  stage = in_stream;
  awaits = of_socket n;
}

-- The view of the robot is there, and its request is under way: it was the last call to leave, the
-- flow of `connect` waits for its task, and the task has no value.
pub record IsRequesting (r : Target) (n : ℕ) (rest : List Flow) (u : Terminal) : Type 0 where
  mode : u.mode ≡ live
  view : is_some u.terminal ≡ true
  stream : u.stream_socket ≡ none
  promise : u.stream_open_promise ≡ none
  robot : u.current_robot ≡ some r
  pub flows : u.flows ≡ session_flow r n ∷ rest
  task : (u.tasks n).value ≡ none
  task_robot : (u.tasks n).robot ≡ r.id
  call : (before : List Call) × (u.calls ≡ session_post r.id ∷ before)

-- What the answer and the opening of the socket make of it.
pub record IsConnected (r : Target) (k : ℕ) (u : Terminal) : Type 0 where
  pub state : u.panel.connection_state ≡ connected
  pub mode : u.mode ≡ live
  stream : u.stream_socket ≡ some k
  socket : (u.sockets k).robot ≡ r.id
  ready : (u.sockets k).ready ≡ opened
  view : is_some u.terminal ≡ true

otherwise {ℓ} : {A : Type ℓ} (b : Bool) (x y : A) → b ≡ false → (if b then x else y) ≡ y
otherwise true x y e = cc
otherwise false x y e = refl

some_of {ℓ} : {A : Type ℓ} (o : Option A) → is_some o ≡ true → (a : A) × (o ≡ some a)
some_of none h = absurd (ground (arith, h))
some_of (some a) h = (a, refl)

initialize_terminal-opened_view :
    (c : Setup) (r : Target) (t : Terminal) (endpoint : String)
    → Works c r
    → build_endpoint c r.id ≡ some endpoint
    → initialize_terminal c (some r) t ≡ opened_view c r endpoint (record t { input = none })
unfolding initialize_terminal view_at start_view
initialize_terminal-opened_view c r t endpoint w e =
    otherwise (not c.has_element) _ _ (ap not w.element)
    ∙ otherwise (not c.has_terminal_ctor) _ _ (ap not w.ctor)
    ∙ ap (λ (o : Option String). view_at c r o t) e
    ∙ ap (λ (v : ViewOutcome). start_view c r endpoint v (record t { input = none })) w.view

-- A live view of a robot whose connection has not begun.
record IsLive (r : Target) (u : Terminal) : Type 0 where
  mode : u.mode ≡ live
  view : is_some u.terminal ≡ true
  stream : u.stream_socket ≡ none
  promise : u.stream_open_promise ≡ none
  robot : u.current_robot ≡ some r
  idle : u.session_in_flight ≡ false
  state : u.panel.connection_state ≡ disconnected

opened_view-IsLive :
    (c : Setup) (r : Target) (endpoint : String) (t : Terminal)
    → t.stream_socket ≡ none
    → t.stream_open_promise ≡ none
    → t.current_robot ≡ some r
    → t.session_in_flight ≡ false
    → IsLive r (opened_view c r endpoint t)
unfolding opened_view load_fit write
opened_view-IsLive c r endpoint t s p q f = record {
  mode = refl;
  view = ground arith;
  stream = s;
  promise = p;
  robot = q;
  idle = f;
  state = set_connection_status-state c live disconnected "Not connected" _;
}

connect_live_session-IsRequesting :
    (c : Setup) (r : Target) (t : Terminal)
    → is_some (build_endpoint c r.id) ≡ true
    → IsLive r t
    → IsRequesting r t.next_task t.flows (connect_live_session c (some r) opening_view t)
unfolding connect_live_session ensure_remote_session start_session build_endpoint
connect_live_session-IsRequesting c r t e v = record {
  mode = ground (arith, e, v);
  view = ground (arith, e, v);
  stream = ground (arith, e, v);
  promise = ground (arith, e, v);
  robot = ground (arith, e, v);
  flows = ground (arith, e, v);
  task = ground (arith, e, v);
  task_robot = ground (arith, e, v);
  call = (t.calls, ground (arith, e, v));
}

connect-IsRequesting :
    (c : Setup) (r : Target) (presets : List Preset) (t : Terminal)
    → Works c r
    → IsRequesting r t.next_task t.flows (connect c (some r) presets t)
unfolding opened_view load_fit write connect prepared dispose abort_session close_stream
    disconnect_remote_session render_toolbar
connect-IsRequesting c r presets t w =
    let (endpoint, e) = some_of (build_endpoint c r.id) w.endpoint in
    let i = initialize_terminal-opened_view c r (prepared c (some r) presets t) endpoint w e in
    let v =
      opened_view-IsLive c r endpoint (record (prepared c (some r) presets t) { input = none }) refl
        refl refl refl in
    let q = connect_live_session-IsRequesting c r _ w.endpoint v in rw i q

answered-IsConnected :
    (c : Setup) (js : Engine) (r : Target) (n : ℕ) (flows : List Flow) (u : Terminal)
    → is_some (build_endpoint c r.id) ≡ true
    → IsRequesting r n flows u
    → IsConnected r u.next_socket (
        socket_opens c u.next_socket (
          proceed c js
            (session_flow r n)
            true
            (record (answer_session c n accepted u) { flows = flows })))
unfolding answer_session proceed open_stream start_stream build_endpoint socket_opens on_open
    finalize
answered-IsConnected c js r n flows u e q = grind (arith, q, e, set_connection_status-state)

handle_input-sent :
    (c : Setup) (text : String) (r : Target) (k : ℕ) (u : Terminal)
    → IsConnected r k u
    → ((handle_input c text u).sockets k).sent ≡ input_message text ∷ (u.sockets k).sent
unfolding handle_input send
handle_input-sent c text r k u q = ground (arith, q)

-- The terminal once the request of `connect` is accepted, its call goes on and its socket opens.
abbrev pub opened_for : Setup → Engine → Target → List Preset → Terminal → Terminal
opened_for c js r presets t =
    let u = connect c (some r) presets t in
    socket_opens c u.next_socket (
      proceed c js (session_flow r t.next_task) true
        (record (answer_session c t.next_task accepted u) { flows = t.flows }))

-- Where the page has what a terminal needs and the robot has an endpoint, `connect` requests a
-- session of this robot and waits for it, whatever the terminal was before. Once that request is
-- accepted, the waiting call goes on and its socket opens, the terminal is live and connected, its
-- stream is a socket of this robot, and what is typed is sent on that socket.
pub connect-IsConnected :
    (c : Setup) (js : Engine) (r : Target) (presets : List Preset) (t : Terminal) (text : String)
    → Works c r
    → let k = (connect c (some r) presets t).next_socket in
      let w = opened_for c js r presets t in
      IsRequesting r t.next_task t.flows (connect c (some r) presets t)
      × IsConnected r k w
      × (((handle_input c text w).sockets k).sent ≡ input_message text ∷ (w.sockets k).sent)
connect-IsConnected c js r presets t text w =
    let asked = connect-IsRequesting c r presets t w in
    let q =
      answered-IsConnected c js r t.next_task t.flows (connect c (some r) presets t) w.endpoint
        asked in
    (asked, q, handle_input-sent c text r _ _ q)
