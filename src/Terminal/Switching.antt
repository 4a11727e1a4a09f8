-- ===== src/Terminal/Switching.antt =====
-- A session request that outlives the robot it was made for
-- (assets/js/components/robot-terminal-component.js): `connect`, the end of a canceled request in
-- `_ensureRemoteSession` and the stream that a late answer opens.
use robot_maintanance.Prelude.{
  false, ℕ, ◌<◌, String, true, not, Option, none, some, List, ◌≡◌, ◌≢◌, refl, arith, ◌∙◌, ap,
  is_some, if-Holds,
}
use robot_maintanance.Js.Engine.{Engine}
use robot_maintanance.Terminal.{
  Setup, ViewOutcome, constructor_throws, opening_throws, wiring_throws, view_works,
}
use robot_maintanance.Terminal.State.{
  Terminal, Target, Preset, Task, Flow, Purpose, opening_view, in_session, of_task, build_endpoint,
  write,
}
use robot_maintanance.Terminal.Stream.{close_stream, open_stream, start_stream}
use robot_maintanance.Terminal.Session.{
  canceled, accepted, answer_session, abort_session, disconnect_remote_session,
  ensure_remote_session, start_session,
}
use robot_maintanance.Terminal.View.{
  render_toolbar, initialize_terminal, start_view, view_at, fall_back, fallback_state, opened_view,
  load_fit, make_view, no_view, dispose,
}
use robot_maintanance.Terminal.Flows.{prepared, connect, connect_live_session, proceed}

-- The robot that the stream's socket belongs to.
abbrev pub stream_robot : Terminal → Option String
stream_robot t = elim t.stream_socket [ none ↦ none | some k ↦ some (t.sockets k).robot ]

-- No stream is open or opening, and the requests are those of another state.
record WithoutStream (t u : Terminal) : Type 0 where
  tasks : u.tasks ≡ t.tasks
  next_task : u.next_task ≡ t.next_task
  stream : u.stream_socket ≡ none
  promise : u.stream_open_promise ≡ none
  robot : u.current_robot ≡ t.current_robot

fall_back-WithoutStream :
    (c : Setup) (reason : String) (t : Terminal) → WithoutStream t (fall_back c reason t)
unfolding fall_back fallback_state close_stream
fall_back-WithoutStream c reason t = ground arith

start_view-WithoutStream :
    (c : Setup) (r : Target) (endpoint : String) (outcome : ViewOutcome) (t : Terminal)
    → t.stream_socket ≡ none
    → t.stream_open_promise ≡ none
    → WithoutStream t (start_view c r endpoint outcome t)
unfolding start_view opened_view load_fit write
start_view-WithoutStream c r endpoint constructor_throws t e f = fall_back-WithoutStream c _ t
start_view-WithoutStream c r endpoint opening_throws t e f =
    let s = fall_back-WithoutStream c no_view (make_view c t) in
    record {
      tasks = s.tasks;
      next_task = s.next_task;
      stream = s.stream;
      promise = s.promise;
      robot = s.robot;
    }
start_view-WithoutStream c r endpoint wiring_throws t e f =
    let s = fall_back-WithoutStream c no_view (opened_view c r endpoint t) in ground (arith, s)
start_view-WithoutStream c r endpoint view_works t e f = ground arith

view_at-WithoutStream :
    (c : Setup) (r : Target) (endpoint : Option String) (t : Terminal)
    → t.stream_socket ≡ none
    → t.stream_open_promise ≡ none
    → WithoutStream t (view_at c r endpoint t)
unfolding view_at
view_at-WithoutStream c r none t e f = fall_back-WithoutStream c _ t
view_at-WithoutStream c r (some endpoint) t e f =
    let s = start_view-WithoutStream c r endpoint c.view (record t { input = none }) e f in
    record {
      tasks = s.tasks;
      next_task = s.next_task;
      stream = s.stream;
      promise = s.promise;
      robot = s.robot;
    }

initialize_terminal-WithoutStream :
    (c : Setup) (robot : Option Target) (t : Terminal)
    → t.stream_socket ≡ none
    → t.stream_open_promise ≡ none
    → WithoutStream t (initialize_terminal c robot t)
unfolding initialize_terminal
initialize_terminal-WithoutStream c none t e f = fall_back-WithoutStream c _ t
initialize_terminal-WithoutStream c (some r) t e f =
    if-Holds (WithoutStream t) (not c.has_element) _ _ (λ g. fall_back-WithoutStream c _ t)
      (λ g.
        if-Holds (WithoutStream t) (not c.has_terminal_ctor) _ _
          (λ g. fall_back-WithoutStream c _ t)
          (λ g. view_at-WithoutStream c r (build_endpoint c r.id) t e f))

-- What another robot leaves of a request that has no controller: it is not aborted, and no stream
-- is there.
record Outlived (d : Target) (j : ℕ) (task : Task) (u : Terminal) : Type 0 where
  kept : u.tasks j ≡ task
  stream : u.stream_socket ≡ none
  promise : u.stream_open_promise ≡ none
  robot : u.current_robot ≡ some d

connect_live_session-Outlived :
    (c : Setup) (d : Target) (j : ℕ) (task : Task) (purpose : Purpose) (t : Terminal)
    → j < t.next_task
    → Outlived d j task t
    → Outlived d j task (connect_live_session c (some d) purpose t)
unfolding connect_live_session ensure_remote_session start_session
connect_live_session-Outlived c d j task purpose t l o = ground (arith, o)

dispose-WithoutStream :
    (c : Setup) (t : Terminal)
    → t.session_connect_controller ≡ none
    → ((dispose c t).tasks ≡ t.tasks)
      × ((dispose c t).next_task ≡ t.next_task)
      × ((dispose c t).stream_socket ≡ none)
      × ((dispose c t).stream_open_promise ≡ none)
unfolding dispose abort_session close_stream disconnect_remote_session
dispose-WithoutStream c t e = ground (arith, e)

render_toolbar-WithoutStream :
    (c : Setup) (t : Terminal)
    → t.stream_socket ≡ none
    → t.stream_open_promise ≡ none
    → WithoutStream t (render_toolbar c t)
unfolding render_toolbar
render_toolbar-WithoutStream c t e f = ground (arith, e, f)

connect-Outlived :
    (c : Setup) (d : Target) (presets : List Preset) (j : ℕ) (t : Terminal)
    → j < t.next_task
    → t.session_connect_controller ≡ none
    → Outlived d j (t.tasks j) (connect c (some d) presets t)
unfolding connect prepared
connect-Outlived c d presets j t l e =
    let (tasks, next, stream, promise) =
      dispose-WithoutStream c (record t { preset_commands = presets }) e in
    let v =
      render_toolbar-WithoutStream c
        (record (dispose c (record t { preset_commands = presets })) {
          disposing = false;
          current_robot = some d;
        })
        stream promise in
    let w =
      initialize_terminal-WithoutStream c (some d) (prepared c (some d) presets t) v.stream
        v.promise in
    connect_live_session-Outlived c d j (t.tasks j) opening_view
      (initialize_terminal c (some d) (prepared c (some d) presets t))
      (rw (w.next_task, v.next_task, next) l)
      (record {
        kept = ap (λ (f : ℕ → Task). f j) (w.tasks ∙ v.tasks ∙ tasks);
        stream = w.stream;
        promise = w.promise;
        robot = w.robot ∙ v.robot;
      })

-- What becomes of the stream after the answer of an outlived request.
abbrev pub resumed : Setup → Engine → Target → ℕ → List Flow → Terminal → Terminal
resumed c js b j flows u =
    proceed c js
      (record { robot = some b; purpose = opening_view; stage = in_session; awaits = of_task j })
      true (record (answer_session c j accepted u) { flows = flows })

resumed-stream :
    (c : Setup) (js : Engine) (b d : Target) (j : ℕ) (task : Task) (flows : List Flow)
    (u : Terminal)
    → is_some (build_endpoint c b.id) ≡ true
    → Outlived d j task u
    → (stream_robot (resumed c js b j flows u) ≡ some b.id)
      × ((resumed c js b j flows u).current_robot ≡ some d)
unfolding proceed open_stream start_stream answer_session build_endpoint
resumed-stream c js b d j task flows u e o = ground (arith, e, o)

-- Where a canceled request `k` ends while another request `j` of the robot `b`, which has an endpoint, is
-- under way, a `connect` to another robot `d` leaves `j` as it is and does not abort it; if `j` is
-- accepted next, the call that waits for it opens a stream to `b` as the stream of the component,
-- whose robot is `d`.
pub switching-stale_stream :
    (c : Setup) (js : Engine) (b d : Target) (presets : List Preset) (j k : ℕ) (flows : List Flow)
    (t : Terminal)
    → j < t.next_task
    → j ≢ k
    → is_some (build_endpoint c b.id) ≡ true
    → let u = connect c (some d) presets (answer_session c k canceled t) in
      (u.tasks j ≡ t.tasks j)
      × (stream_robot (resumed c js b j flows u) ≡ some b.id)
      × ((resumed c js b j flows u).current_robot ≡ some d)
unfolding answer_session
switching-stale_stream c js b d presets j k flows t l n e =
    let o = connect-Outlived c d presets j (answer_session c k canceled t) l refl in
    let r = resumed-stream c js b d j _ flows _ e o in (o.kept ∙ ground (arith, n), r.0, r.1)
