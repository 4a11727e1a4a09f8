-- ===== src/Terminal/Flows.antt =====
-- The calls that wait: `runCommand`, `_handleInput`, `_connectLiveSession`, `_reconnectSession` and
-- `connect`. A call runs up to its next `await`, is kept as a flow, and goes on with the awaited
-- value.
use robot_maintanance.Prelude.{
  String, Bool, true, false, not, ◌&&◌, Option, none, some, List, [], ◌∷◌, ◌===◌, find?, is_some,
  if◌then◌else◌,
}
use robot_maintanance.Js.{template, trim, Number}
use robot_maintanance.Js.Engine.{Engine}
use robot_maintanance.Terminal.{Setup, is_live, connected, disconnected, error}
use robot_maintanance.Terminal.State.{
  Terminal, Target, Preset, Flow, Purpose, opening_view, reconnecting, running, Stage, in_deletion,
  in_session, in_stream, Promised, given, of_task, of_socket, Xterm, plain_line, ok_line, warn_line,
  err_line, input_message, fallback_command, preset_launch, status, write, call,
}
use robot_maintanance.Terminal.Stream.{is_stream_open, send, send_resize, open_stream, close_stream}
use robot_maintanance.Terminal.Session.{
  ensure_remote_session, abort_session, disconnect_remote_session,
}
use robot_maintanance.Terminal.View.{render_toolbar, initialize_terminal, dispose}

abbrev add_flow : Option Target → Purpose → Stage → Terminal × Promised → Terminal
add_flow robot purpose stage (t, p) = record t {
  flows = record { robot = robot; purpose = purpose; stage = stage; awaits = p } ∷ t.flows;
}

abbrev pub has_id : Option Target → Bool
has_id none = false
has_id (some r) = not (r.id === "")

-- `_connectLiveSession` up to its first `await`; without a robot or a live view it answers `false`.
unfoldable pub connect_live_session : Setup → Option Target → Purpose → Terminal → Terminal
unfolding ensure_remote_session
connect_live_session c robot purpose t =
    if has_id robot && is_live t.mode
    then add_flow robot purpose in_session (ensure_remote_session c robot t)
    else add_flow robot purpose in_stream (t, given false)

abbrev pub cleared : Option Xterm → Option Xterm
cleared none = none
cleared (some x) = some (record x { written = [] })

unfoldable pub echoed : Bool → String → Terminal → Terminal
unfolding write
echoed true text t = write (plain_line text) t
echoed false text t = t

-- `clear` empties the view; another text waits for the session.
unfoldable pub run_live : Setup → String → Bool → Target → Terminal → Terminal
unfolding connect_live_session
run_live c text true r t = record t { terminal = cleared t.terminal }
run_live c text false r t = connect_live_session c (some r) (running text) t

unfoldable pub run_text : Setup → Engine → String → String → Bool → Target → Terminal → Terminal
unfolding run_live echoed
run_text c js text id echo r t =
    if text === ""
    then t
    else if not (is_live t.mode)
    then call (fallback_command r text id) t
    else run_live c text (js.lower text === "clear") r (echoed echo text t)

unfoldable pub run_for :
    Setup → Engine → String → String → Bool → Option Target → Terminal → Terminal
unfolding run_text
run_for c js text id echo none t = t
run_for c js text id echo (some r) t = run_text c js text id echo r t

-- `runCommand(command, commandId, { echoCommand })`
unfoldable pub run_command : Setup → Engine → String → String → Bool → Terminal → Terminal
unfolding run_for
run_command c js command id echo t = run_for c js (trim command) id echo t.current_robot t

-- The end of `runCommand`
unfoldable pub end_command : Setup → String → Bool → Terminal → Terminal
unfolding send write
end_command c text false t =
    write (warn_line "SSH session not available. Use Reconnect SSH and retry.") t
end_command c text true t =
    if is_stream_open t
    then send (input_message (template (text ∷ "\n" ∷ []))) t
    else write (err_line "Terminal stream is disconnected. Click Reconnect SSH and retry.")
        (status c error "Terminal stream not connected" t)

-- The end of `_reconnectSession`
unfoldable pub end_reconnect : Setup → Bool → Terminal → Terminal
unfolding write
end_reconnect c false t =
    write (warn_line "SSH reconnect failed. Click Reconnect SSH to retry.")
      (status c error "Reconnect failed" t)
end_reconnect c true t =
    write (ok_line "SSH session reconnected.") (status c connected "SSH reconnected" t)

unfoldable pub launch : Setup → Engine → Option Preset → Terminal → Terminal
unfolding write run_command
launch c js none t = t
launch c js (some p) t =
    run_command c js p.command p.id false
      (call (preset_launch p) (write (ok_line (template ("Launching preset: " ∷ p.label ∷ []))) t))

-- What a call does once `_connectLiveSession` answers; the one of `connect` runs the automatic
-- preset.
unfoldable pub end_flow : Setup → Engine → Purpose → Bool → Terminal → Terminal
unfolding launch end_command end_reconnect
end_flow c js opening_view false t = t
end_flow c js opening_view true t = launch c js (find? Preset.auto t.preset_commands) t
end_flow c js (running text) ok t = end_command c text ok t
end_flow c js reconnecting ok t = end_reconnect c ok t

-- A flow goes on with the value that it waited for.
unfoldable pub proceed : Setup → Engine → Flow → Bool → Terminal → Terminal
unfolding end_flow connect_live_session open_stream
proceed c js f value t = elim f.stage [
  | in_deletion ↦ connect_live_session c t.current_robot f.purpose t
  | in_session ↦
      if value
      then add_flow f.robot f.purpose in_stream (open_stream c f.robot t)
      else end_flow c js f.purpose false t
  | in_stream ↦ end_flow c js f.purpose value t
]

-- The value of what a flow waits for, once it is there.
abbrev pub value_of : Terminal → Promised → Option Bool
value_of t (given b) = some b
value_of t (of_task k) = (t.tasks k).value
value_of t (of_socket k) = (t.sockets k).settled

-- `_handleInput`
unfoldable pub handle_input : Setup → String → Terminal → Terminal
unfolding send
handle_input c text t =
    if not (is_some t.terminal)
    then t
    else if is_stream_open t
    then send (input_message text) t
    else if is_live t.mode
    then status c error "Terminal stream not connected" t
    else t

unfoldable pub reconnect_with : Setup → Option Target → Terminal → Terminal
unfolding abort_session close_stream disconnect_remote_session
reconnect_with c none t = t
reconnect_with c (some r) t = add_flow (some r) reconnecting in_deletion (
  disconnect_remote_session c
      (status c disconnected "Closing session..." (close_stream (abort_session t))),
  given true,
)

-- `_reconnectSession` up to the deletion of the session
unfoldable pub reconnect_session : Setup → Terminal → Terminal
unfolding reconnect_with
reconnect_session c t = reconnect_with c t.current_robot t

-- `connect` up to the toolbar
unfoldable pub prepared : Setup → Option Target → List Preset → Terminal → Terminal
unfolding dispose render_toolbar
prepared c robot presets t =
    render_toolbar c (record (dispose c (record t { preset_commands = presets })) {
      disposing = false;
      current_robot = robot;
    })

-- `connect`
unfoldable pub connect : Setup → Option Target → List Preset → Terminal → Terminal
unfolding prepared initialize_terminal connect_live_session
connect c robot presets t =
    connect_live_session c robot opening_view
      (initialize_terminal c robot (prepared c robot presets t))

abbrev pub sized : Number → Number → Option Xterm → Option Xterm
sized cols rows none = none
sized cols rows (some x) = some (record x { cols = cols; rows = rows })

-- The view gets another size; `onResize` calls `_sendResize`.
unfoldable pub resize : Number → Number → Terminal → Terminal
unfolding send_resize
resize cols rows t = send_resize cols rows (record t { terminal = sized cols rows t.terminal })

abbrev pub has_fit_addon : Option Xterm → Bool
has_fit_addon none = false
has_fit_addon (some x) = x.has_fit

-- `fit`, where the addon gives the view this size
unfoldable pub fit : Number → Number → Terminal → Terminal
unfolding send_resize
fit cols rows t =
    if is_live t.mode && has_fit_addon t.terminal
    then send_resize cols rows (record t { terminal = sized cols rows t.terminal })
    else t
