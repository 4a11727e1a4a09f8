-- ===== src/Terminal/State.antt =====
-- The state of `RobotTerminalComponent` (assets/js/components/robot-terminal-component.js): the
-- terminal view, the sockets and session requests it has made, and the calls that wait for them.
-- Sockets and requests are numbered in the order of their making; the component's references to
-- them are these numbers.
use robot_maintanance.Prelude.{
  ℕ, String, Bool, false, Option, none, some, List, [], ◌∷◌, ◌==◌, ◌===◌, if◌then◌else◌,
}
use robot_maintanance.Js.{Number}
use robot_maintanance.Terminal.{
  Setup, ViewMode, fallback, ConnectionState, disconnected, Kind, Panel, set_mode_badge,
  set_connection_status, or_else,
}

pub record Target : Type 0 where
  pub id : String
  pub name : String

pub record Preset : Type 0 where
  pub id : String
  pub label : String
  pub command : String
  pub auto : Bool

-- A line that the component writes, with its level, or data that the stream sends.
pub data Writing : Type 0 where
  plain_line ok_line warn_line err_line : String → Writing
  raw : String → Writing

-- The terminal view: its size, whether the fit addon works, and what was written, the last first.
pub record Xterm : Type 0 where
  pub cols : Number
  pub rows : Number
  pub has_fit : Bool
  pub written : List Writing

-- `WebSocket.readyState`
pub data ReadyState : Type 0 where
  opening opened closing closed : ReadyState

pub data Message : Type 0 where
  input_message : String → Message
  resize_message : ℕ → ℕ → Message

-- A socket to the stream of a robot: whether its handlers are set, what its promise was settled
-- with, and what was sent on it, the last first.
pub record Socket : Type 0 where
  pub robot : String
  pub ready : ReadyState
  pub listening : Bool
  pub settled : Option Bool
  pub sent : List Message

-- A request that opens a session: its robot, whether it can be and was aborted, and the value of
-- its task.
pub record Task : Type 0 where
  pub robot : String
  pub abortable : Bool
  pub aborted : Bool
  pub value : Option Bool

-- What a call waits for: a value that is there, a task or the promise of a socket.
pub data Promised : Type 0 where
  given : Bool → Promised
  of_task of_socket : ℕ → Promised

-- The calls that wait in `connect`, `runCommand` and `_reconnectSession`, and where they wait:
-- for the deletion of the session, for `_ensureRemoteSession` or for `_openStream`.
pub data Purpose : Type 0 where
  opening_view reconnecting : Purpose
  running : String → Purpose

pub data Stage : Type 0 where
  in_deletion in_session in_stream : Stage

pub record Flow : Type 0 where
  pub robot : Option Target
  pub purpose : Purpose
  pub stage : Stage
  pub awaits : Promised

-- The calls that leave the component.
pub data Call : Type 0 where
  fallback_mode : Option Target → Call
  fallback_command : Target → String → String → Call
  preset_launch : Preset → Call
  session_post session_delete : String → Call

pub record Terminal : Type 0 where
  pub panel : Panel
  pub mode : ViewMode
  pub terminal : Option Xterm
  pub input : Option String
  pub current_robot : Option Target
  pub preset_commands : List Preset
  pub disposing : Bool
  pub sockets : ℕ → Socket
  pub next_socket : ℕ
  pub stream_socket : Option ℕ
  pub stream_open_promise : Option ℕ
  pub tasks : ℕ → Task
  pub next_task : ℕ
  pub session_connect_controller : Option ℕ
  pub session_state_promise : Option ℕ
  pub session_in_flight : Bool
  pub flows : List Flow
  pub calls : List Call

-- The constructor
unfoldable pub new_terminal : Terminal
new_terminal = record {
  panel = record {
    connection_state = disconnected;
    connection_message = "Disconnected";
    mode_message = "Streaming terminal";
    badge = none;
    hint = "";
    led = none;
    reconnect = none;
    told = [];
  };
  mode = fallback;
  terminal = none;
  input = none;
  current_robot = none;
  preset_commands = [];
  disposing = false;
  sockets = λ n. record {
    robot = "";
    ready = closed;
    listening = false;
    settled = some false;
    sent = [];
  };
  next_socket = 0;
  stream_socket = none;
  stream_open_promise = none;
  tasks = λ n. record { robot = ""; abortable = false; aborted = false; value = some false };
  next_task = 0;
  session_connect_controller = none;
  session_state_promise = none;
  session_in_flight = false;
  flows = [];
  calls = [];
}

-- A function changed at one number.
abbrev pub put {ℓ} : {A : Type ℓ} → ℕ → A → (ℕ → A) → ℕ → A
put k a f n = if n == k then a else f n

-- `_setConnectionStatus` and `_setModeBadge`
abbrev pub status : Setup → ConnectionState → String → Terminal → Terminal
status c s message t = record t { panel = set_connection_status c t.mode s message t.panel }

abbrev pub mode_badge : Setup → String → Kind → Terminal → Terminal
mode_badge c message kind t = record t { panel = set_mode_badge c t.mode message kind t.panel }

abbrev written_on : Writing → Option Xterm → Option Xterm
written_on o none = none
written_on o (some x) = some (record x { written = o ∷ x.written })

-- `_writeLine`, or a write to the view
unfoldable pub write : Writing → Terminal → Terminal
write o t = record t { terminal = written_on o t.terminal }

abbrev pub call : Call → Terminal → Terminal
call x t = record t { calls = x ∷ t.calls }

-- A value, or `none` for the empty text.
abbrev pub non_empty : String → Option String
non_empty s = if s === "" then none else some s

-- `_buildEndpoint`
unfoldable pub build_endpoint : Setup → String → Option String
build_endpoint c id = if id === "" then none else non_empty (c.endpoint id)

-- `robot?.name || robot?.id || 'robot'`
abbrev pub robot_label : Option Target → String
robot_label none = "robot"
robot_label (some r) = or_else (or_else r.name r.id) "robot"
