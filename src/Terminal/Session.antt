-- ===== src/Terminal/Session.antt =====
-- The session of the terminal: `_ensureRemoteSession` and `_disconnectRemoteSession`. The task that
-- requests a session runs up to its `fetch`; what the request answers is an argument.
use robot_maintanance.Prelude.{
  ℕ, suc, List, String, Bool, true, false, Option, none, some, ◌===◌, is_some, if◌then◌else◌,
}
use robot_maintanance.Js.{template}
use robot_maintanance.Prelude.{[], ◌∷◌, ◌++◌}
use robot_maintanance.Terminal.{
  Setup, ConnectionState, connected, connecting, disconnected, error, or_else,
}
use robot_maintanance.Terminal.State.{
  Terminal, Call, Target, Task, Promised, given, of_task, put, status, session_post, session_delete,
  build_endpoint,
}

-- The answer of the request: accepted, refused with a status, rejected by an abort, or failed.
pub data SessionAnswer : Type 0 where
  accepted canceled failed : SessionAnswer
  refused : String → String → SessionAnswer

abbrev new_task : Setup → String → Task
new_task c id = record {
  robot = id;
  abortable = c.has_abort_controller;
  aborted = false;
  value = none;
}

unfoldable pub start_session : Setup → String → Terminal → Terminal
start_session c id t =
    let t = status c connecting "Opening SSH session..." t in
    record t {
      session_in_flight = true;
      session_connect_controller = if c.has_abort_controller then some t.next_task else none;
      session_state_promise = some t.next_task;
      tasks = put t.next_task (new_task c id) t.tasks;
      next_task = suc t.next_task;
      calls = session_post id ∷ t.calls;
    }

abbrev is_connected : ConnectionState → Bool
is_connected connected = true
is_connected _ = false

abbrev session_or_start : Setup → String → Option ℕ → Terminal → Terminal × Promised
unfolding start_session
session_or_start c id (some k) t = (t, of_task k)
session_or_start c id none t =
    if is_some (build_endpoint c id)
    then (start_session c id t, of_task t.next_task)
    else (t, given false)

-- `_ensureRemoteSession`
unfoldable pub ensure_remote_session : Setup → Option Target → Terminal → Terminal × Promised
unfolding start_session
ensure_remote_session c none t = (t, given false)
ensure_remote_session c (some r) t =
    if r.id === ""
    then (t, given false)
    else if is_connected t.panel.connection_state
    then (t, given true)
    else session_or_start c r.id (if t.session_in_flight then t.session_state_promise else none) t

abbrev pub is_accepted : SessionAnswer → Bool
is_accepted accepted = true
is_accepted _ = false

abbrev pub answer_status : Setup → SessionAnswer → Terminal → Terminal
answer_status c accepted t = status c connecting "SSH session ready; opening stream..." t
answer_status c canceled t = status c disconnected "Session connection canceled" t
answer_status c failed t = status c error "SSH session init failed" t
answer_status c (refused text code) t =
    status c error (template (or_else text "Session failed" ∷ " (" ∷ code ∷ ")" ∷ [])) t

-- The task of `_ensureRemoteSession` after its `fetch`, with its `finally`.
unfoldable pub answer_session : Setup → ℕ → SessionAnswer → Terminal → Terminal
answer_session c k answer t =
    let t = answer_status c answer t in
    record t {
      session_connect_controller = none;
      session_in_flight = false;
      session_state_promise = none;
      tasks = put k (record (t.tasks k) { value = some (is_accepted answer) }) t.tasks;
    }

abbrev aborted_at : Option ℕ → (ℕ → Task) → ℕ → Task
aborted_at none tasks = tasks
aborted_at (some k) tasks = put k (record (tasks k) { aborted = true }) tasks

-- `if (this._sessionConnectController) this._sessionConnectController.abort()`
unfoldable pub abort_session : Terminal → Terminal
abort_session t = record t { tasks = aborted_at t.session_connect_controller t.tasks }

abbrev deletions : Setup → Option Target → List Call
deletions c none = []
deletions c (some r) = if is_some (build_endpoint c r.id) then session_delete r.id ∷ [] else []

-- `_disconnectRemoteSession`, and the last request of `dispose`
unfoldable pub disconnect_remote_session : Setup → Terminal → Terminal
disconnect_remote_session c t = record t { calls = deletions c t.current_robot ++ t.calls }
