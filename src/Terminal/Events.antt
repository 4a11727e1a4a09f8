-- ===== src/Terminal/Events.antt =====
-- What happens to a terminal, in any order: the calls of the page, the answers of session requests,
-- the events of sockets and the flows that go on. Every event of a socket may come at any time; a
-- socket without handlers only changes its state.
use robot_maintanance.Prelude.{
  ℕ, String, Bool, true, Option, none, some, List, ◌∷◌, ◌++◌, ◌≡◌, if◌then◌else◌,
}
use robot_maintanance.Js.{Number}
use robot_maintanance.Js.Engine.{Engine}
use robot_maintanance.Terminal.{Setup}
use robot_maintanance.Terminal.State.{Terminal, Target, Preset, Task, Flow, opened, closing, closed}
use robot_maintanance.Terminal.State.{new_terminal}
use robot_maintanance.Terminal.Stream.{
  set_ready, on_open, on_error, on_close, handle_stream_message,
}
use robot_maintanance.Terminal.Session.{SessionAnswer, canceled, answer_session}
use robot_maintanance.Terminal.View.{dispose}
use robot_maintanance.Terminal.Flows.{
  launch, connect, run_command, handle_input, resize, fit, reconnect_session, proceed, value_of,
}

-- A handler of a socket, where the socket still has it.
abbrev pub handle : ℕ → (Terminal → Terminal) → Terminal → Terminal
handle k handler t = if (t.sockets k).listening then handler t else t

unfoldable pub socket_opens : Setup → ℕ → Terminal → Terminal
socket_opens c k t = handle k (on_open c k) (set_ready k opened t)

unfoldable pub socket_fails : Setup → ℕ → Terminal → Terminal
socket_fails c k t = handle k (on_error c k) (set_ready k closed t)

unfoldable pub socket_closes : Setup → ℕ → ℕ → Terminal → Terminal
socket_closes c k code t = handle k (on_close c k code) (set_ready k closed t)

unfoldable pub socket_receives : Setup → Engine → ℕ → String → Terminal → Terminal
socket_receives c js k text t = handle k (handle_stream_message c js text) t

-- An aborted request is rejected with an `AbortError`, and only an aborted one is.
abbrev pub Fits : Task → SessionAnswer → Type 0
Fits task answer =
    (task.aborted ≡ true → answer ≡ canceled) × (answer ≡ canceled → task.aborted ≡ true)

pub data Step (c : Setup) (js : Engine) : Terminal → Terminal → Type 0 where
  connects :
      (robot : Option Target) (presets : List Preset) (t : Terminal)
      → Step c js t (connect c robot presets t)
  commands :
      (command id : String) (echo : Bool) (t : Terminal)
      → Step c js t (run_command c js command id echo t)
  launches : (p : Preset) (t : Terminal) → Step c js t (launch c js (some p) t)
  types : (text : String) (t : Terminal) → Step c js t (handle_input c text t)
  resizes : (cols rows : Number) (t : Terminal) → Step c js t (resize cols rows t)
  fits : (cols rows : Number) (t : Terminal) → Step c js t (fit cols rows t)
  reconnects : (t : Terminal) → Step c js t (reconnect_session c t)
  disposes : (t : Terminal) → Step c js t (dispose c t)
  answers :
      (k : ℕ) (answer : SessionAnswer) (t : Terminal)
      → (t.tasks k).value ≡ none
      → Fits (t.tasks k) answer
      → Step c js t (answer_session c k answer t)
  opens : (k : ℕ) (t : Terminal) → Step c js t (socket_opens c k t)
  fails : (k : ℕ) (t : Terminal) → Step c js t (socket_fails c k t)
  begins_closing : (k : ℕ) (t : Terminal) → Step c js t (set_ready k closing t)
  closes : (k code : ℕ) (t : Terminal) → Step c js t (socket_closes c k code t)
  receives : (k : ℕ) (text : String) (t : Terminal) → Step c js t (socket_receives c js k text t)
  proceeds :
      (before after : List Flow) (f : Flow) (value : Bool) (t : Terminal)
      → t.flows ≡ before ++ f ∷ after
      → value_of t f.awaits ≡ some value
      → Step c js t (proceed c js f value (record t { flows = before ++ after }))

-- The states that a component goes through from its construction on.
pub data Reachable (c : Setup) (js : Engine) : Terminal → Type 0 where
  built : Reachable c js new_terminal
  stepped : (t u : Terminal) → Reachable c js t → Step c js t u → Reachable c js u
