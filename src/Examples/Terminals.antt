-- ===== src/Examples/Terminals.antt =====
-- A page with a terminal, its robots and the states that it goes through.
use robot_maintanance.Prelude.{ℕ, true, none, some, [], ◌∷◌, ◌≡◌, ◌≢◌, refl, arith}
use robot_maintanance.Js.{thousandths}
use robot_maintanance.Examples.{plain}
use robot_maintanance.Terminal.{Setup, view_works}
use robot_maintanance.Terminal.State.{
  Terminal, Target, new_terminal, of_socket, input_message, opened, closed, build_endpoint,
}
use robot_maintanance.Terminal.Stream.{close_stream, start_stream, set_ready}
use robot_maintanance.Terminal.Session.{answer_session, canceled, abort_session, start_session}
use robot_maintanance.Terminal.View.{dispose}
use robot_maintanance.Terminal.Flows.{connect, handle_input, value_of}
use robot_maintanance.Terminal.Events.{
  connects, disposes, built, stepped, socket_opens, socket_fails, socket_closes, socket_receives,
}
use robot_maintanance.Terminal.Showing.{ShowsState}
use robot_maintanance.Terminal.Showing.Reach.{Reachable-ShowsState}
use robot_maintanance.Terminal.Disposal.{IsDisposed, dispose-ends_stream}
use robot_maintanance.Terminal.Connecting.{
  Works, IsRequesting, IsConnected, opened_for, connect-IsConnected,
}
use robot_maintanance.Terminal.Switching.{stream_robot, resumed, switching-stale_stream}
use robot_maintanance.Terminal.Abandoned.Later.{here, onward, close_stream-never_settled}

abbrev page : Setup
page = record {
  has_element = true;
  has_badge = true;
  has_hint = true;
  has_toolbar = true;
  shows_reconnect = true;
  has_terminal_ctor = true;
  view = view_works;
  fit_works = true;
  has_abort_controller = true;
  endpoint = λ id. id;
  parse = λ text. none;
  cols = thousandths 80000;
  rows = thousandths 24000;
}

abbrev arm : Target
arm = record { id = "r1"; name = "Arm" }

abbrev cart : Target
cart = record { id = "r2"; name = "" }

Reachable-ShowsState_example : ShowsState (dispose page (connect page (some arm) [] new_terminal))
Reachable-ShowsState_example =
    Reachable-ShowsState page plain (dispose page (connect page (some arm) [] new_terminal))
      (refl, refl)
      (stepped _ _ (stepped _ _ built (connects (some arm) [] new_terminal))
        (disposes (connect page (some arm) [] new_terminal)))

-- A stream that is opening.
abbrev opening_stream : Terminal
unfolding start_stream new_terminal
opening_stream = start_stream page "r1" new_terminal

close_stream-never_settled_example :
    value_of (dispose page (close_stream opening_stream)) (of_socket 0) ≡ none
unfolding opening_stream start_stream new_terminal
close_stream-never_settled_example =
    close_stream-never_settled page plain 0 opening_stream
      (dispose page (close_stream opening_stream)) refl (ground arith) refl
      (onward _ _ here (disposes (close_stream opening_stream)))

dispose-ends_stream_example :
    let u = dispose page opening_stream in
    IsDisposed u
    × (socket_opens page 0 u ≡ set_ready 0 opened u)
    × (socket_fails page 0 u ≡ set_ready 0 closed u)
    × (socket_closes page 0 1000 u ≡ set_ready 0 closed u)
    × (socket_receives page plain 0 "late" u ≡ u)
unfolding opening_stream start_stream new_terminal
dispose-ends_stream_example = dispose-ends_stream page plain opening_stream 0 1000 "late" refl

arm-Works : Works page arm
unfolding build_endpoint
arm-Works = record { element = refl; ctor = refl; view = refl; endpoint = refl }

connect-IsConnected_example :
    let k = (connect page (some arm) [] new_terminal).next_socket in
    let w = opened_for page plain arm [] new_terminal in
    IsRequesting arm new_terminal.next_task new_terminal.flows
      (connect page (some arm) [] new_terminal)
    × IsConnected arm k w
    × (((handle_input page "ls" w).sockets k).sent ≡ input_message "ls" ∷ (w.sockets k).sent)
connect-IsConnected_example = connect-IsConnected page plain arm [] new_terminal "ls" arm-Works

-- Two requests are under way, the one of the first robot aborted.
abbrev two_requests : Terminal
unfolding start_session abort_session new_terminal
two_requests = start_session page "r2" (abort_session (start_session page "r1" new_terminal))

distinct : ◌≢◌ {A = ℕ} 1 0
distinct e = omega arith

switching-stale_stream_example :
    let u = connect page (some arm) [] (answer_session page 0 canceled two_requests) in
    (u.tasks 1 ≡ two_requests.tasks 1)
    × (stream_robot (resumed page plain cart 1 [] u) ≡ some "r2")
    × ((resumed page plain cart 1 [] u).current_robot ≡ some arm)
unfolding two_requests start_session abort_session new_terminal build_endpoint
switching-stale_stream_example =
    switching-stale_stream page plain cart arm [] 1 0 [] two_requests (ground arith) distinct refl
