-- ===== src/Terminal/Showing.antt =====
-- What the terminal shows of its state: the badge and button, and the operations of the streams and
-- the session (assets/js/components/robot-terminal-component.js).
pub mod Views
pub mod Steps
pub mod Reach
use robot_maintanance.Prelude.{
  ℕ, String, Bool, true, false, not, Option, none, some, List, [], ◌∷◌, ◌≡◌, ◌≢◌, refl, ap, arith,
  is_some, eq_iff, Bool-cases, Option-cases, if◌then◌else◌, if-Holds, find?, ◌===◌, inl, inr,
}
use robot_maintanance.Js.{Number}
use robot_maintanance.Js.Engine.{Engine}
use robot_maintanance.Terminal.{
  Setup, ViewMode, live, fallback, is_live, ConnectionState, connecting, Kind, kind_of, or_else,
  Led, Button, Panel, shown_button, update_connection_controls, set_mode_badge,
  set_connection_status, constructor_throws, opening_throws, wiring_throws, view_works, warn, error,
  disconnected, ok,
}
use robot_maintanance.Terminal.State.{
  Terminal, Target, Writing, Message, status, mode_badge, write, Purpose, Stage, Promised,
  new_terminal, call,
}
use robot_maintanance.Terminal.Stream.{
  send, send_resize, send_view_size, finalize, open_stream, start_stream, close_stream,
}
use robot_maintanance.Terminal.Session.{ensure_remote_session, start_session}
use robot_maintanance.Terminal.View.{
  fallback_state, fall_back, load_fit, make_view, opened_view, start_view, initialize_terminal,
}

-- The badge and the hint are on the page, and the toolbar makes the LED with the button.
abbrev pub HasBadge : Setup → Type 0
HasBadge c = (c.has_badge ≡ true) × (c.has_hint ≡ true)

-- The button is the one that the mode and the connection's state call for.
pub record ShowsControls (mode : ViewMode) (p : Panel) : Type 0 where
  pub has_led : p.led ≡ none → p.reconnect ≡ none
  pub button : p.reconnect ≡ shown_button mode p.connection_state p.reconnect

pub record ShowsState (t : Terminal) : Type 0 where
  pub controls : ShowsControls t.mode t.panel
  pub view : is_some t.terminal ≡ is_live t.mode
  pub input : is_some t.input ≡ true → t.mode ≡ fallback

abbrev pub HasLed : Panel → Type 0
HasLed p = p.led ≡ none → p.reconnect ≡ none

pub set_mode_badge-ShowsControls :
    (c : Setup) (mode : ViewMode) (message : String) (kind : Kind) (p : Panel)
    → HasBadge c
    → (p.led ≡ none → p.reconnect ≡ none)
    → ShowsControls mode (set_mode_badge c mode message kind p)
unfolding set_mode_badge update_connection_controls
set_mode_badge-ShowsControls c mode message kind p h led = ground (arith, h)

pub set_connection_status-ShowsControls :
    (c : Setup) (mode : ViewMode) (s : ConnectionState) (message : String) (p : Panel)
    → HasBadge c
    → (p.led ≡ none → p.reconnect ≡ none)
    → ShowsControls mode (set_connection_status c mode s message p)
unfolding set_connection_status
set_connection_status-ShowsControls c mode s message p h led =
    let shown =
      set_mode_badge-ShowsControls c mode (or_else p.mode_message "Streaming terminal") (kind_of s)
        (record p {
          connection_state = s;
          connection_message = or_else message p.connection_message;
        })
        h led in
    record { has_led = shown.has_led; button = shown.button }

module _ (c : Setup) (h : HasBadge c) where
  pub status-ShowsState :
      (s : ConnectionState) (message : String) (t : Terminal)
      → ShowsState t
      → ShowsState (status c s message t)
  status-ShowsState s message t g = record {
    controls = set_connection_status-ShowsControls c t.mode s message t.panel h g.controls.has_led;
    view = g.view;
    input = g.input;
  }

  pub write-ShowsState : (o : Writing) (t : Terminal) → ShowsState t → ShowsState (write o t)
  unfolding write
  write-ShowsState o t g = record {
    controls = g.controls;
    view = ground (arith, g.view);
    input = g.input;
  }

  pub send-ShowsState : (m : Message) (t : Terminal) → ShowsState t → ShowsState (send m t)
  unfolding send
  send-ShowsState m t g = record { controls = g.controls; view = g.view; input = g.input }

  pub send_resize-ShowsState :
      (cols rows : Number) (t : Terminal) → ShowsState t → ShowsState (send_resize cols rows t)
  unfolding send_resize
  send_resize-ShowsState cols rows t g = grind (arith, send-ShowsState)

  pub send_view_size-ShowsState : (t : Terminal) → ShowsState t → ShowsState (send_view_size t)
  unfolding send_view_size
  send_view_size-ShowsState t g = grind (arith, send_resize-ShowsState)

  pub finalize-ShowsState :
      (k : ℕ) (good : Bool) (t : Terminal) → ShowsState t → ShowsState (finalize k good t)
  unfolding finalize
  finalize-ShowsState k good t g =
      if-Holds ShowsState (is_some (t.sockets k).settled) t _ (λ e. g)
        (λ e. record { controls = g.controls; view = g.view; input = g.input })

  pub start_stream-ShowsState :
      (id : String) (t : Terminal) → ShowsState t → ShowsState (start_stream c id t)
  unfolding start_stream
  start_stream-ShowsState id t g =
      let s = status-ShowsState connecting "Opening terminal stream..." t g in
      record { controls = s.controls; view = s.view; input = s.input }

  pub start_session-ShowsState :
      (id : String) (t : Terminal) → ShowsState t → ShowsState (start_session c id t)
  unfolding start_session
  start_session-ShowsState id t g =
      let s = status-ShowsState connecting "Opening SSH session..." t g in
      record { controls = s.controls; view = s.view; input = s.input }

  pub open_stream-ShowsState :
      (robot : Option Target) (t : Terminal) → ShowsState t → ShowsState (open_stream c robot t).0
  unfolding open_stream
  open_stream-ShowsState none t g = g
  open_stream-ShowsState (some r) t g = ground (arith, start_stream-ShowsState r.id t g)

  pub ensure_remote_session-ShowsState :
      (robot : Option Target) (t : Terminal)
      → ShowsState t
      → ShowsState (ensure_remote_session c robot t).0
  unfolding ensure_remote_session
  ensure_remote_session-ShowsState none t g = g
  ensure_remote_session-ShowsState (some r) t g = ground (arith, start_session-ShowsState r.id t g)

  pub close_stream-ShowsState : (t : Terminal) → ShowsState t → ShowsState (close_stream t)
  unfolding close_stream
  close_stream-ShowsState t g = record { controls = g.controls; view = g.view; input = g.input }
