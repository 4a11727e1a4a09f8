-- ===== src/Terminal.antt =====
-- The terminal of a robot (assets/js/components/robot-terminal-component.js): the data of
-- `RobotTerminalComponent`, and the badge, hint, LED and reconnect button that show its state.
-- Texts are passed as the code passes them; `_setConnectionStatus` is only called with its four
-- literals, which are the constructors of `ConnectionState`.
pub mod State
pub mod View
pub mod Stream
pub mod Session
pub mod Flows
pub mod Events
pub mod Showing
pub mod Disposal
pub mod Connecting
pub mod Switching
pub mod Abandoned
use robot_maintanance.Prelude.{
  ℕ, String, Bool, true, false, not, ◌&&◌, Option, none, some, List, ◌∷◌, ◌===◌, if◌then◌else◌,
}
use robot_maintanance.Js.{Number, Value, template}

pub data ViewMode : Type 0 where
  fallback live : ViewMode

pub data ConnectionState : Type 0 where
  connected connecting disconnected error : ConnectionState

-- The class of the badge
pub data Kind : Type 0 where
  ok warn err : Kind

-- What the constructor and the methods of the terminal library do: the constructor throws, `open`
-- throws, the wiring after `open` throws, or all of it works.
pub data ViewOutcome : Type 0 where
  constructor_throws opening_throws wiring_throws view_works : ViewOutcome

-- The options of the component that do not change, and what the browser has. `endpoint` is the
-- endpoint builder, which may answer an empty text; `parse` is `JSON.parse`, `none` where it throws.
pub record Setup : Type 0 where
  pub has_element : Bool
  pub has_badge : Bool
  pub has_hint : Bool
  pub has_toolbar : Bool
  pub shows_reconnect : Bool
  pub has_terminal_ctor : Bool
  pub view : ViewOutcome
  pub fit_works : Bool
  pub has_abort_controller : Bool
  pub endpoint : String → String
  pub parse : String → Option Value
  pub cols : Number
  pub rows : Number

pub record Button : Type 0 where
  pub disabled : Bool
  pub label : String

-- The LED, with its title and the text beside it
pub record Led : Type 0 where
  pub shows : ConnectionState
  pub title : String
  pub text : String

-- The connection's state and message, the mode's message and the elements that show them. `told` are
-- the calls of `onModeChange`, the last one first.
pub record Panel : Type 0 where
  pub connection_state : ConnectionState
  pub connection_message : String
  pub mode_message : String
  pub badge : Option (String × Kind)
  pub hint : String
  pub led : Option Led
  pub reconnect : Option Button
  pub told : List ViewMode

abbrev pub is_live : ViewMode → Bool
is_live live = true
is_live fallback = false

abbrev pub is_connecting : ConnectionState → Bool
is_connecting connecting = true
is_connecting _ = false

-- `text || otherwise`
abbrev pub or_else : String → String → String
or_else text otherwise = if text === "" then otherwise else text

abbrev pub default_label : ConnectionState → String
default_label connected = "SSH connected"
default_label connecting = "SSH connecting"
default_label error = "SSH error"
default_label disconnected = "SSH disconnected"

abbrev pub connection_state_label : Panel → String
connection_state_label p = or_else p.connection_message (default_label p.connection_state)

abbrev pub reconnect_enabled : ViewMode → ConnectionState → Bool
reconnect_enabled mode s = is_live mode && not (is_connecting s)

abbrev pub shown_button : ViewMode → ConnectionState → Option Button → Option Button
shown_button mode s none = none
shown_button mode s (some b) = some (record {
  disabled = not (reconnect_enabled mode s);
  label = if is_connecting s then "Reconnecting..." else "Reconnect SSH";
})

unfoldable pub update_connection_controls : ViewMode → Panel → Panel
update_connection_controls mode p = record p {
  reconnect = shown_button mode p.connection_state p.reconnect;
}

-- The LED, its text and the button, once the toolbar is there.
abbrev show_led : ViewMode → Option Led → Panel → Panel
show_led mode none p = p
show_led mode (some l) p = update_connection_controls mode (record p {
  led = some (record {
    shows = p.connection_state;
    title = default_label p.connection_state;
    text = connection_state_label p;
  });
})

unfoldable pub set_mode_badge : Setup → ViewMode → String → Kind → Panel → Panel
unfolding update_connection_controls
set_mode_badge c mode message kind p =
    if c.has_badge && c.has_hint
    then show_led mode p.led (record p {
      mode_message = message;
      badge = some (template (message ∷ " · " ∷ connection_state_label p ∷ List.[]), kind);
      hint =
          if is_live mode
          then template
              (connection_state_label p ∷ " — terminal output is streamed in real time." ∷ List.[])
          else "Command endpoint not found. Using fallback simulation.";
      told = mode ∷ p.told;
    })
    else p

abbrev pub kind_of : ConnectionState → Kind
kind_of connected = ok
kind_of error = err
kind_of _ = warn

abbrev hint_of : ConnectionState → String
hint_of connected = "SSH connected. Terminal output is streamed in real time."
hint_of connecting = "SSH connecting. Establishing terminal stream..."
hint_of error = "SSH stream error. Click Reconnect SSH to retry."
hint_of disconnected = "SSH stream disconnected."

unfoldable pub set_connection_status : Setup → ViewMode → ConnectionState → String → Panel → Panel
unfolding set_mode_badge
set_connection_status c mode next message p =
    let q =
      set_mode_badge c mode (or_else p.mode_message "Streaming terminal") (kind_of next) (record p {
        connection_state = next;
        connection_message = or_else message p.connection_message;
      }) in
    record q { hint = if c.has_hint && is_live mode then hint_of next else q.hint }
