-- ===== src/Terminal/Stream.antt =====
-- The stream of the terminal: `_isStreamOpen`, `_sendStreamInput`, `_sendResize`,
-- `_handleStreamMessage`, `_closeStream`, `_openStream` and the handlers of its sockets.
use robot_maintanance.Prelude.{
  ℕ, suc, ◌/◌, String, Bool, true, false, not, ◌&&◌, ◌||◌, Option, none, some, [], ◌∷◌, ◌==◌, ◌===◌,
  is_some, if◌then◌else◌,
}
use robot_maintanance.Js.{Number, thousandths, Value, str, get, truthy}
use robot_maintanance.Js.Engine.{Engine, text_of}
use robot_maintanance.Terminal.{Setup, is_live, connected, connecting, disconnected, error}
use robot_maintanance.Terminal.State.{
  Terminal, Target, Socket, ReadyState, opened, opening, closing, Message, resize_message, Xterm,
  raw, err_line, warn_line, Promised, given, of_socket, put, status, write, build_endpoint,
}

abbrev pub is_open : ReadyState → Bool
is_open opened = true
is_open _ = false

abbrev pub is_opening : ReadyState → Bool
is_opening opening = true
is_opening _ = false

abbrev open_at : (ℕ → Socket) → Option ℕ → Bool
open_at sockets none = false
open_at sockets (some k) = is_open (sockets k).ready

abbrev pub is_stream_open : Terminal → Bool
is_stream_open t = open_at t.sockets t.stream_socket

abbrev sent_at : Message → (ℕ → Socket) → Option ℕ → ℕ → Socket
sent_at m sockets none = sockets
sent_at m sockets (some k) =
    let s = sockets k in
    if is_open s.ready then put k (record s { sent = m ∷ s.sent }) sockets else sockets

-- `_sendStreamInput`, which answers `is_stream_open`: an open socket does not throw.
unfoldable pub send : Message → Terminal → Terminal
send m t = record t { sockets = sent_at m t.sockets t.stream_socket }

abbrev positive_whole : Number → Option ℕ
positive_whole (thousandths ℕ.zero) = none
positive_whole (thousandths n) = some (n / 1000)
positive_whole _ = none

abbrev resized : Option ℕ → Option ℕ → Terminal → Terminal
unfolding send
resized (some cols) (some rows) t = send (resize_message cols rows) t
resized _ _ t = t

-- `_sendResize`; finite positive numbers are rounded down.
unfoldable pub send_resize : Number → Number → Terminal → Terminal
unfolding send
send_resize cols rows t = resized (positive_whole cols) (positive_whole rows) t

abbrev resize_view : Option Xterm → Terminal → Terminal
unfolding send_resize
resize_view none t = t
resize_view (some x) t = send_resize x.cols x.rows t

-- `_sendResize()`, with the size of the view
unfoldable pub send_view_size : Terminal → Terminal
unfolding send_resize
send_view_size t = resize_view t.terminal t

abbrev pub text_field : Value → String → Option String
text_field v key = elim (get v key) [ str s ↦ some s | _ ↦ none ]

abbrev message_text : Option String → String
message_text none = "Terminal stream error"
message_text (some s) = s

-- `String(payload?.type || '').toLowerCase()`
abbrev pub message_type : Engine → Value → String
message_type js payload =
    js.lower (if truthy (get payload "type") then text_of js (get payload "type") else "")

unfoldable pub handle_payload : Setup → Engine → String → Option Value → Terminal → Terminal
unfolding write
handle_payload c js text none t = write (raw text) t
handle_payload c js text (some payload) t =
    let kind = message_type js payload in
    let content = text_field payload "data" in
    if kind === "output" && is_some content
    then write (raw (message_text content)) t
    else if kind === "error"
    then status c error "Terminal stream error"
        (write (err_line (message_text (text_field payload "message"))) t)
    else t

-- `_handleStreamMessage`; what a binary message is awaited for is its text.
unfoldable pub handle_stream_message : Setup → Engine → String → Terminal → Terminal
unfolding handle_payload
handle_stream_message c js text t =
    if is_some t.terminal then handle_payload c js text (c.parse text) t else t

-- A socket whose handlers are taken away and which is closed where it is not closed yet.
abbrev silenced : Socket → Socket
silenced s = record s {
  listening = false;
  ready = if is_open s.ready || is_opening s.ready then closing else s.ready;
}

abbrev silenced_at : Option ℕ → (ℕ → Socket) → ℕ → Socket
silenced_at none sockets = sockets
silenced_at (some k) sockets = put k (silenced (sockets k)) sockets

-- `_closeStream({ suppressStatus: true })`, the only way in which it is called.
unfoldable pub close_stream : Terminal → Terminal
close_stream t = record t {
  stream_socket = none;
  stream_open_promise = none;
  sockets = silenced_at t.stream_socket t.sockets;
}

abbrev pub new_socket : String → Socket
new_socket id = record { robot = id; ready = opening; listening = true; settled = none; sent = [] }

-- A new socket, and the promise of its opening.
unfoldable pub start_stream : Setup → String → Terminal → Terminal
start_stream c id t =
    let t = status c connecting "Opening terminal stream..." t in
    record t {
      sockets = put t.next_socket (new_socket id) t.sockets;
      next_socket = suc t.next_socket;
      stream_socket = some t.next_socket;
      stream_open_promise = some t.next_socket;
    }

abbrev stream_or_start : Setup → String → Option ℕ → Terminal → Terminal × Promised
unfolding start_stream
stream_or_start c id (some k) t = (t, of_socket k)
stream_or_start c id none t =
    if is_some (build_endpoint c id)
    then (start_stream c id t, of_socket t.next_socket)
    else (t, given false)

-- `_openStream`
unfoldable pub open_stream : Setup → Option Target → Terminal → Terminal × Promised
unfolding start_stream
open_stream c none t = (t, given false)
open_stream c (some r) t =
    if r.id === ""
    then (t, given false)
    else if is_stream_open t
    then (t, given true)
    else stream_or_start c r.id t.stream_open_promise t

-- `finalize`
unfoldable pub finalize : ℕ → Bool → Terminal → Terminal
finalize k ok t = if is_some (t.sockets k).settled then t else record t {
  sockets = put k (record (t.sockets k) { settled = some ok }) t.sockets;
  stream_open_promise = none;
}

abbrev pub set_ready : ℕ → ReadyState → Terminal → Terminal
set_ready k ready t = record t {
  sockets = put k (record (t.sockets k) { ready = ready }) t.sockets;
}

-- `socket.onopen`
unfoldable pub on_open : Setup → ℕ → Terminal → Terminal
unfolding finalize send_view_size
on_open c k t = finalize k true (send_view_size (status c connected "SSH stream connected" t))

-- `socket.onerror`
unfoldable pub on_error : Setup → ℕ → Terminal → Terminal
unfolding finalize
on_error c k t =
    if is_some (t.sockets k).settled
    then t
    else finalize k false (status c error "Terminal stream failed" t)

-- `socket.onclose`
unfoldable pub on_close : Setup → ℕ → ℕ → Terminal → Terminal
unfolding finalize write
on_close c k code t =
    let t = record t { stream_socket = none; stream_open_promise = none } in
    if t.disposing || not (is_live t.mode)
    then finalize k false t
    else finalize k false (
        if code == 1000
        then status c disconnected "Terminal stream closed" t
        else write (warn_line "Terminal stream disconnected. Click Reconnect SSH to continue.")
            (status c error "Terminal stream disconnected" t))
