-- ===== src/Streaming/Messages.antt =====
-- The WebSocket handler of src/streaming/streaming_server.py, for a connection whose path has named
-- a session. A message is what its JSON says; what else stands in it is left out.
use disposable_compute_platf.Prelude.{
  ℕ, ◌*◌, ◌^◌, ◌==◌, leb, String, Bool, true, false, Option, none, some, List, [], ◌∷◌, contains,
  ◌||◌, str_eq, if◌then◌else◌,
}
use disposable_compute_platf.Prelude.Dict.{get, put}
use disposable_compute_platf.Prelude.Int.{ℤ, pos, negsuc, ltb_ℤ}
use disposable_compute_platf.Streaming.{
  is_active, Json, number, real, not_a_number, infinity, minus_infinity, boolean, other, InputEvent,
  StreamServer, handle_client_input,
}

pub data Message : Type 0 where
  not_json not_a_dict unknown_type event_not_a_dict : Message
  input : InputEvent → Message
  -- The subtype, if it is a text, and the resolution, if there is one.
  control : Option String → Option String → Message

abbrev pub event_types : List String
event_types = "mouse_move" ∷ "mouse_click" ∷ "keyboard" ∷ "resize" ∷ []

-- `max(0, min(10000, x))` of an int
abbrev pub clamp : ℤ → ℤ
clamp x = if ltb_ℤ (pos 10000) x then pos 10000 else if ltb_ℤ x (pos 0) then pos 0 else x

-- `max(0, min(10000, m / 2 ^ k))`: an argument of `min` and `max` stays what it is, and the first is
-- taken unless the second is better.
abbrev pub clamp_real : ℤ → ℕ → Json
clamp_real (pos m) k =
    if leb (10000 * 2 ^ k) m
    then number (pos 10000)
    else if m == 0
    then number (pos 0)
    else real (pos m) k
clamp_real (negsuc m) k = number (pos 0)

-- A coordinate that is missing is 0. None is the warning. `min(10000, nan)` is 10000, and a bool is
-- an int to `isinstance`, 0 or 1.
abbrev pub clamped : Option Json → Option Json
clamped none = some (number (pos 0))
clamped (some (number x)) = some (number (clamp x))
clamped (some (real m k)) = some (clamp_real m k)
clamped (some not_a_number) = some (number (pos 10000))
clamped (some infinity) = some (number (pos 10000))
clamped (some minus_infinity) = some (number (pos 0))
clamped (some (boolean true)) = some (boolean true)
clamped (some (boolean false)) = some (number (pos 0))
clamped (some other) = none

abbrev pub has_coordinates : String → Bool
has_coordinates type = str_eq type "mouse_move" || str_eq type "resize"

abbrev pub with_coordinates : InputEvent → Option Json → Option Json → Option InputEvent
with_coordinates event (some x) (some y) = some (record event { x = some x; y = some y })
with_coordinates event _ _ = none

-- The event that is passed on, or none.
unfoldable pub sanitize_event : InputEvent → Option InputEvent
unfolding contains
sanitize_event event = elim event.type [
  | none ↦ none
  | some type ↦
      if contains event_types type
      then (if has_coordinates type
          then with_coordinates event (clamped event.x) (clamped event.y)
          else some event)
      else none
]

-- `_handle_control_message`: only a new resolution that is not empty changes the state.
unfoldable pub handle_control_message :
    StreamServer → String → String → Option String → StreamServer
handle_control_message s session_id subtype resolution = elim (get session_id s.sessions) [
  | none ↦ s
  | some session ↦
      if str_eq subtype "resize"
      then elim resolution [
        | none ↦ s
        | some String.[] ↦ s
        | some (String.◌∷◌ c r) ↦ record s {
          sessions = put session_id (record session { resolution = String.◌∷◌ c r }) s.sessions;
        }
      ]
      else s
]

unfoldable pub handle_message : StreamServer → String → Message → StreamServer
unfolding sanitize_event handle_client_input handle_control_message
handle_message s session_id (input event) = elim (sanitize_event event) [
  | none ↦ s
  | some sanitized ↦ handle_client_input s session_id sanitized
]
handle_message s session_id (control none resolution) = s
handle_message s session_id (control (some subtype) resolution) =
    handle_control_message s session_id subtype resolution
handle_message s session_id _ = s

-- The handler up to its loop: true when it goes on. The address stays with a session that is not
-- active.
unfoldable pub connect : StreamServer → String → String → StreamServer × Bool
connect s session_id address = elim (get session_id s.sessions) [
  | none ↦ (s, false)
  | some session ↦ (
    record s {
      sessions = put session_id (record session { client_connection = some address }) s.sessions;
    },
    is_active session.status,
  )
]

unfoldable pub disconnect : StreamServer → String → StreamServer
disconnect s session_id = elim (get session_id s.sessions) [
  | none ↦ s
  | some session ↦ record s {
    sessions = put session_id (record session { client_connection = none }) s.sessions;
  }
]
