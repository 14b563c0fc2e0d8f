-- ===== src/Tests/Streams.antt =====
-- A streaming session and its inputs.
use disposable_compute_platf.Prelude.{◌≡◌, refl, some, [], ◌∷◌, take, ◌++◌, arith}
use disposable_compute_platf.Prelude.Dict.{get, put}
use disposable_compute_platf.Prelude.Int.{pos}
use disposable_compute_platf.Streaming.{
  StreamSession, InputEvent, number, real, StreamServer, new_server, start_stream_session,
  initial_session, active,
}
use disposable_compute_platf.Streaming.Messages.{input, handle_message}
use disposable_compute_platf.Streaming.Bounds.{IsBounded}
use disposable_compute_platf.Streaming.History.{here, next, start, message, Reaches-IsBounded}
use disposable_compute_platf.Streaming.Dropping.{handle_inputs, handle_inputs-take}

abbrev move : InputEvent
move = record {
  type = some "mouse_move";
  x = some (number (pos 20000));
  y = some (real (pos 7) 1);
  rest = "";
}

abbrev server : StreamServer
server = (start_stream_session 1 new_server "s1" (some 77) "p1" "webrtc" "1920x1080" 30).0

Reaches-IsBounded_example : IsBounded (handle_message server "s1" (input move))
Reaches-IsBounded_example = Reaches-IsBounded (
    next (next here (start 1 "s1" (some 77) "p1" "webrtc" "1920x1080" 30))
      (message "s1" (input move)))

abbrev session : StreamSession
session = record (initial_session 1 "s1" "p1" "webrtc" "1920x1080" 30) {
  status = active;
  started_at = some 1;
}

handle_inputs-take_example :
    get "s1" (handle_inputs server "s1" (move ∷ move ∷ [])).input_queues
    ≡ some (take 100 ([] ++ move ∷ move ∷ []))
unfolding start_stream_session get put
handle_inputs-take_example =
    handle_inputs-take "s1" session server [] (move ∷ move ∷ []) refl refl (omega arith)
