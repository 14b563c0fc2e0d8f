-- ===== src/Streaming/Manager.antt =====
-- `StreamingManager` of src/streaming/streaming_server.py.
use Prim.Native.String.{◌++◌}
use disposable_compute_platf.Prelude.{
  ℕ, String, Bool, true, false, Option, none, some, if◌then◌else◌,
}
use disposable_compute_platf.Prelude.Dict.{Dict, get, put, del}
use disposable_compute_platf.Streaming.{StreamServer, start_stream_session, stop_stream_session}

-- The session of each pod.
pub record StreamingManager : Type 0 where
  pub stream_server : StreamServer
  pub streaming_sessions : Dict String

unfoldable pub start_pod_streaming :
    ℕ
    → StreamingManager
    → String
    → Option ℕ
    → String
    → String
    → String
    → ℕ
    → StreamingManager × Bool
unfolding start_stream_session
start_pod_streaming now m session_id pid pod_id stream_type resolution fps =
    let (s, started) =
      start_stream_session now m.stream_server session_id pid pod_id stream_type resolution fps in
    if started
    then (
      record { stream_server = s; streaming_sessions = put pod_id session_id m.streaming_sessions },
      true,
    )
    else (record m { stream_server = s }, false)

unfoldable pub stop_pod_streaming : ℕ → StreamingManager → String → StreamingManager
unfolding stop_stream_session
stop_pod_streaming now m pod_id = elim (get pod_id m.streaming_sessions) [
  | none ↦ m
  | some session_id ↦ record {
    stream_server = stop_stream_session now m.stream_server session_id;
    streaming_sessions = del pod_id m.streaming_sessions;
  }
]

unfoldable pub get_stream_url : StreamingManager → String → Option String
get_stream_url m pod_id = elim (get pod_id m.streaming_sessions) [
  | none ↦ none
  | some session_id ↦ some ("ws://streaming.disposable-platform.com/stream/" ++ session_id)
]
