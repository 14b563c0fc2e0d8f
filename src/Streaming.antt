-- ===== src/Streaming.antt =====
-- src/streaming/streaming_server.py. FFmpeg's processes are their ids; whether one starts, the time
-- and random ids are arguments. A metric's constants are left out. `threading.Thread` is given a
-- coroutine function, whose call runs nothing: `handle_client_input` starts no processing.
pub mod Messages
pub mod Manager
pub mod Bounds
pub mod History
pub mod Dropping
use Prim.Native.String.{◌++◌}
use disposable_compute_platf.Prelude.{
  ℕ, ◌+◌, ◌-◌, ◌*◌, String, Bool, true, false, Option, none, some, List, [], ◌∷◌, ◌++◌ as append,
  ltb, leb, length, drop, ◌&&◌, if◌then◌else◌,
}
use disposable_compute_platf.Prelude.Dict.{Dict, get, put, del, is_some}
use disposable_compute_platf.Prelude.Int.{ℤ}

pub data StreamStatus : Type 0 where
  initializing active errored stopping stopped : StreamStatus

pub record StreamSession : Type 0 where
  pub id : String
  pub pod_id : String
  pub client_connection : Option String
  pub stream_type : String
  pub status : StreamStatus
  pub created_at : ℕ
  pub started_at : Option ℕ
  pub ended_at : Option ℕ
  pub resolution : String
  pub fps : ℕ

pub record StreamMetrics : Type 0 where
  pub session_id : String
  pub timestamp : ℕ
  pub frame_rate : ℕ
  pub resolution : String

-- A coordinate of an event as `json.loads` has it: an int, a finite float m / 2 ^ k, one of the other
-- floats that Python's JSON knows, a bool, or something that is no number.
pub data Json : Type 0 where
  number : ℤ → Json
  real : ℤ → ℕ → Json
  not_a_number infinity minus_infinity : Json
  boolean : Bool → Json
  other : Json

-- An input event: its type, if that is a text, its coordinates, if they are there, and the rest.
pub record InputEvent : Type 0 where
  pub type : Option String
  pub x : Option Json
  pub y : Option Json
  pub rest : String

pub record StreamServer : Type 0 where
  pub sessions : Dict StreamSession
  pub encoding_processes : Dict ℕ
  pub decoding_processes : Dict ℕ
  pub input_queues : Dict (List InputEvent)
  pub metrics_history : Dict (List StreamMetrics)

abbrev pub new_server : StreamServer
new_server = record {
  sessions = [];
  encoding_processes = [];
  decoding_processes = [];
  input_queues = [];
  metrics_history = [];
}

-- `queue.Queue.put_nowait` on a queue of at most 100, which raises when it is full.
abbrev pub put_nowait : List InputEvent → InputEvent → List InputEvent
put_nowait events event = if leb 100 (length events) then events else append events (event ∷ [])

-- `InputHandler.handle_client_input`
unfoldable pub queue_input : StreamServer → String → InputEvent → StreamServer
queue_input s session_id event = elim (get session_id s.input_queues) [
  | none ↦ s
  | some events ↦ record s {
    input_queues = put session_id (put_nowait events event) s.input_queues;
  }
]

-- `StreamServer.handle_client_input`
unfoldable pub handle_client_input : StreamServer → String → InputEvent → StreamServer
unfolding queue_input
handle_client_input s session_id event =
    if is_some (get session_id s.sessions) then queue_input s session_id event else s

-- `StreamEncoder.start_encoding`: none is the exception of Popen.
unfoldable pub start_encoding : StreamServer → String → Option ℕ → Option StreamServer
start_encoding s session_id none = none
start_encoding s session_id (some pid) =
    some (record s { encoding_processes = put session_id pid s.encoding_processes })

abbrev pub initial_session : ℕ → String → String → String → String → ℕ → StreamSession
initial_session now session_id pod_id stream_type resolution fps = record {
  id = session_id;
  pod_id = pod_id;
  client_connection = none;
  stream_type = stream_type;
  status = initializing;
  created_at = now;
  started_at = none;
  ended_at = none;
  resolution = resolution;
  fps = fps;
}

-- False when the exception is raised on.
unfoldable pub start_stream_session :
    ℕ → StreamServer → String → Option ℕ → String → String → String → ℕ → StreamServer × Bool
unfolding start_encoding
start_stream_session now s session_id pid pod_id stream_type resolution fps =
    let session = initial_session now session_id pod_id stream_type resolution fps in
    let s1 : StreamServer = record s {
      sessions = put session_id session s.sessions;
      input_queues = put session_id [] s.input_queues;
    } in
    elim (start_encoding s1 session_id pid) [
      | none ↦ (
        record s1 { sessions = put session_id (record session { status = errored }) s1.sessions },
        false,
      )
      | some s2 ↦ (
        record s2 {
          sessions =
              put session_id (record session { status = active; started_at = some now })
                s2.sessions;
        },
        true,
      )
    ]

unfoldable pub stop_stream_session : ℕ → StreamServer → String → StreamServer
stop_stream_session now s session_id = elim (get session_id s.sessions) [
  | none ↦ s
  | some session ↦ record s {
    sessions = put session_id (record session { status = stopped; ended_at = some now }) s.sessions;
    encoding_processes = del session_id s.encoding_processes;
    decoding_processes = del session_id s.decoding_processes;
    input_queues = del session_id s.input_queues;
  }
]

abbrev pub is_active : StreamStatus → Bool
is_active active = true
is_active _ = false

abbrev pub or_empty : Option (List StreamMetrics) → List StreamMetrics
or_empty none = []
or_empty (some metrics) = metrics

-- `metrics[-100:]` of more than 100.
abbrev pub keep_last : List StreamMetrics → List StreamMetrics
keep_last metrics =
    if ltb 100 (length metrics) then drop (length metrics - 100) metrics else metrics

-- One round of the loop of `_collect_metrics`.
unfoldable pub collect_metrics : ℕ → StreamServer → String → StreamServer
collect_metrics now s session_id = elim (get session_id s.sessions) [
  | none ↦ s
  | some session ↦
      if is_active session.status
      then record s {
        metrics_history =
            put session_id
              (keep_last (
                append (or_empty (get session_id s.metrics_history)) (
                  record {
                    session_id = session_id;
                    timestamp = now;
                    frame_rate = session.fps;
                    resolution = session.resolution;
                  }
                  ∷ [])))
              s.metrics_history;
      }
      else s
]

-- A minute in microseconds.
abbrev minute : ℕ
minute = 60000000

abbrev is_stale : ℕ → StreamSession → Bool
is_stale now session = elim session.status [
  | initializing ↦ ltb (session.created_at + 5 * minute) now
  | errored ↦ ltb (session.created_at + minute) now
  | _ ↦ false
]

unfoldable pub stale_ids : ℕ → Dict StreamSession → List String
stale_ids now [] = []
stale_ids now ((session_id, session) ∷ rest) =
    let ids = stale_ids now rest in if is_stale now session then session_id ∷ ids else ids

unfoldable pub remove_stream_session : ℕ → StreamServer → String → StreamServer
unfolding stop_stream_session
remove_stream_session now s session_id =
    let s1 = stop_stream_session now s session_id in
    record s1 { sessions = del session_id s1.sessions }

unfoldable pub remove_stream_sessions : ℕ → StreamServer → List String → StreamServer
unfolding remove_stream_session
remove_stream_sessions now s [] = s
remove_stream_sessions now s (i ∷ ids) =
    remove_stream_sessions now (remove_stream_session now s i) ids

unfoldable pub cleanup_stale_sessions : ℕ → StreamServer → StreamServer
unfolding stale_ids remove_stream_sessions
cleanup_stale_sessions now s = remove_stream_sessions now s (stale_ids now s.sessions)
