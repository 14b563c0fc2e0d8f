-- ===== src/Streaming/History.antt =====
-- Histories of the server of src/streaming/streaming_server.py.
use mathlib.Core.Path.{subst}
use mathlib.Core.Bool.{true≢false}
use disposable_compute_platf.Prelude.{
  ℕ, ◌≤◌, String, ◌≡◌, sym, Option, none, some, List, [], ◌∷◌, ◌++◌, length, arith, Bool-cases,
  Option-cases, inl, inr,
}
use disposable_compute_platf.Prelude.Dict.{get}
use disposable_compute_platf.Streaming.{
  StreamMetrics, InputEvent, StreamServer, new_server, put_nowait, queue_input, handle_client_input,
  start_stream_session, stop_stream_session, is_active, or_empty, keep_last, collect_metrics,
  stale_ids, remove_stream_session, remove_stream_sessions, cleanup_stale_sessions,
}
use disposable_compute_platf.Streaming.Messages.{
  Message, input, control, not_json, not_a_dict, unknown_type, event_not_a_dict, sanitize_event,
  handle_message, handle_control_message, connect, disconnect,
}
use disposable_compute_platf.Streaming.Bounds.{
  AllValues, IsClean, IsGoodQueue, IsBounded, put-AllValues, del-AllValues, sanitize_event-IsClean,
  put_nowait-IsGoodQueue, keep_last-short,
}

-- What each operation does to the bounds.
queue_input-IsBounded :
    (s : StreamServer) (i : String) (e : InputEvent)
    → IsClean e
    → IsBounded s
    → IsBounded (queue_input s i e)
unfolding queue_input
queue_input-IsBounded s i e c h = elim (Option-cases (get i s.input_queues)) [
  | inl n ↦ rw (n, queue_input) h
  | inr (events, n) ↦
      let good = put_nowait-IsGoodQueue events e c (h.queues i events n) in
      rw (n, queue_input)
        (record {
          queues = put-AllValues IsGoodQueue i (put_nowait events e) s.input_queues good h.queues;
          metrics = h.metrics;
        })
]

same-IsBounded :
    (s k : StreamServer)
    → k.input_queues ≡ s.input_queues
    → k.metrics_history ≡ s.metrics_history
    → IsBounded s
    → IsBounded k
same-IsBounded s k q m h = record {
  queues = subst (AllValues IsGoodQueue) (sym q) h.queues;
  metrics = subst (AllValues (λ (ms : List StreamMetrics). length ms ≤ 100)) (sym m) h.metrics;
}

control-queues :
    (s : StreamServer) (i t : String) (r : Option String)
    → (handle_control_message s i t r).input_queues ≡ s.input_queues
unfolding handle_control_message
control-queues s i t none = ground arith
control-queues s i t (some String.[]) = ground arith
control-queues s i t (some (String.◌∷◌ c r)) = ground arith

control-metrics :
    (s : StreamServer) (i t : String) (r : Option String)
    → (handle_control_message s i t r).metrics_history ≡ s.metrics_history
unfolding handle_control_message
control-metrics s i t none = ground arith
control-metrics s i t (some String.[]) = ground arith
control-metrics s i t (some (String.◌∷◌ c r)) = ground arith

message-IsBounded :
    (s : StreamServer) (i : String) (m : Message) → IsBounded s → IsBounded (handle_message s i m)
unfolding handle_message handle_client_input
message-IsBounded s i (input e) h = elim (Option-cases (sanitize_event e)) [
  | inl n ↦ rw (n, handle_message) h
  | inr (e', n) ↦
      let more = queue_input-IsBounded s i e' (sanitize_event-IsClean e e' n) h in
      elim (Option-cases (get i s.sessions)) [
        | inl g ↦ rw (n, handle_message) (rw (g, handle_client_input) h)
        | inr (session, g) ↦ rw (n, handle_message) (rw (g, handle_client_input) more)
      ]
]
message-IsBounded s i (control none r) h = h
message-IsBounded s i (control (some t) r) h =
    same-IsBounded s (handle_control_message s i t r) (control-queues s i t r)
      (control-metrics s i t r) h
message-IsBounded s i not_json h = h
message-IsBounded s i not_a_dict h = h
message-IsBounded s i unknown_type h = h
message-IsBounded s i event_not_a_dict h = h

start-IsBounded :
    (now : ℕ) (s : StreamServer) (i : String) (pid : Option ℕ) (pod type resolution : String)
    (fps : ℕ)
    → IsBounded s
    → IsBounded (start_stream_session now s i pid pod type resolution fps).0
unfolding start_stream_session
start-IsBounded now s i none pod type resolution fps h = record {
  queues = put-AllValues IsGoodQueue i [] s.input_queues (omega arith, tt) h.queues;
  metrics = h.metrics;
}
start-IsBounded now s i (some pid) pod type resolution fps h = record {
  queues = put-AllValues IsGoodQueue i [] s.input_queues (omega arith, tt) h.queues;
  metrics = h.metrics;
}

stop-IsBounded :
    (now : ℕ) (s : StreamServer) (i : String)
    → IsBounded s
    → IsBounded (stop_stream_session now s i)
unfolding stop_stream_session
stop-IsBounded now s i h = elim (Option-cases (get i s.sessions)) [
  | inl n ↦ rw (n, stop_stream_session) h
  | inr (session, n) ↦
      rw (n, stop_stream_session)
        (record {
          queues = del-AllValues IsGoodQueue i s.input_queues h.queues;
          metrics = h.metrics;
        })
]

remove-IsBounded :
    (now : ℕ) (s : StreamServer) (ids : List String)
    → IsBounded s
    → IsBounded (remove_stream_sessions now s ids)
unfolding remove_stream_sessions remove_stream_session
remove-IsBounded now s [] h = h
remove-IsBounded now s (i ∷ ids) h =
    let k = stop-IsBounded now s i h in
    remove-IsBounded now (remove_stream_session now s i) ids
      (record { queues = k.queues; metrics = k.metrics })

connect-IsBounded :
    (s : StreamServer) (i address : String) → IsBounded s → IsBounded (connect s i address).0
unfolding connect
connect-IsBounded s i address h =
    same-IsBounded s (connect s i address).0 (ground arith) (ground arith) h

disconnect-IsBounded : (s : StreamServer) (i : String) → IsBounded s → IsBounded (disconnect s i)
unfolding disconnect
disconnect-IsBounded s i h = same-IsBounded s (disconnect s i) (ground arith) (ground arith) h

collect-IsBounded :
    (now : ℕ) (s : StreamServer) (i : String) → IsBounded s → IsBounded (collect_metrics now s i)
unfolding collect_metrics
collect-IsBounded now s i h = elim (Option-cases (get i s.sessions)) [
  | inl n ↦ rw (n, collect_metrics) h
  | inr (session, n) ↦ elim (Bool-cases (is_active session.status)) [
    | inl a ↦
        let new_metrics : StreamMetrics = record {
          session_id = i;
          timestamp = now;
          frame_rate = session.fps;
          resolution = session.resolution;
        } in
        let kept = keep_last (or_empty (get i s.metrics_history) ++ new_metrics ∷ []) in
        rw (n, collect_metrics)
          (rw a (record {
            queues = h.queues;
            metrics =
                put-AllValues (λ (ms : List StreamMetrics). length ms ≤ 100) i kept
                  s.metrics_history
                  (keep_last-short (or_empty (get i s.metrics_history) ++ new_metrics ∷ []))
                  h.metrics;
          }))
    | inr a ↦ rw (n, collect_metrics) (rw a h)
  ]
]

-- What happens to the server, between two waits: sessions, connections, messages, metrics, and the
-- clean-up.
pub data Step (s : StreamServer) : StreamServer → Type 0 where
  start :
      (now : ℕ) (i : String) (pid : Option ℕ) (pod type resolution : String) (fps : ℕ)
      → Step s (start_stream_session now s i pid pod type resolution fps).0
  stop : (now : ℕ) (i : String) → Step s (stop_stream_session now s i)
  opened : (i address : String) → Step s (connect s i address).0
  closed : (i : String) → Step s (disconnect s i)
  message : (i : String) (m : Message) → Step s (handle_message s i m)
  collect : (now : ℕ) (i : String) → Step s (collect_metrics now s i)
  clean : (now : ℕ) → Step s (cleanup_stale_sessions now s)

pub data Reaches (s : StreamServer) : StreamServer → Type 0 where
  here : Reaches s s
  next : {k l : StreamServer} → Reaches s k → Step k l → Reaches s l

Step-IsBounded : {s k : StreamServer} → Step s k → IsBounded s → IsBounded k
Step-IsBounded {s} (start now i pid pod type resolution fps) h =
    start-IsBounded now s i pid pod type resolution fps h
Step-IsBounded {s} (stop now i) h = stop-IsBounded now s i h
Step-IsBounded {s} (opened i address) h = connect-IsBounded s i address h
Step-IsBounded {s} (closed i) h = disconnect-IsBounded s i h
Step-IsBounded {s} (message i m) h = message-IsBounded s i m h
Step-IsBounded {s} (collect now i) h = collect-IsBounded now s i h
Step-IsBounded {s} (clean now) h =
    unfold cleanup_stale_sessions in remove-IsBounded now s (stale_ids now s.sessions) h

none-some : {A : Type 0} {a : A} → none ≡ some a → ⊥
none-some h = true≢false (cc)

new-IsBounded : IsBounded new_server
unfolding get
new-IsBounded = record {
  queues = λ i v e. absurd (none-some e);
  metrics = λ i v e. absurd (none-some e);
}

-- In every state that a history reaches from a new streaming server, each input queue has at most
-- 100 events, each of them of one of the four permitted types and, for mouse moves and resizes,
-- with coordinates that are ints or finite floats from 0 to 10000, or True; and each history of
-- metrics has at most 100 entries. A history is any sequence of sessions started and stopped,
-- connections opened and closed, messages from clients, rounds of metrics and clean-ups of stale
-- sessions.
pub Reaches-IsBounded : {s : StreamServer} → Reaches new_server s → IsBounded s
Reaches-IsBounded here = new-IsBounded
Reaches-IsBounded (next r st) = Step-IsBounded st (Reaches-IsBounded r)
