-- ===== src/Tests/Lifecycles.antt =====
-- Sessions on the cluster of two nodes.
use disposable_compute_platf.Prelude.{
  ℕ, String, ◌≡◌, refl, false, Option, none, some, [], ◌∷◌, filter, contains,
}
use disposable_compute_platf.Prelude.Dict.{get, put, del, total}
use disposable_compute_platf.Scheduler.Reservation.Gpus.{held}
use disposable_compute_platf.Scheduler.Reservation.Accounting.{IsBalanced}
use disposable_compute_platf.Scheduler.Types.{Node, gpu_demand, available_gpus}
use disposable_compute_platf.Scheduler.Placement.{
  Scheduler, register_node, schedule, schedule_among, schedule_valid, reserve_best, commit_best,
  sort_scored, insert_scored, unschedule,
}
use disposable_compute_platf.Scheduler.Validator.{
  validate, missing, validate_gpu, validate_gpu_config, validate_loads, validate_amounts,
}
use disposable_compute_platf.Scheduler.Scorer.{
  score, calculate_resource_score, resource_scores, vram_score, free_score, cpu_util, amount_util,
  calculate_load_score, load_factors, mean_load, calculate_proximity_score,
  calculate_reliability_score,
}
use disposable_compute_platf.Scheduler.Reservation.{reserve, short, take_resources}
use disposable_compute_platf.Scheduler.Placement.Evictions.{IsSoundState}
use disposable_compute_platf.Scheduler.Placement.Steps.{
  join, schedule-IsSound, Reach-IsSound, empty-IsSound,
}
use disposable_compute_platf.Scheduler.Placement.Steps
use disposable_compute_platf.Prelude.Float.{float_max, float_min, sum_from}
use disposable_compute_platf.Sessions.Types.{SessionType, SessionStatus, Session, SessionManager}
use disposable_compute_platf.Sessions.Lifecycle.{
  pod_of, set_status, pod_request, new_session, begin_session, finish_session, destroy_session,
  begin_destroy, finish_destroy, is_expired, cleanup_expired_sessions, expired_ids, remove_sessions,
  remove_session, update_session,
}
use disposable_compute_platf.Sessions.History.{here, next, begin}
use disposable_compute_platf.Sessions.Destroying.{
  OnNoNode, finish_session-frees, destroy_session-frees, finish_session-destroy_session,
}
use disposable_compute_platf.Sessions.Expiry.{cleanup_expired_sessions-live}
use disposable_compute_platf.Tests.Numbers.{numbers}
use disposable_compute_platf.Tests.Schedules.{clock, empty}
use disposable_compute_platf.Tests.Cluster.{node_of}

-- A cluster of one node, with room for the pod of a session.
abbrev spacious : Node ℕ
spacious = record (node_of "n0" 0) { memory_total_mb = 4096; memory_available_mb = 4096 }

spacious-IsBalanced : IsBalanced spacious
unfolding held get total
spacious-IsBalanced = record {
  distinct = tt;
  memory = refl;
  storage = refl;
  vram = refl;
  unclaimed = ((λ h. refl), ((λ h. refl), tt));
  gpus = λ p. refl;
}

abbrev roomy : Scheduler ℕ
roomy = register_node empty spacious

roomy_IsSound : IsSoundState roomy
roomy_IsSound =
    Reach-IsSound numbers (empty-IsSound numbers empty refl)
      (Steps.next Steps.here (join empty spacious refl spacious-IsBalanced))

abbrev manager : SessionManager ℕ
manager = record {
  default_ttl = 30;
  sessions = [];
  environments = [];
  scheduler = roomy;
  alert_manager = record { active_alerts = []; pagerduty_key = none; opsgenie_key = none };
}

abbrev url : Option String
url = some "https://github.com/a/b"

abbrev session : Session
session = new_session numbers 0 "s1" SessionType.preview url 30

abbrev begun : SessionManager ℕ
begun = (begin_session numbers 0 clock "alert-1" manager "s1" SessionType.preview url none).0

finish_session-frees_example :
    ((finish_session numbers begun session none).1 ≡ false)
    × (get "s1" (finish_session numbers begun session none).0.sessions
        ≡ some (set_status session SessionStatus.failed))
    × OnNoNode (finish_session numbers begun session none).0.scheduler (pod_of "s1")
unfolding get register_node begin_session schedule schedule_among schedule_valid reserve_best
    commit_best sort_scored insert_scored filter validate missing contains gpu_demand available_gpus
    validate_gpu validate_gpu_config validate_loads validate_amounts put score
    calculate_resource_score resource_scores vram_score free_score cpu_util amount_util
    calculate_load_score load_factors mean_load calculate_proximity_score
    calculate_reliability_score float_max float_min sum_from reserve short take_resources
finish_session-frees_example =
    finish_session-frees numbers session session roomy_IsSound
      (next here (begin manager 0 clock "alert-1" "s1" SessionType.preview url none refl)) refl refl

-- A manager whose session's pod is scheduled.
abbrev placed : SessionManager ℕ
placed = record manager {
  sessions = ("s1", session) ∷ [];
  scheduler = (schedule numbers clock roomy (pod_request numbers "s1") none).state;
}

placed_IsSound : IsSoundState placed.scheduler
unfolding get register_node
placed_IsSound =
    schedule-IsSound numbers clock (pod_request numbers "s1") roomy none roomy_IsSound refl

destroy_session-frees_example :
    OnNoNode (destroy_session numbers 7 placed "s1").scheduler (pod_of "s1")
    × (get "s1" (destroy_session numbers 7 placed "s1").sessions
        ≡ some (record session {
          destroy_lock = false;
          status = SessionStatus.destroyed;
          updated_at = 7;
        }))
unfolding get
destroy_session-frees_example =
    destroy_session-frees numbers 7 placed "s1" session placed_IsSound refl refl

finish_session-destroy_session_example :
    let m' =
      (finish_session numbers
        (destroy_session numbers 7 placed session.id)
        session
        (some "c1")).0 in
    (s : Session) × (get session.id m'.sessions ≡ some s)
    × (s.status ≡ SessionStatus.running)
    × OnNoNode m'.scheduler (pod_of session.id)
unfolding get
finish_session-destroy_session_example =
    finish_session-destroy_session numbers 7 placed session "c1" placed_IsSound refl refl refl

-- The first session has expired by minute 31, the second has not.
abbrev later : Session
later = new_session numbers 0 "s2" SessionType.fork_gui none 60

abbrev two_sessions : SessionManager ℕ
two_sessions = record manager { sessions = ("s1", session) ∷ ("s2", later) ∷ [] }

cleanup_expired_sessions-live_example :
    (is_expired numbers 1860000000 later ≡ false) × (get "s2" two_sessions.sessions ≡ some later)
unfolding cleanup_expired_sessions expired_ids remove_sessions remove_session destroy_session
    begin_destroy finish_destroy update_session unschedule get put del
cleanup_expired_sessions-live_example =
    cleanup_expired_sessions-live numbers 1860000000 two_sessions "s2" later refl
