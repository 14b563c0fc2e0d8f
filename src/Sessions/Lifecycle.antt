-- ===== src/Sessions/Lifecycle.antt =====
-- `SessionManager` of src/services/platform.py. Creating and destroying a session wait for the
-- orchestrator: each is two steps, before and after the wait. What the orchestrator answers is an
-- argument: the id of the pod that it made, or none when it raises.
use Prim.Native.String.{◌++◌}
use disposable_compute_platf.Prelude.{
  ℕ, zero, suc, ◌+◌, ◌*◌, String, Bool, true, false, Option, none, some, List, [], ◌∷◌, ltb,
  if◌then◌else◌,
}
use disposable_compute_platf.Prelude.Dict.{Dict, get, put, del}
use disposable_compute_platf.Prelude.Text.{prefix}
use disposable_compute_platf.Prelude.Float.{Float}
use disposable_compute_platf.Scheduler.Types.{PodRequest, SchedulingStatus}
use disposable_compute_platf.Scheduler.Placement.{Clock, Answer, schedule, unschedule}
use disposable_compute_platf.Sessions.Types.{
  SessionType, preview, run_repo, fork_gui, SessionStatus, Session, SessionManager, is_none,
}
use disposable_compute_platf.Sessions.Alerts.{trigger_alert}

-- A minute in microseconds.
abbrev pub minute : ℕ
minute = 60000000

-- `ttl_minutes or self.config.default_ttl`
abbrev pub ttl_or_default : ℕ → Option ℕ → ℕ
ttl_or_default d none = d
ttl_or_default d (some zero) = d
ttl_or_default d (some (suc n)) = suc n

abbrev pub pod_of : String → String
pod_of session_id = "pod-" ++ session_id

-- `create_isolated_network` of src/networking/router.py
abbrev pub create_isolated_network : String → String
create_isolated_network environment_id = "env-" ++ prefix 12 environment_id

abbrev pub set_session : {F : Type 0} → SessionManager F → Session → SessionManager F
set_session m session = record m { sessions = put session.id session m.sessions }

abbrev pub set_status : Session → SessionStatus → Session
set_status session status = record session { status = status }

module _ {F : Type 0} (fl : Float F) where
  open fl use {lit}

  abbrev pub pod_request : String → PodRequest F
  pod_request session_id = record {
    id = pod_of session_id;
    pod_spec = record {
      resource_requirements = record { cpu_cores = lit 1 0; memory_mb = 1024; storage_gb = 10 };
      gpu_required = false;
      gpu_config = none;
    };
    user_tier = "free";
    priority = 50;
    required_capabilities = [];
    status = SchedulingStatus.pending;
    assigned_node_id = none;
    scheduled_at = none;
    failure_reason = none;
  }

  abbrev pub new_session : ℕ → String → SessionType → Option String → ℕ → Session
  new_session now session_id type repo_url ttl = record {
    id = session_id;
    type = type;
    status = SessionStatus.creating;
    created_at = now;
    updated_at = now;
    expires_at = some (now + ttl * minute);
    repo_url = repo_url;
    network_id = none;
    pod_id = none;
    destroy_lock = false;
  }

  -- After `schedule` has answered: the message is the exception's.
  abbrev pub scheduled_session :
      String → ℕ → SessionManager F → Session → Answer F → SessionManager F × Option String
  scheduled_session alert_id now m session answer =
      let m1 : SessionManager F = record (set_session m session) { scheduler = answer.state } in
      if answer.outcome.success then (m1, none) else (
        record (set_session m1 (set_status session SessionStatus.failed)) {
          alert_manager =
              trigger_alert alert_id now m.alert_manager "critical"
                ("Scheduling failed for session " ++ session.id) answer.outcome.message;
        },
        some ("Failed to schedule: " ++ answer.outcome.message),
      )

  -- `create_session` up to the call of the orchestrator.
  unfoldable pub begin_session :
      ℕ
      → Clock F
      → String
      → SessionManager F
      → String
      → SessionType
      → Option String
      → Option ℕ
      → SessionManager F × Option String
  unfolding schedule trigger_alert
  begin_session now clock alert_id m session_id type repo_url ttl_minutes =
      scheduled_session alert_id now m
        (new_session now session_id type repo_url (ttl_or_default m.default_ttl ttl_minutes))
        (schedule fl clock m.scheduler (pod_request session_id) none)

  -- Does the session's type need a repository that the session does not have?
  abbrev pub lacks_repo : Session → Bool
  lacks_repo session = elim session.type [
    | preview ↦ is_none session.repo_url
    | run_repo ↦ is_none session.repo_url
    | fork_gui ↦ false
  ]

  -- A write to a session's object, which other readers see while it is in the table.
  unfoldable pub update_session : (Session → Session) → SessionManager F → String → SessionManager F
  update_session write m session_id = elim (get session_id m.sessions) [
    | none ↦ m
    | some session ↦ record m { sessions = put session_id (write session) m.sessions }
  ]

  abbrev pub start_running : String → Session → Session
  start_running pod_id session = record session {
    status = SessionStatus.running;
    network_id = some (create_isolated_network session.id);
    pod_id = some pod_id;
  }

  -- `create_session` from the orchestrator's answer, for the session that it made. True when the
  -- session is returned, false when the exception is raised on.
  unfoldable pub finish_session :
      SessionManager F → Session → Option String → SessionManager F × Bool
  unfolding unschedule update_session
  finish_session m session created =
      if lacks_repo session
      then (update_session (λ s. set_status s SessionStatus.error) m session.id, true)
      else elim created [
        | none ↦ (
          record (update_session (λ s. set_status s SessionStatus.failed) m session.id) {
            scheduler = (unschedule fl m.scheduler (pod_of session.id)).0;
          },
          false,
        )
        | some pod_id ↦ (update_session (start_running pod_id) m session.id, true)
      ]

  -- `destroy_session` up to the call of the orchestrator. True when it goes on.
  unfoldable pub begin_destroy : SessionManager F → String → SessionManager F × Bool
  begin_destroy m session_id = elim (get session_id m.sessions) [
    | none ↦ (m, false)
    | some session ↦ if session.destroy_lock then (m, false) else (
      record m {
        sessions =
            put session_id (record session { destroy_lock = true; status = SessionStatus.stopping })
              m.sessions;
        environments = del ("env-" ++ session_id) m.environments;
      },
      true,
    )
  ]

  -- `destroy_session` from there; what the orchestrator raises is passed over.
  unfoldable pub finish_destroy : ℕ → SessionManager F → String → SessionManager F
  unfolding unschedule update_session
  finish_destroy now m session_id =
      update_session
        (λ session. record session {
          status = SessionStatus.destroyed;
          updated_at = now;
          destroy_lock = false;
        })
        (record m { scheduler = (unschedule fl m.scheduler (pod_of session_id)).0 }) session_id

  unfoldable pub destroy_session : ℕ → SessionManager F → String → SessionManager F
  unfolding begin_destroy finish_destroy
  destroy_session now m session_id =
      let (m1, goes_on) = begin_destroy m session_id in
      if goes_on then finish_destroy now m1 session_id else m1

  -- `session.expires_at and session.expires_at < now`
  abbrev pub is_expired : ℕ → Session → Bool
  is_expired now session = elim session.expires_at [ none ↦ false | some t ↦ ltb t now ]

  unfoldable pub expired_ids : ℕ → Dict Session → List String
  expired_ids now [] = []
  expired_ids now ((sid, session) ∷ rest) =
      let ids = expired_ids now rest in if is_expired now session then sid ∷ ids else ids

  unfoldable pub remove_session : ℕ → SessionManager F → String → SessionManager F
  unfolding destroy_session
  remove_session now m session_id =
      let m1 = destroy_session now m session_id in
      record m1 { sessions = del session_id m1.sessions }

  unfoldable pub remove_sessions : ℕ → SessionManager F → List String → SessionManager F
  unfolding remove_session
  remove_sessions now m [] = m
  remove_sessions now m (sid ∷ sids) = remove_sessions now (remove_session now m sid) sids

  unfoldable pub cleanup_expired_sessions : ℕ → SessionManager F → SessionManager F × List String
  unfolding expired_ids remove_sessions
  cleanup_expired_sessions now m =
      let ids = expired_ids now m.sessions in (remove_sessions now m ids, ids)

  -- `deploy_ai_generated_environment` up to its wait, and from there: no pod is scheduled.
  unfoldable pub begin_deploy : ℕ → SessionManager F → String → SessionManager F
  begin_deploy now m session_id = set_session m (new_session now session_id run_repo none 60)

  unfoldable pub finish_deploy : SessionManager F → String → SessionManager F
  unfolding update_session
  finish_deploy m session_id = update_session (λ s. set_status s SessionStatus.running) m session_id
