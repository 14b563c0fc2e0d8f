-- ===== src/Sessions/Types.antt =====
-- src/models/session.py, and the state of `SessionManager` of src/services/platform.py. Of a
-- session's metadata only the key "pod_id" is written. Times are microseconds. Fields that nothing
-- here reads or writes (the pull request, container and ports) are left out.
use disposable_compute_platf.Prelude.{ℕ, String, Bool, true, false, Option, none, some}
use disposable_compute_platf.Prelude.Dict.{Dict}
use disposable_compute_platf.Scheduler.Placement.{Scheduler}
use disposable_compute_platf.Sessions.Alerts.{AlertManager}

pub data SessionType : Type 0 where
  preview run_repo fork_gui : SessionType

pub data SessionStatus : Type 0 where
  creating running stopping stopped failed destroyed error : SessionStatus

pub record Session : Type 0 where
  pub id : String
  pub type : SessionType
  pub status : SessionStatus
  pub created_at : ℕ
  pub updated_at : ℕ
  pub expires_at : Option ℕ
  pub repo_url : Option String
  pub network_id : Option String
  pub pod_id : Option String
  pub destroy_lock : Bool

pub record SessionManager (F : Type 0) : Type 0 where
  pub default_ttl : ℕ
  pub sessions : Dict Session
  pub environments : Dict String
  pub scheduler : Scheduler F
  pub alert_manager : AlertManager

abbrev pub is_none : Option String → Bool
is_none none = true
is_none (some s) = false
