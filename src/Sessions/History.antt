-- ===== src/Sessions/History.antt =====
-- Histories of the session manager of src/services/platform.py and its scheduler.
use disposable_compute_platf.Prelude.{
  ℕ, String, ◌≡◌, Option, none, List, [], ◌∷◌, arith, Bool-cases, inl, inr,
}
use disposable_compute_platf.Prelude.Dict.{get}
use disposable_compute_platf.Prelude.Float.{Float}
use disposable_compute_platf.Scheduler.Placement.{Scheduler, Clock, schedule}
use disposable_compute_platf.Scheduler.Placement.Evictions.{IsSoundState, unschedule-IsSound}
use disposable_compute_platf.Scheduler.Placement.Steps.{schedule-IsSound, Reach-IsSound}
use disposable_compute_platf.Scheduler.Placement.Steps
use disposable_compute_platf.Sessions.Types.{SessionType, Session, SessionManager}
use disposable_compute_platf.Sessions.Lifecycle.{
  pod_of, pod_request, begin_session, update_session, finish_session, begin_destroy, finish_destroy,
  destroy_session, remove_session, remove_sessions, expired_ids, cleanup_expired_sessions,
  begin_deploy, finish_deploy,
}

module _ {F : Type 0} (fl : Float F) where
  abbrev pub HasSoundCluster : SessionManager F → Type 0
  HasSoundCluster m = IsSoundState m.scheduler

  update-scheduler :
      (write : Session → Session) (m : SessionManager F) (i : String)
      → (update_session fl write m i).scheduler ≡ m.scheduler
  unfolding update_session
  update-scheduler write m i = ground arith

  begin-HasSoundCluster :
      (now : ℕ) (clock : Clock F) (alert : String) (m : SessionManager F) (i : String)
      (type : SessionType) (url : Option String) (ttl : Option ℕ)
      → HasSoundCluster m
      → get (pod_of i) m.scheduler.scheduled_pods ≡ none
      → HasSoundCluster (begin_session fl now clock alert m i type url ttl).0
  unfolding begin_session
  begin-HasSoundCluster now clock alert m i type url ttl h fresh =
      let a = schedule fl clock m.scheduler (pod_request fl i) none in
      let k : IsSoundState a.state =
        schedule-IsSound fl clock (pod_request fl i) m.scheduler none h fresh in
      elim (Bool-cases a.outcome.success) [ inl e ↦ rw e k | inr e ↦ rw e k ]

  finish-HasSoundCluster :
      (m : SessionManager F) (session : Session) (created : Option String)
      → HasSoundCluster m
      → HasSoundCluster (finish_session fl m session created).0
  unfolding finish_session
  finish-HasSoundCluster m session created h =
      ground (arith, h, unschedule-IsSound fl m.scheduler (pod_of session.id) h)

  finish_destroy-HasSoundCluster :
      (now : ℕ) (m : SessionManager F) (i : String)
      → HasSoundCluster m
      → HasSoundCluster (finish_destroy fl now m i)
  unfolding finish_destroy update_session
  finish_destroy-HasSoundCluster now m i h =
      ground (arith, h, unschedule-IsSound fl m.scheduler (pod_of i) h)

  begin_destroy-HasSoundCluster :
      (m : SessionManager F) (i : String)
      → HasSoundCluster m
      → HasSoundCluster (begin_destroy fl m i).0
  unfolding begin_destroy
  begin_destroy-HasSoundCluster m i h = ground arith

  remove_session-HasSoundCluster :
      (now : ℕ) (m : SessionManager F) (i : String)
      → HasSoundCluster m
      → HasSoundCluster (remove_session fl now m i)
  unfolding remove_session destroy_session
  remove_session-HasSoundCluster now m i h =
      let m1 = (begin_destroy fl m i).0 in
      let h1 : HasSoundCluster m1 = begin_destroy-HasSoundCluster m i h in
      elim (Bool-cases (begin_destroy fl m i).1) [
        | inl e ↦ rw e (finish_destroy-HasSoundCluster now m1 i h1)
        | inr e ↦ rw e h1
      ]

  remove_sessions-HasSoundCluster :
      (now : ℕ) (m : SessionManager F) (ids : List String)
      → HasSoundCluster m
      → HasSoundCluster (remove_sessions fl now m ids)
  unfolding remove_sessions
  remove_sessions-HasSoundCluster now m [] h = h
  remove_sessions-HasSoundCluster now m (i ∷ ids) h =
      remove_sessions-HasSoundCluster now (remove_session fl now m i) ids
        (remove_session-HasSoundCluster now m i h)

  finish_deploy-HasSoundCluster :
      (m : SessionManager F) (i : String)
      → HasSoundCluster m
      → HasSoundCluster (finish_deploy fl m i)
  unfolding finish_deploy update_session
  finish_deploy-HasSoundCluster m i h = ground arith

-- What happens to the session manager and its cluster, one step between two waits at a time: a new
-- session's pod is not scheduled yet.
pub data Step {F : Type 0} (fl : Float F) : SessionManager F → SessionManager F → Type 0 where
  cluster :
      (m : SessionManager F) (s : Scheduler F)
      → Steps.Step fl m.scheduler s
      → Step fl m (record m { scheduler = s })
  begin :
      (m : SessionManager F) (now : ℕ) (clock : Clock F) (alert i : String) (type : SessionType)
      (url : Option String) (ttl : Option ℕ)
      → get (pod_of i) m.scheduler.scheduled_pods ≡ none
      → Step fl m (begin_session fl now clock alert m i type url ttl).0
  finish :
      (m : SessionManager F) (session : Session) (created : Option String)
      → Step fl m (finish_session fl m session created).0
  destroy : (m : SessionManager F) (i : String) → Step fl m (begin_destroy fl m i).0
  destroyed : (m : SessionManager F) (now : ℕ) (i : String) → Step fl m (finish_destroy fl now m i)
  expire : (m : SessionManager F) (now : ℕ) → Step fl m (cleanup_expired_sessions fl now m).0
  deploy : (m : SessionManager F) (now : ℕ) (i : String) → Step fl m (begin_deploy fl now m i)
  deployed : (m : SessionManager F) (i : String) → Step fl m (finish_deploy fl m i)

pub data Reach {F : Type 0} (fl : Float F) (m : SessionManager F) : SessionManager F → Type 0 where
  here : Reach fl m m
  next : {k l : SessionManager F} → Reach fl m k → Step fl k l → Reach fl m l

module _ {F : Type 0} (fl : Float F) where
  Step-HasSoundCluster :
      {m k : SessionManager F} → Step fl m k → HasSoundCluster fl m → HasSoundCluster fl k
  Step-HasSoundCluster (cluster m s st) h = Reach-IsSound fl h (Steps.next Steps.here st)
  Step-HasSoundCluster (begin m now clock alert i type url ttl fresh) h =
      begin-HasSoundCluster fl now clock alert m i type url ttl h fresh
  Step-HasSoundCluster (finish m session created) h = finish-HasSoundCluster fl m session created h
  Step-HasSoundCluster (destroy m i) h = begin_destroy-HasSoundCluster fl m i h
  Step-HasSoundCluster (destroyed m now i) h = finish_destroy-HasSoundCluster fl now m i h
  Step-HasSoundCluster (expire m now) h =
      unfold cleanup_expired_sessions in
      remove_sessions-HasSoundCluster fl now m (expired_ids fl now m.sessions) h
  Step-HasSoundCluster (deploy m now i) h = unfold begin_deploy in h
  Step-HasSoundCluster (deployed m i) h = finish_deploy-HasSoundCluster fl m i h

  -- From a session manager whose scheduler satisfies `IsSound`, so does the scheduler of every
  -- session manager that a history reaches: any sequence of the scheduler's own steps, creations
  -- of sessions whose pod is not scheduled (to the wait for the orchestrator, and from its answer
  -- or exception), destructions (to the wait, and from it), clean-ups of expired sessions and AI
  -- deployments.
  pub Reach-HasSoundCluster :
      {m k : SessionManager F} → HasSoundCluster fl m → Reach fl m k → HasSoundCluster fl k
  Reach-HasSoundCluster h here = h
  Reach-HasSoundCluster h (next r st) = Step-HasSoundCluster st (Reach-HasSoundCluster h r)
