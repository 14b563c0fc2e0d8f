-- ===== src/Sessions/Destroying.antt =====
-- `destroy_session` of src/services/platform.py, and what can come between its steps and those of
-- `create_session`.
use disposable_compute_platf.Prelude.{
  ℕ, String, ◌≡◌, refl, true, false, none, some, arith, Option-cases, inl, inr, eq_iff,
}
use disposable_compute_platf.Prelude.Dict.{get, put, get-put, get-del}
use disposable_compute_platf.Prelude.Float.{Float}
use disposable_compute_platf.Scheduler.Types.{Node}
use disposable_compute_platf.Scheduler.Placement.{Scheduler, unschedule}
use disposable_compute_platf.Scheduler.Placement.Evictions.{IsSoundState, unschedule-IsSound}
use disposable_compute_platf.Scheduler.Placement.Soundness.{IsSound-absent}
use disposable_compute_platf.Scheduler.Placement.Unschedule.{
  unschedule_unknown, unschedule_gone, unschedule_lost, unschedule_held,
}
use disposable_compute_platf.Sessions.Types.{SessionStatus, Session, SessionManager}
use disposable_compute_platf.Sessions.Lifecycle.{
  pod_of, update_session, finish_session, begin_destroy, finish_destroy, destroy_session,
  lacks_repo, start_running, set_status,
}
use disposable_compute_platf.Sessions.History.{HasSoundCluster, Reach, Reach-HasSoundCluster}

-- No registered node holds an assignment of the pod.
abbrev pub OnNoNode : {F : Type 0} → Scheduler F → String → Type 0
OnNoNode {F} s p = (k : String) (n : Node F) → get k s.nodes ≡ some n → get p n.assigned_pods ≡ none

module _ {F : Type 0} (fl : Float F) where
  -- Unscheduling in a sound cluster takes the pod from every node.
  unschedule-frees :
      (s : Scheduler F) (p k : String) (n : Node F)
      → IsSoundState s
      → get k (unschedule fl s p).0.nodes ≡ some n
      → get p n.assigned_pods ≡ none
  unschedule-frees s p k n h e = elim (Option-cases (get p s.scheduled_pods)) [
    | inl a ↦ IsSound-absent k p n h a (rw (unschedule_unknown fl s p a) at e)
    | inr (j, a) ↦ elim (Option-cases (get j s.nodes)) [
      | inl gone ↦
          let e' : get k s.nodes ≡ some n = rw (unschedule_gone fl s p j a gone) at e in
          elim (Option-cases (get p n.assigned_pods)) [
            | inl free ↦ free
            | inr (b, held) ↦ absurd (cc (h.placed k p n b e' held, a, gone, e'))
          ]
      | inr (node, there) ↦ elim (Option-cases (get p node.assigned_pods)) [
        | inl lost ↦
            let e' : get k s.nodes ≡ some n =
              rw (unschedule_lost fl s p j a node there lost) at e in
            elim (Option-cases (get p n.assigned_pods)) [
              | inl free ↦ free
              | inr (b, held) ↦ absurd (cc (h.placed k p n b e' held, a, there, e', lost, held))
            ]
        | inr (b, held) ↦
            let after = unschedule_held fl s p j a node there b held in
            IsSound-absent k p n (unschedule-IsSound fl s p h)
              (rw after (ground (arith, eq_iff p p, get-del p p s.scheduled_pods))) e
      ]
    ]
  ]

  -- When the scheduler satisfies `IsSound`, destroying a session that is in the table and not
  -- being destroyed leaves an assignment of its pod on no registered node, and the session stays
  -- in the table with the status destroyed, the new time and no lock, unchanged otherwise.
  pub destroy_session-frees :
      (now : ℕ) (m : SessionManager F) (i : String) (session : Session)
      → IsSoundState m.scheduler
      → get i m.sessions ≡ some session
      → session.destroy_lock ≡ false
      → OnNoNode (destroy_session fl now m i).scheduler (pod_of i)
        × (get i (destroy_session fl now m i).sessions
            ≡ some (record session {
              destroy_lock = false;
              status = SessionStatus.destroyed;
              updated_at = now;
            }))
  unfolding destroy_session begin_destroy finish_destroy update_session
  destroy_session-frees now m i session h e unlocked =
      let stopping = record session { destroy_lock = true; status = SessionStatus.stopping } in
      let after = record session {
        destroy_lock = false;
        status = SessionStatus.destroyed;
        updated_at = now;
      } in
      let unscheduled : (destroy_session fl now m i).scheduler
          ≡ (unschedule fl m.scheduler (pod_of i)).0 =
        ground (arith, e, unlocked, eq_iff i i, get-put i i stopping m.sessions) in
      (
        λ k n f. unschedule-frees m.scheduler (pod_of i) k n h (rw unscheduled at f),
        ground (
          arith,
          e,
          unlocked,
          eq_iff i i,
          get-put i i stopping m.sessions,
          get-put i i after (put i stopping m.sessions),
        ),
      )

  -- In a state whose scheduler satisfies `IsSound`, when a session that is in the table, not being
  -- destroyed and not in want of a repository is destroyed while its creation waits for the
  -- orchestrator, and the orchestrator then returns a pod, the session in the table has the status
  -- running, and no registered node holds an assignment of its pod.
  pub finish_session-destroy_session :
      (now : ℕ) (m : SessionManager F) (session : Session) (pod_id : String)
      → IsSoundState m.scheduler
      → get session.id m.sessions ≡ some session
      → session.destroy_lock ≡ false
      → lacks_repo fl session ≡ false
      → let m' =
          (finish_session fl (destroy_session fl now m session.id) session (some pod_id)).0 in
        (s : Session) × (get session.id m'.sessions ≡ some s)
        × (s.status ≡ SessionStatus.running)
        × OnNoNode m'.scheduler (pod_of session.id)
  unfolding finish_session update_session
  finish_session-destroy_session now m session pod_id h e unlocked repo =
      let i = session.id in
      let m1 = destroy_session fl now m i in
      let gone = record session {
        destroy_lock = false;
        status = SessionStatus.destroyed;
        updated_at = now;
      } in
      let again = start_running fl pod_id gone in
      let same : (finish_session fl m1 session (some pod_id)).0.scheduler ≡ m1.scheduler =
        ground (arith, repo) in
      let (free, there) = destroy_session-frees now m i session h e unlocked in
      (
        again,
        ground (arith, repo, there, eq_iff i i, get-put i i again m1.sessions),
        refl,
        λ k n f. free k n (rw same at f),
      )

  -- After any history of a session manager from one whose scheduler satisfies `IsSound` (the
  -- scheduler's own steps, creations of sessions whose pod is not scheduled, destructions, clean-
  -- ups and AI deployments, each step between two waits), when the orchestrator raises during the
  -- creation of a session that is in the table and not in want of a repository, the exception goes
  -- on, the session in the table has the status failed and is unchanged otherwise, and no
  -- registered node holds an assignment of its pod.
  pub finish_session-frees :
      {m k : SessionManager F} (session s : Session)
      → HasSoundCluster fl m
      → Reach fl m k
      → lacks_repo fl session ≡ false
      → get session.id k.sessions ≡ some s
      → let (k', returned) = finish_session fl k session none in
        (returned ≡ false)
        × (get session.id k'.sessions ≡ some (set_status s SessionStatus.failed))
        × OnNoNode k'.scheduler (pod_of session.id)
  unfolding finish_session update_session
  finish_session-frees {k = k} session s sound reach repo there =
      let failed = set_status s SessionStatus.failed in
      let unscheduled : (finish_session fl k session none).0.scheduler
          ≡ (unschedule fl k.scheduler (pod_of session.id)).0 =
        ground (arith, repo) in
      (
        ground (arith, repo),
        ground (
          arith,
          repo,
          there,
          eq_iff session.id session.id,
          get-put session.id session.id failed k.sessions,
        ),
        λ j n f.
            unschedule-frees k.scheduler (pod_of session.id) j n
              (Reach-HasSoundCluster fl sound reach) (rw unscheduled at f),
      )
