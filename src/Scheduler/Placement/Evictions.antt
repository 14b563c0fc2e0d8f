-- ===== src/Scheduler/Placement/Evictions.antt =====
-- Unscheduling and evicting pods in src/scheduler/scheduler.py, and the invariant of the cluster.
use disposable_compute_platf.Prelude.{
  String, ◌≡◌, Bool, true, false, none, List, [], ◌∷◌, arith, inl, inr, Option-cases, if◌then◌else◌,
}
use disposable_compute_platf.Prelude.Dict.{get, is_some, get-put, get-del}
use disposable_compute_platf.Prelude.Float.{Float}
use disposable_compute_platf.Scheduler.Reservation.{release, give_back}
use disposable_compute_platf.Scheduler.Placement.{Scheduler, unschedule, evict}
use disposable_compute_platf.Scheduler.Placement.Unschedule.{
  unschedule_unknown, unschedule_gone, unschedule_lost, unschedule_held,
}
use disposable_compute_platf.Scheduler.Placement.Soundness.{IsSound, remove-IsSound, forget-IsSound}

module _ {F : Type 0} where
  abbrev pub IsSoundState : Scheduler F → Type 0
  IsSoundState s = IsSound s.nodes s.scheduled_pods

module _ {F : Type 0} (fl : Float F) where
  pub unschedule-IsSound :
      (s : Scheduler F) (p : String) → IsSoundState s → IsSoundState (unschedule fl s p).0
  unschedule-IsSound s p h = elim (Option-cases (get p s.scheduled_pods)) [
    | inl e ↦ rw (unschedule_unknown fl s p e) h
    | inr (k, e) ↦ elim (Option-cases (get k s.nodes)) [
      | inl gone ↦
          rw (unschedule_gone fl s p k e gone)
            (forget-IsSound fl s.nodes s.scheduled_pods k p e gone h)
      | inr (n, there) ↦ elim (Option-cases (get p n.assigned_pods)) [
        | inl out ↦ rw (unschedule_lost fl s p k e n there out) h
        | inr (a, found) ↦
            rw (unschedule_held fl s p k e n there a found)
              (remove-IsSound fl s.nodes s.scheduled_pods k p n a there e found h)
      ]
    ]
  ]

  -- Unscheduling forgets no other pod and schedules none.
  pub unschedule-absent :
      (s : Scheduler F) (p q : String)
      → get q s.scheduled_pods ≡ none
      → get q (unschedule fl s p).0.scheduled_pods ≡ none
  unfolding unschedule release
  unschedule-absent s p q h = ground (arith, get-del p q s.scheduled_pods)

  round-IsSound :
      (b : Bool) (s : Scheduler F) (p : String)
      → IsSoundState s
      → IsSoundState (if b then (unschedule fl s p).0 else s)
  round-IsSound true s p h = unschedule-IsSound s p h
  round-IsSound false s p h = h

  -- Evictions keep the invariant, whichever of them the orchestrator refuses.
  pub evict-IsSound :
      (destroy : String → Bool) (s : Scheduler F) (pods : List String)
      → IsSoundState s
      → IsSoundState (evict fl destroy s pods)
  unfolding evict
  evict-IsSound destroy s [] h = h
  evict-IsSound destroy s (p ∷ ps) h =
      evict-IsSound destroy (if destroy p then (unschedule fl s p).0 else s) ps
        (round-IsSound (destroy p) s p h)

  pub evict-absent :
      (destroy : String → Bool) (s : Scheduler F) (pods : List String) (q : String)
      → get q s.scheduled_pods ≡ none
      → get q (evict fl destroy s pods).scheduled_pods ≡ none
  unfolding evict
  evict-absent destroy s [] q h = h
  evict-absent destroy s (p ∷ ps) q h = ground (
    arith,
    unschedule-absent s p q h,
    evict-absent destroy (unschedule fl s p).0 ps q,
    evict-absent destroy s ps q h,
  )

  pub unschedule-registered :
      (s : Scheduler F) (p k : String)
      → is_some (get k s.nodes) ≡ true
      → is_some (get k (unschedule fl s p).0.nodes) ≡ true
  unschedule-registered s p k h = elim (Option-cases (get p s.scheduled_pods)) [
    | inl e ↦ rw (unschedule_unknown fl s p e) h
    | inr (j, e) ↦ elim (Option-cases (get j s.nodes)) [
      | inl gone ↦ rw (unschedule_gone fl s p j e gone) h
      | inr (n, there) ↦ elim (Option-cases (get p n.assigned_pods)) [
        | inl out ↦ rw (unschedule_lost fl s p j e n there out) h
        | inr (a, found) ↦
            rw (unschedule_held fl s p j e n there a found)
              (ground (arith, get-put j k (give_back fl n p a.pod_spec) s.nodes))
      ]
    ]
  ]

  pub evict-registered :
      (destroy : String → Bool) (s : Scheduler F) (pods : List String) (k : String)
      → is_some (get k s.nodes) ≡ true
      → is_some (get k (evict fl destroy s pods).nodes) ≡ true
  unfolding evict
  evict-registered destroy s [] k h = h
  evict-registered destroy s (p ∷ ps) k h = ground (
    arith,
    unschedule-registered s p k h,
    evict-registered destroy (unschedule fl s p).0 ps k,
    evict-registered destroy s ps k h,
  )
