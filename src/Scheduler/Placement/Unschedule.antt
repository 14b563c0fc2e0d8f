-- ===== src/Scheduler/Placement/Unschedule.antt =====
-- The branches of `unschedule` of src/scheduler/scheduler.py.
use disposable_compute_platf.Prelude.{String, ◌≡◌, true, false, none, some, arith}
use disposable_compute_platf.Prelude.Dict.{get, put, del}
use disposable_compute_platf.Prelude.Float.{Float}
use disposable_compute_platf.Scheduler.Types.{Node, Assignment}
use disposable_compute_platf.Scheduler.Reservation.{give_back}
use disposable_compute_platf.Scheduler.Placement.{Scheduler, unschedule}

module _ {F : Type 0} (fl : Float F) (s : Scheduler F) (p : String) where
  pub unschedule_unknown : get p s.scheduled_pods ≡ none → unschedule fl s p ≡ (s, false)
  unfolding unschedule
  unschedule_unknown h = ground arith

  module _ (k : String) (mapped : get p s.scheduled_pods ≡ some k) where
    -- The node has left the cluster: the pod is forgotten.
    pub unschedule_gone :
        get k s.nodes ≡ none
        → unschedule fl s p ≡ (record s { scheduled_pods = del p s.scheduled_pods }, false)
    unfolding unschedule
    unschedule_gone h = ground arith

    module _ (n : Node F) (there : get k s.nodes ≡ some n) where
      -- The node does not hold the pod: nothing changes, and the pod stays scheduled.
      pub unschedule_lost : get p n.assigned_pods ≡ none → unschedule fl s p ≡ (s, false)
      unfolding unschedule
      unschedule_lost h = ground arith

      pub unschedule_held :
          (a : Assignment F)
          → get p n.assigned_pods ≡ some a
          → unschedule fl s p ≡ (
            record s {
              nodes = put k (give_back fl n p a.pod_spec) s.nodes;
              scheduled_pods = del p s.scheduled_pods;
            },
            true,
          )
      unfolding unschedule
      unschedule_held a h = ground arith
