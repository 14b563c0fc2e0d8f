-- ===== src/Scheduler/Placement/Steps.antt =====
-- Histories of the class `Scheduler` of src/scheduler/scheduler.py.
use disposable_compute_platf.Prelude.{
  leb, String, ◌≡◌, Bool, true, Option, none, some, List, [], ◌∷◌, arith, inl, inr, Bool-cases, All,
  All-filter, All-imp,
}
use disposable_compute_platf.Prelude.Dict.{get, values, is_some}
use disposable_compute_platf.Prelude.Float.{Float}
use disposable_compute_platf.Scheduler.Types.{Node, PodRequest, Assignment, is_active}
use disposable_compute_platf.Scheduler.Reservation.Accounting.{IsBalanced}
use disposable_compute_platf.Scheduler.Placement.{
  Scheduler, Clock, unschedule, register_node, unregister_node, preempt_with, schedule_valid,
  schedule, fail, give_up, available_nodes, schedule_among, valid_among, is_valid, scored_nodes,
  sort_scored,
}
use disposable_compute_platf.Scheduler.Validator.{validate}
use disposable_compute_platf.Scheduler.Placement.Soundness.{remove_node-IsSound, add_node-IsSound}
use disposable_compute_platf.Scheduler.Placement.Evictions.{IsSoundState, unschedule-IsSound}
use disposable_compute_platf.Scheduler.Placement.Loops.{
  InCluster, nodes-InCluster, sort_scored-All, scored_nodes-All, reserve_best-IsSound,
  preempt_loop-IsSound,
}

module _ {F : Type 0} (fl : Float F) (clock : Clock F) (request : PodRequest F) where
  registered :
      (s : Scheduler F) (n : Node F) → InCluster s.nodes n → is_some (get n.id s.nodes) ≡ true
  registered s n h = ground arith

  preempt_with-IsSound :
      (o : Option (String → Bool)) (s : Scheduler F)
      → IsSoundState s
      → get request.id s.scheduled_pods ≡ none
      → IsSoundState (preempt_with fl o clock s request (available_nodes fl s)).state
  unfolding preempt_with give_up
  preempt_with-IsSound none s h fresh = h
  preempt_with-IsSound (some destroy) s h fresh =
      let members =
        All-filter (InCluster s.nodes) (λ n. is_active n.status) (values s.nodes)
          (nodes-InCluster s.nodes h) in
      preempt_loop-IsSound fl clock request destroy s (available_nodes fl s)
        (h, fresh, All-imp (available_nodes fl s) (registered s) members)

  schedule_valid-IsSound :
      (s : Scheduler F) (location : Option (F × F)) (ns : List (Node F))
      → IsSoundState s
      → get request.id s.scheduled_pods ≡ none
      → All (InCluster s.nodes) ns
      → IsSoundState (schedule_valid fl clock s request location ns).state
  unfolding schedule_valid fail
  schedule_valid-IsSound s location [] h fresh c = elim (Bool-cases (leb 70 request.priority)) [
    | inl e ↦ rw e (preempt_with-IsSound s.orchestrator s h fresh)
    | inr e ↦ rw e h
  ]
  schedule_valid-IsSound s location (n ∷ ns) h fresh c =
      reserve_best-IsSound fl clock request s
        (sort_scored fl (scored_nodes fl clock s request location (n ∷ ns))) h fresh
        (sort_scored-All fl (InCluster s.nodes) (scored_nodes fl clock s request location (n ∷ ns))
          (scored_nodes-All fl (InCluster s.nodes) clock s request location (n ∷ ns) c))

  schedule_among-IsSound :
      (s : Scheduler F) (location : Option (F × F)) (ns : List (Node F))
      → IsSoundState s
      → get request.id s.scheduled_pods ≡ none
      → All (InCluster s.nodes) ns
      → IsSoundState (schedule_among fl clock s request location ns).state
  unfolding schedule_among fail
  schedule_among-IsSound s location [] h fresh c = h
  schedule_among-IsSound s location (n ∷ ns) h fresh c =
      schedule_valid-IsSound s location (valid_among fl request (n ∷ ns)) h fresh
        (All-filter (InCluster s.nodes) (λ n. is_valid (validate fl n request)) (n ∷ ns) c)

  -- Scheduling a pod that is not scheduled keeps the invariant `IsSound` on every branch: no node,
  -- no valid node, preemption with any answers of the orchestrator, success and failure of the
  -- reservation.
  pub schedule-IsSound :
      (s : Scheduler F) (location : Option (F × F))
      → IsSoundState s
      → get request.id s.scheduled_pods ≡ none
      → IsSoundState (schedule fl clock s request location).state
  unfolding schedule
  schedule-IsSound s location h fresh =
      schedule_among-IsSound s location (available_nodes fl s) h fresh (
        All-filter (InCluster s.nodes) (λ n. is_active n.status) (values s.nodes)
          (nodes-InCluster s.nodes h))

-- What happens to a cluster: nodes join with their books empty, nodes leave, pods that are not
-- scheduled are scheduled, and pods are unscheduled.
pub data Step {F : Type 0} (fl : Float F) : Scheduler F → Scheduler F → Type 0 where
  join :
      (s : Scheduler F) (n : Node F)
      → n.assigned_pods ≡ []
      → IsBalanced n
      → Step fl s (register_node s n)
  leave : (s : Scheduler F) (k : String) → Step fl s (unregister_node s k)
  place :
      (s : Scheduler F) (clock : Clock F) (request : PodRequest F) (location : Option (F × F))
      → get request.id s.scheduled_pods ≡ none
      → Step fl s (schedule fl clock s request location).state
  remove : (s : Scheduler F) (p : String) → Step fl s (unschedule fl s p).0

pub data Reach {F : Type 0} (fl : Float F) (s : Scheduler F) : Scheduler F → Type 0 where
  here : Reach fl s s
  next : {t u : Scheduler F} → Reach fl s t → Step fl t u → Reach fl s u

module _ {F : Type 0} (fl : Float F) where
  Step-IsSound : {s t : Scheduler F} → Step fl s t → IsSoundState s → IsSoundState t
  Step-IsSound (join s n empty b) h =
      unfold register_node in add_node-IsSound fl s.nodes s.scheduled_pods n empty b h
  Step-IsSound (leave s k) h = elim (Bool-cases (is_some (get k s.nodes))) [
    | inl e ↦ unfold unregister_node in rw e (remove_node-IsSound fl s.nodes s.scheduled_pods k h)
    | inr e ↦ unfold unregister_node in rw e h
  ]
  Step-IsSound (place s clock request location fresh) h =
      schedule-IsSound fl clock request s location h fresh
  Step-IsSound (remove s p) h = unschedule-IsSound fl s p h

  -- From a state of the scheduler that satisfies `IsSound`, every state that a history reaches
  -- satisfies it. A history is any sequence of: a node whose books are empty and balanced joins
  -- (or replaces one of its name), a node leaves, a pod that is not scheduled is scheduled (with
  -- preemption and its evictions), a pod is unscheduled. In a sound state node names are distinct
  -- and each node stands under its name; on each node the free and the assigned memory, storage
  -- and VRAM add up to the totals, and each pod holds the GPUs it asked for; and each pod that a
  -- node holds is mapped to that node.
  pub Reach-IsSound : {s t : Scheduler F} → IsSoundState s → Reach fl s t → IsSoundState t
  Reach-IsSound h here = h
  Reach-IsSound h (next r st) = Step-IsSound st (Reach-IsSound h r)

  pub empty-IsSound : (s : Scheduler F) → s.nodes ≡ [] → IsSoundState s
  empty-IsSound s e = rw e (
      unfold get in
      record {
        distinct = tt;
        keyed = λ k n h. cc;
        balanced = λ k n h. absurd (ground arith);
        placed = λ k p n a h i. cc;
      })

  -- In every state that a history reaches from a scheduler without nodes, two registered nodes
  -- that both hold an assignment of the same pod stand under the same name.
  pub one_node :
      {s t : Scheduler F} (j k p : String) (m n : Node F) (a b : Assignment F)
      → s.nodes ≡ []
      → Reach fl s t
      → get j t.nodes ≡ some m
      → get k t.nodes ≡ some n
      → get p m.assigned_pods ≡ some a
      → get p n.assigned_pods ≡ some b
      → j ≡ k
  one_node {s} j k p m n a b empty r hm hn ha hb =
      let t = Reach-IsSound (empty-IsSound s empty) r in
      cc (t.placed j p m a hm ha, t.placed k p n b hn hb)
