-- ===== src/Scheduler/Placement/Loops.antt =====
-- The loops of `schedule` and `_try_preemption` in src/scheduler/scheduler.py, and the invariant
-- of the cluster.
use disposable_compute_platf.Prelude.{
  String, ◌≡◌, sym, Bool, true, Option, none, some, List, [], ◌∷◌, arith, inl, inr, Option-cases,
  Bool-cases, All, All-imp,
}
use mathlib.Core.Path.{subst}
use disposable_compute_platf.Prelude.Dict.{Dict, get, values, is_some, All-get}
use disposable_compute_platf.Prelude.Float.{Float}
use disposable_compute_platf.Scheduler.Types.{Node, PodRequest, is_active}
use disposable_compute_platf.Scheduler.Reservation.{short}
use disposable_compute_platf.Scheduler.Placement.{
  Scheduler, Clock, Answer, evict, reserve_best, preempt_loop, Round, finished, onward,
  after_eviction, preempt_candidates, preempt_round, give_up, scored_nodes, current, insert_scored,
  sort_scored,
}
use disposable_compute_platf.Scheduler.Preemption.{find_preemption_candidates}
use disposable_compute_platf.Scheduler.Placement.Soundness.{IsSound, place-IsSound}
use disposable_compute_platf.Scheduler.Placement.Evictions.{
  IsSoundState, evict-IsSound, evict-absent, evict-registered,
}

-- The nodes that the loops of `schedule` go over are those of the cluster.
module _ {F : Type 0} (nodes : Dict (Node F)) where
  abbrev pub InCluster : Node F → Type 0
  InCluster n = get n.id nodes ≡ some n

  values-InCluster :
      (d : Dict (Node F))
      → ((k : String) (n : Node F) → get k nodes ≡ some n → n.id ≡ k)
      → All (λ e. get e.0 nodes ≡ some e.1) d
      → All InCluster (values d)
  values-InCluster [] keyed h = tt
  values-InCluster ((k, n) ∷ d) keyed h =
      (subst (λ i. get i nodes ≡ some n) (sym (keyed k n h.0)) h.0, values-InCluster d keyed h.1)

  pub nodes-InCluster : {pods : Dict String} → IsSound nodes pods → All InCluster (values nodes)
  nodes-InCluster s = values-InCluster nodes s.keyed (All-get nodes s.distinct)

module _ {F : Type 0} (fl : Float F) (P : Node F → Type 0) where
  insert_scored-All :
      (x : Node F × F) (xs : List (Node F × F))
      → P x.0
      → All (λ e. P e.0) xs
      → All (λ e. P e.0) (insert_scored fl x xs)
  unfolding insert_scored
  insert_scored-All x [] p h = (p, tt)
  insert_scored-All x (y ∷ ys) p h = elim (Bool-cases (fl.less x.1 y.1)) [
    | inl e ↦ rw e (h.0, insert_scored-All x ys p h.1)
    | inr e ↦ rw e (p, h)
  ]

  pub sort_scored-All :
      (xs : List (Node F × F)) → All (λ e. P e.0) xs → All (λ e. P e.0) (sort_scored fl xs)
  unfolding sort_scored
  sort_scored-All [] h = tt
  sort_scored-All (x ∷ xs) h = insert_scored-All x (sort_scored fl xs) h.0 (sort_scored-All xs h.1)

  pub scored_nodes-All :
      (clock : Clock F) (s : Scheduler F) (request : PodRequest F) (location : Option (F × F))
      (ns : List (Node F))
      → All P ns
      → All (λ e. P e.0) (scored_nodes fl clock s request location ns)
  scored_nodes-All clock s request location [] h = tt
  scored_nodes-All clock s request location (n ∷ ns) h =
      (h.0, scored_nodes-All clock s request location ns h.1)

module _ {F : Type 0} (fl : Float F) (clock : Clock F) (request : PodRequest F) where
  pub reserve_best-IsSound :
      (s : Scheduler F) (xs : List (Node F × F))
      → IsSoundState s
      → get request.id s.scheduled_pods ≡ none
      → All (λ e. InCluster s.nodes e.0) xs
      → IsSoundState (reserve_best fl clock s request xs).state
  unfolding reserve_best
  reserve_best-IsSound s [] h fresh c = h
  reserve_best-IsSound s ((n, v) ∷ xs) h fresh c =
      let rest = reserve_best-IsSound s xs h fresh c.1 in
      elim (Bool-cases (fl.less v (fl.lit 1 1))) [
        | inl e ↦ rw e rest
        | inr e ↦ elim (Bool-cases (short fl n request)) [
          | inl missing ↦ rw (e, missing) rest
          | inr fits ↦
              rw (e, fits)
                (place-IsSound fl s.nodes s.scheduled_pods clock.reserved n request c.0 fresh fits
                  h)
        ]
      ]

  abbrev pub Kept : List (Node F) → Round F → Type 0
  Kept ns (finished a) = IsSoundState a.state
  Kept ns (onward s) =
      IsSoundState s
      × (get request.id s.scheduled_pods ≡ none)
      × All (λ n. is_some (get n.id s.nodes) ≡ true) ns

  module _ (ns : List (Node F)) where
    after_eviction-Kept :
        (s : Scheduler F) (n : Node F)
        → get n.id s.nodes ≡ some n
        → Kept ns (onward s)
        → Kept ns (after_eviction fl clock s request n)
    unfolding after_eviction
    after_eviction-Kept s n c k = elim (Bool-cases (short fl n request)) [
      | inl missing ↦ rw missing k
      | inr fits ↦
          rw fits
            (place-IsSound fl s.nodes s.scheduled_pods clock.reserved n request c k.1 fits k.0)
    ]

    evict-Kept :
        (destroy : String → Bool) (s : Scheduler F) (pods : List String)
        → Kept ns (onward s)
        → Kept ns (onward (evict fl destroy s pods))
    evict-Kept destroy s pods k = (
      evict-IsSound fl destroy s pods k.0,
      evict-absent fl destroy s pods request.id k.1,
      All-imp ns (λ n. evict-registered fl destroy s pods n.id) k.2,
    )

  current-InCluster :
      (s : Scheduler F) (n : Node F)
      → IsSoundState s
      → is_some (get n.id s.nodes) ≡ true
      → get (current s n).id s.nodes ≡ some (current s n)
  current-InCluster s n h c = elim (Option-cases (get n.id s.nodes)) [
    | inl e ↦ ground (arith, e)
    | inr (m, e) ↦ rw (e, current) (subst (λ i. get i s.nodes ≡ some m) (sym (h.keyed n.id m e)) e)
  ]

  module _ (destroy : String → Bool) (s : Scheduler F) (n : Node F) (ns : List (Node F)) where
    preempt_candidates-Kept :
        (pods : List String)
        → Kept (n ∷ ns) (onward s)
        → Kept ns (preempt_candidates fl destroy clock s request n pods)
    unfolding preempt_candidates
    preempt_candidates-Kept [] (h, fresh, c) = (h, fresh, c.1)
    preempt_candidates-Kept (p ∷ ps) k =
        let (h, fresh, c) = evict-Kept (n ∷ ns) destroy s (p ∷ ps) k in
        let s' = evict fl destroy s (p ∷ ps) in
        after_eviction-Kept ns s' (current s' n) (current-InCluster s' n h c.0) (h, fresh, c.1)

    preempt_round-Kept :
        Kept (n ∷ ns) (onward s) → Kept ns (preempt_round fl destroy clock s request n)
    unfolding preempt_round
    preempt_round-Kept k = elim (Bool-cases (is_active (current s n).status)) [
      | inl e ↦
          rw e (preempt_candidates-Kept (find_preemption_candidates fl (current s n) request) k)
      | inr e ↦ rw e (k.0, k.1, k.2.1)
    ]

  pub preempt_loop-IsSound :
      (destroy : String → Bool) (s : Scheduler F) (ns : List (Node F))
      → Kept ns (onward s)
      → IsSoundState (preempt_loop fl destroy clock s request ns).state
  unfolding preempt_loop give_up
  preempt_loop-IsSound destroy s [] k = k.0
  preempt_loop-IsSound destroy s (n ∷ ns) k =
      go (preempt_round fl destroy clock s request n) (preempt_round-Kept destroy s n ns k)
        (λ t. preempt_loop-IsSound destroy t ns)
    where
      go :
          (r : Round F)
          → Kept ns r
          → ((t : Scheduler F)
              → Kept ns (onward t)
              → IsSoundState (preempt_loop fl destroy clock t request ns).state)
          → IsSoundState
              (elim r as (λ _. Answer F) [
                | finished a ↦ a
                | onward t ↦ preempt_loop fl destroy clock t request ns
              ]).state
      go (finished a) kept ih = kept
      go (onward t) kept ih = ih t kept
