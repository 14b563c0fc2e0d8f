-- ===== src/Scheduler/Placement/Choice.antt =====
-- Which node `schedule` of src/scheduler/scheduler.py chooses, and when it fails.
use disposable_compute_platf.Prelude.{
  String, ◌≡◌, ◌⊎◌, refl, true, false, Option, none, some, List, [], ◌∷◌, arith, inl, inr,
  Bool-cases, All, All-filter, All-imp, filter, filter-All,
}
use disposable_compute_platf.Prelude.Dict.{Dict, get, values}
use disposable_compute_platf.Prelude.Float.{Float}
use disposable_compute_platf.Scheduler.Types.{Node, PodRequest, is_active}
use disposable_compute_platf.Scheduler.Scorer.{score}
use disposable_compute_platf.Scheduler.Validator.{validate}
use disposable_compute_platf.Scheduler.Reservation.{reserve, short, take_resources}
use disposable_compute_platf.Scheduler.Reservation.RoundTrip.{reserve-validate}
use disposable_compute_platf.Scheduler.Placement.{
  Scheduler, Clock, Answer, fail, commit_best, sort_scored, reserve_best, schedule_valid, schedule,
  schedule_among, valid_among, available_nodes, valid_nodes, scored_nodes, is_valid,
}
use disposable_compute_platf.Scheduler.Placement.Soundness.{IsSound}
use disposable_compute_platf.Scheduler.Placement.Loops.{InCluster, nodes-InCluster}
use disposable_compute_platf.Scheduler.Placement.Ranking.{
  IsDescending, All-sort_scored, sort_scored-All, sort_scored-IsDescending, below, reserve_best_low,
  reserve_best_head,
}
use disposable_compute_platf.Prelude.{All-both}

module _ {F : Type 0} (fl : Float F) where
  open fl use {lit, less, less_asym, not_less_trans}

  -- The choice of `schedule` among scored nodes.
  module _ (clock : Clock F) (s : Scheduler F) (request : PodRequest F) (value : Node F → F) where
    -- The best of the nodes, good enough, gets the pod.
    pub record Chosen (nodes : List (Node F)) (answer : Answer F) (best : Node F) : Type 0 where
      pub member : get best.id s.nodes ≡ some best
      pub active : is_active best.status ≡ true
      pub valid : validate fl best request ≡ none
      pub enough : less (value best) (lit 1 1) ≡ false
      pub tops : All (λ n. less (value best) (value n) ≡ false) nodes
      pub commits :
          answer
          ≡ commit_best fl clock s request best (take_resources fl clock.reserved best request)

    -- Every node scores too low: the request fails, and the cluster stays as it is.
    pub record TooLow (nodes : List (Node F)) (answer : Answer F) : Type 0 where
      pub low : All (λ n. less (value n) (lit 1 1) ≡ true) nodes
      pub fails :
          answer
          ≡ fail s request "Failed to reserve resources on any node" "Failed to reserve resources"

    abbrev IsScored : Node F × F → Type 0
    IsScored e =
        (get e.0.id s.nodes ≡ some e.0)
        × (is_active e.0.status ≡ true)
        × (validate fl e.0 request ≡ none)
        × (e.1 ≡ value e.0)

    irreflexive : (v : F) → less v v ≡ false
    irreflexive v = elim (Bool-cases (less v v)) [ inl e ↦ cc (less_asym v v e) | inr e ↦ e ]

    ranked :
        (nodes : List (Node F)) (x : Node F × F) (xs : List (Node F × F))
        → IsScored x
        → All (λ n. less x.1 (value n) ≡ false) nodes
        → ((best : Node F) × Chosen nodes (reserve_best fl clock s request (x ∷ xs)) best)
          ⊎ (less x.1 (lit 1 1) ≡ true)
    ranked nodes x xs h t = elim (Bool-cases (less x.1 (lit 1 1))) [
      | inl low ↦ inr low
      | inr high ↦
          let r = reserve-validate fl clock.reserved x.0 request h.2 in
          let fits : short fl x.0 request ≡ false = unfold reserve in ground arith in
          inl (
            x.0,
            record {
              member = h.0;
              active = h.1;
              valid = h.2;
              enough = rw (← h.3) high;
              tops = rw (← h.3) t;
              commits = reserve_best_head fl clock s request x xs high fits;
            },
          )
    ]

  module _ (clock : Clock F) (s : Scheduler F) (request : PodRequest F)
      (location : Option (F × F)) where
    abbrev pub value_of : Node F → F
    value_of n = score fl s.weights clock.scored n request location

    scored-All :
        (Q : F → Type 0) (ns : List (Node F))
        → All (λ e. Q e.1) (scored_nodes fl clock s request location ns)
        → All (λ n. Q (value_of n)) ns
    scored-All Q [] h = tt
    scored-All Q (n ∷ ns) h = (h.0, scored-All Q ns h.1)

    scored_nodes-IsScored :
        (ns : List (Node F))
        → All
            (λ n.
              (get n.id s.nodes ≡ some n)
              × ((is_active n.status ≡ true) × (validate fl n request ≡ none)))
            ns
        → All (IsScored clock s request value_of) (scored_nodes fl clock s request location ns)
    scored_nodes-IsScored [] h = tt
    scored_nodes-IsScored (n ∷ ns) h =
        ((h.0.0, h.0.1.0, h.0.1.1, refl), scored_nodes-IsScored ns h.1)

    reserve_best-choice :
        (ns : List (Node F)) (ranking : List (Node F × F))
        → sort_scored fl (scored_nodes fl clock s request location ns) ≡ ranking
        → All (IsScored clock s request value_of) ranking
        → IsDescending fl ranking
        → ((best : Node F) × Chosen clock s request value_of ns
              (reserve_best fl clock s request ranking)
              best)
          ⊎ TooLow clock s request value_of ns (reserve_best fl clock s request ranking)
    reserve_best-choice ns [] e h d = inr (record {
      low =
          scored-All (λ v. less v (lit 1 1) ≡ true) ns
            (All-sort_scored fl (λ e. less e.1 (lit 1 1) ≡ true) _ (rw e tt));
      fails = reserve_best_low fl clock s request [] tt;
    })
    reserve_best-choice ns (x ∷ xs) e h d =
        let irr = irreflexive clock s request value_of x.1 in
        let t : All (λ z. less x.1 z.1 ≡ false) (scored_nodes fl clock s request location ns) =
          All-sort_scored fl (λ z. less x.1 z.1 ≡ false) _ (rw e (irr, d.0)) in
        elim (ranked clock s request value_of ns x xs h.0
          (scored-All (λ v. less x.1 v ≡ false) ns t)) [
            | inl best ↦ inl best
            | inr low ↦ inr (record {
              low =
                  All-imp ns (λ n k. below fl x.1 (value_of n) k low)
                    (scored-All (λ v. less x.1 v ≡ false) ns t);
              fails =
                  reserve_best_low fl clock s request (x ∷ xs)
                    (low, All-imp xs (λ z k. below fl x.1 z.1 k low) d.0);
            })
          ]

    is_valid→eq :
        (n : Node F) → is_valid (validate fl n request) ≡ true → validate fl n request ≡ none
    is_valid→eq n h = ground arith

    valid_nodes-All :
        {pods : Dict String}
        → IsSound s.nodes pods
        → All
            (λ n.
              (get n.id s.nodes ≡ some n)
              × ((is_active n.status ≡ true) × (validate fl n request ≡ none)))
            (valid_nodes fl s request)
    valid_nodes-All i =
        let ok = λ (n : Node F). is_valid (validate fl n request) in
        let ns = available_nodes fl s in
        let member =
          All-filter (InCluster s.nodes) (λ n. is_active n.status) (values s.nodes)
            (nodes-InCluster s.nodes i) in
        let active = filter-All (λ (n : Node F). is_active n.status) (values s.nodes) in
        All-both (InCluster s.nodes)
          (λ n. (is_active n.status ≡ true) × (validate fl n request ≡ none)) (filter ok ns)
          (All-filter (InCluster s.nodes) ok ns member)
          (All-both (λ n. is_active n.status ≡ true) (λ n. validate fl n request ≡ none)
            (filter ok ns) (All-filter (λ n. is_active n.status ≡ true) ok ns active)
            (All-imp (filter ok ns) is_valid→eq (filter-All ok ns)))

    schedule_among_ranks :
        (nodes : List (Node F)) (n : Node F) (ns : List (Node F))
        → valid_among fl request nodes ≡ n ∷ ns
        → schedule_among fl clock s request location nodes
          ≡ reserve_best fl clock s request
              (sort_scored fl (scored_nodes fl clock s request location (n ∷ ns)))
    unfolding schedule_among schedule_valid filter
    schedule_among_ranks [] n ns e = cc
    schedule_among_ranks (m ∷ ms) n ns e = rw (e, schedule_valid)

    -- In a sound state, when some active node passes validation, `schedule` either places the pod
    -- on a registered, active node that passes validation, scores at least 0.1 and is not beaten
    -- by the score of any other valid node, and commits exactly the reservation on that node; or
    -- every valid node scores below 0.1, the request fails and only the failure counter changes.
    pub schedule-choice :
        (n : Node F) (ns : List (Node F))
        → IsSound s.nodes s.scheduled_pods
        → valid_nodes fl s request ≡ n ∷ ns
        → ((best : Node F) × Chosen clock s request value_of
              (n ∷ ns)
              (schedule fl clock s request location)
              best)
          ⊎ TooLow clock s request value_of (n ∷ ns) (schedule fl clock s request location)
    unfolding schedule
    schedule-choice n ns i e =
        let scored = scored_nodes fl clock s request location (n ∷ ns) in
        let all = rw e at (valid_nodes-All i) in
        rw (schedule_among_ranks (available_nodes fl s) n ns e) (
          reserve_best-choice (n ∷ ns) (sort_scored fl scored) refl
            (sort_scored-All fl (IsScored clock s request value_of) scored
              (scored_nodes-IsScored (n ∷ ns) all))
            (sort_scored-IsDescending fl scored))
