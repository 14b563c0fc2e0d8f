-- ===== src/Scheduler/Placement.antt =====
-- The class `Scheduler`: the cluster's state, scheduling, preemption and unscheduling. A method
-- returns the new state beside its result; the request that it writes to comes back too. Between
-- two `await`s no other task runs, and the orchestrator (a parameter) does not touch the scheduler.
pub mod Unschedule
pub mod Soundness
pub mod Evictions
pub mod Loops
pub mod Steps
pub mod Ranking
pub mod Choice
use disposable_compute_platf.Prelude.{
  ℕ, suc, ◌+◌, String, Bool, true, false, Option, none, some, List, [], ◌∷◌, map, leb, ◌==◌, filter,
  if◌then◌else◌,
}
use disposable_compute_platf.Prelude.Dict.{Dict, get, put, del, values, is_some}
use disposable_compute_platf.Prelude.Float.{Float}
use disposable_compute_platf.Scheduler.Types.{SchedulingStatus, Node, PodRequest, is_active}
use disposable_compute_platf.Scheduler.Validator.{Refusal, validate}
use disposable_compute_platf.Scheduler.Scorer.{ScoringWeights, score}
use disposable_compute_platf.Scheduler.Reservation.{reserve, release}
use disposable_compute_platf.Scheduler.Preemption.{find_preemption_candidates}

pub record Metrics (F : Type 0) : Type 0 where
  pub total_scheduled : ℕ
  pub total_failed : ℕ
  pub total_preemptions : ℕ
  pub avg_scheduling_time_ms : F

-- `destroy_pod` of the orchestrator returns (`true`) or raises (`false`).
pub record Scheduler (F : Type 0) : Type 0 where
  pub nodes : Dict (Node F)
  pub scheduled_pods : Dict String
  pub orchestrator : Option (String → Bool)
  pub weights : ScoringWeights F
  pub metrics : Metrics F

-- The readings of the clock in one call, in the order of the source.
pub record Clock (F : Type 0) : Type 0 where
  pub start : F
  pub scored : F
  pub reserved : F
  pub scheduled : F
  pub finished : F

-- `Tuple[bool, str, Optional[str]]`
pub record Outcome : Type 0 where
  pub success : Bool
  pub message : String
  pub node_id : Option String

-- The state, the request and the result after a call.
pub record Answer (F : Type 0) : Type 0 where
  pub state : Scheduler F
  pub request : PodRequest F
  pub outcome : Outcome

-- How one round of the preemption loop ends: by a `return`, or with the state for the next round.
pub data Round (F : Type 0) : Type 0 where
  finished : Answer F → Round F
  onward : Scheduler F → Round F

abbrev pub refuse : String → Outcome
refuse message = record { success = false; message = message; node_id = none }

module _ {F : Type 0} where
  unfoldable pub register_node : Scheduler F → Node F → Scheduler F
  register_node s node = record s { nodes = put node.id node s.nodes }

  unfoldable pub unregister_node : Scheduler F → String → Scheduler F
  unregister_node s node_id =
      if is_some (get node_id s.nodes) then record s { nodes = del node_id s.nodes } else s

  -- `update_metrics` of `Node`
  unfoldable pub update_metrics : Node F → F → F → Option F → Option F → F → Node F
  update_metrics node cpu_load memory_load gpu_load temperature now = record node {
    cpu_load_avg = cpu_load;
    memory_load_avg = memory_load;
    gpu_load_avg = elim gpu_load [ none ↦ node.gpu_load_avg | some g ↦ g ];
    temperature_celsius = elim temperature [ none ↦ node.temperature_celsius | some t ↦ t ];
    last_heartbeat = now;
  }

  -- `request.status = FAILED`, the reason, and the metric.
  unfoldable pub fail : Scheduler F → PodRequest F → String → String → Answer F
  fail s request reason message = record {
    state = record s { metrics = record s.metrics { total_failed = s.metrics.total_failed + 1 } };
    request = record request { status = SchedulingStatus.failed; failure_reason = some reason };
    outcome = refuse message;
  }

  unfoldable pub give_up : Scheduler F → PodRequest F → String → Answer F
  give_up s request message = record { state = s; request = request; outcome = refuse message }

  abbrev pub assign : PodRequest F → String → F → PodRequest F
  assign request node_id now = record request {
    status = SchedulingStatus.scheduled;
    assigned_node_id = some node_id;
    scheduled_at = some now;
  }

  -- The object that a list of nodes refers to, as it is now.
  abbrev pub current : Scheduler F → Node F → Node F
  current s node = elim (get node.id s.nodes) [ none ↦ node | some n ↦ n ]

  abbrev pub is_valid : Option (Refusal F) → Bool
  is_valid none = true
  is_valid (some r) = false

module _ {F : Type 0} (fl : Float F) where
  open fl use {lit, plus, minus, times, over, less}

  unfoldable pub update_avg_scheduling_time : Metrics F → F → Metrics F
  update_avg_scheduling_time m elapsed_ms = record m {
    avg_scheduling_time_ms =
        if m.total_scheduled == 1
        then elapsed_ms
        else plus m.avg_scheduling_time_ms
            (over (minus elapsed_ms m.avg_scheduling_time_ms) (lit m.total_scheduled 0));
  }

  unfoldable pub unschedule : Scheduler F → String → Scheduler F × Bool
  unfolding release
  unschedule s pod_id = elim (get pod_id s.scheduled_pods) [
    | none ↦ (s, false)
    | some node_id ↦ elim (get node_id s.nodes) [
      | none ↦ (record s { scheduled_pods = del pod_id s.scheduled_pods }, false)
      | some node ↦
          let (node', success) = release fl node pod_id in
          if success
          then (
            record s {
              nodes = put node_id node' s.nodes;
              scheduled_pods = del pod_id s.scheduled_pods;
            },
            true,
          )
          else (s, false)
    ]
  ]

  -- `sort(key=score, reverse=True)`: stable, descending.
  unfoldable pub insert_scored : Node F × F → List (Node F × F) → List (Node F × F)
  insert_scored x [] = x ∷ []
  insert_scored x (y ∷ ys) = if less x.1 y.1 then y ∷ insert_scored x ys else x ∷ y ∷ ys

  unfoldable pub sort_scored : List (Node F × F) → List (Node F × F)
  unfolding insert_scored
  sort_scored [] = []
  sort_scored (x ∷ xs) = insert_scored x (sort_scored xs)

  -- What a successful reservation on a scored node writes.
  unfoldable pub commit_best : Clock F → Scheduler F → PodRequest F → Node F → Node F → Answer F
  unfolding update_avg_scheduling_time
  commit_best clock s request node node' =
      let counted = record s.metrics { total_scheduled = s.metrics.total_scheduled + 1 } in
      record {
        state = record s {
          nodes = put node.id node' s.nodes;
          scheduled_pods = put request.id node.id s.scheduled_pods;
          metrics =
              update_avg_scheduling_time counted
                (times (minus clock.finished clock.start) (lit 1000 0));
        };
        request = assign request node.id clock.scheduled;
        outcome = record {
          success = true;
          message = "Successfully scheduled";
          node_id = some node.id;
        };
      }

  -- The loop over the ranked nodes.
  unfoldable pub reserve_best : Clock F → Scheduler F → PodRequest F → List (Node F × F) → Answer F
  unfolding commit_best reserve fail
  reserve_best clock s request [] =
      fail s request "Failed to reserve resources on any node" "Failed to reserve resources"
  reserve_best clock s request ((node, value) ∷ rest) =
      let next = reserve_best clock s request rest in
      let (node', done) = reserve fl clock.reserved node request in
      if less value (lit 1 1)
      then next
      else if done
      then commit_best clock s request node node'
      else next

  -- One round of the loop that evicts: an exception leaves the pod where it is.
  unfoldable pub evict : (String → Bool) → Scheduler F → List String → Scheduler F
  unfolding unschedule
  evict destroy s [] = s
  evict destroy s (pod_id ∷ rest) =
      evict destroy (if destroy pod_id then (unschedule s pod_id).0 else s) rest

  unfoldable pub commit_preempted :
      Clock F → Scheduler F → PodRequest F → Node F → Node F → Answer F
  commit_preempted clock s request node node' = record {
    state = record s {
      nodes = put node.id node' s.nodes;
      scheduled_pods = put request.id node.id s.scheduled_pods;
      metrics = record s.metrics {
        total_scheduled = s.metrics.total_scheduled + 1;
        total_preemptions = s.metrics.total_preemptions + 1;
      };
    };
    request = assign request node.id clock.scheduled;
    outcome = record {
      success = true;
      message = "Preempted and scheduled";
      node_id = some node.id;
    };
  }

  -- One node of the loop of `_try_preemption`: after the evictions, reserve again. Nodes are shared
  -- objects, so a round reads the node as the rounds and evictions before have left it.
  unfoldable pub after_eviction : Clock F → Scheduler F → PodRequest F → Node F → Round F
  unfolding reserve commit_preempted
  after_eviction clock s request node =
      let (node', done) = reserve fl clock.reserved node request in
      if done then finished (commit_preempted clock s request node node') else onward s

  unfoldable pub preempt_candidates :
      (String → Bool) → Clock F → Scheduler F → PodRequest F → Node F → List String → Round F
  unfolding evict after_eviction
  preempt_candidates destroy clock s request node [] = onward s
  preempt_candidates destroy clock s request node (c ∷ cs) =
      let s' = evict destroy s (c ∷ cs) in after_eviction clock s' request (current s' node)

  unfoldable pub preempt_round :
      (String → Bool) → Clock F → Scheduler F → PodRequest F → Node F → Round F
  unfolding preempt_candidates
  preempt_round destroy clock s request node =
      if is_active (current s node).status
      then preempt_candidates destroy clock s request node
          (find_preemption_candidates fl (current s node) request)
      else onward s

  unfoldable pub preempt_loop :
      (String → Bool) → Clock F → Scheduler F → PodRequest F → List (Node F) → Answer F
  unfolding preempt_round give_up
  preempt_loop destroy clock s request [] =
      give_up s request "No nodes available even with preemption"
  preempt_loop destroy clock s request (node ∷ rest) =
      elim (preempt_round destroy clock s request node) [
        | finished answer ↦ answer
        | onward s' ↦ preempt_loop destroy clock s' request rest
      ]

  unfoldable pub preempt_with :
      Option (String → Bool) → Clock F → Scheduler F → PodRequest F → List (Node F) → Answer F
  unfolding preempt_loop give_up
  preempt_with none clock s request nodes =
      give_up s request "Orchestrator not available for preemption"
  preempt_with (some destroy) clock s request nodes = preempt_loop destroy clock s request nodes

  abbrev pub try_preemption : Clock F → Scheduler F → PodRequest F → List (Node F) → Answer F
  try_preemption clock s request nodes = preempt_with s.orchestrator clock s request nodes

  abbrev pub available_nodes : Scheduler F → List (Node F)
  available_nodes s = filter (λ n. is_active n.status) (values s.nodes)

  -- The nodes among some that pass validation.
  abbrev pub valid_among : PodRequest F → List (Node F) → List (Node F)
  valid_among request nodes = filter (λ n. is_valid (validate fl n request)) nodes

  abbrev pub valid_nodes : Scheduler F → PodRequest F → List (Node F)
  valid_nodes s request = valid_among request (available_nodes s)

  abbrev pub scored_nodes :
      Clock F → Scheduler F → PodRequest F → Option (F × F) → List (Node F) → List (Node F × F)
  scored_nodes clock s request location nodes =
      map (λ n. (n, score fl s.weights clock.scored n request location)) nodes

  unfoldable pub schedule_valid :
      Clock F → Scheduler F → PodRequest F → Option (F × F) → List (Node F) → Answer F
  unfolding reserve_best sort_scored preempt_with fail
  schedule_valid clock s request location [] =
      if leb 70 request.priority
      then try_preemption clock s request (available_nodes s)
      else fail s request "No nodes meet resource requirements"
          "No nodes meet resource requirements"
  schedule_valid clock s request location (n ∷ ns) =
      reserve_best clock s request (sort_scored (scored_nodes clock s request location (n ∷ ns)))

  unfoldable pub schedule_among :
      Clock F → Scheduler F → PodRequest F → Option (F × F) → List (Node F) → Answer F
  unfolding schedule_valid filter fail
  schedule_among clock s request location [] =
      fail s request "No available nodes" "No available nodes"
  schedule_among clock s request location (n ∷ ns) =
      schedule_valid clock s request location (valid_among request (n ∷ ns))

  unfoldable pub schedule : Clock F → Scheduler F → PodRequest F → Option (F × F) → Answer F
  unfolding schedule_among
  schedule clock s request location = schedule_among clock s request location (available_nodes s)
