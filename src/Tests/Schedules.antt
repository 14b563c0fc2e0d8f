-- ===== src/Tests/Schedules.antt =====
-- Histories of a cluster of two nodes.
use disposable_compute_platf.Prelude.{
  ℕ, String, ◌≡◌, ◌⊎◌, refl, true, none, some, [], ◌∷◌, filter, contains,
}
use disposable_compute_platf.Prelude.Dict.{get, put}
use disposable_compute_platf.Scheduler.Types.{Node, PodRequest, gpu_demand, available_gpus}
use disposable_compute_platf.Scheduler.Validator.{
  validate, missing, validate_gpu, validate_gpu_config, validate_loads, validate_amounts,
}
use disposable_compute_platf.Scheduler.Scorer.{
  default_weights, score, calculate_resource_score, resource_scores, vram_score, free_score,
  cpu_util, amount_util, calculate_load_score, load_factors, mean_load, calculate_proximity_score,
  calculate_reliability_score,
}
use disposable_compute_platf.Scheduler.Placement.{
  Scheduler, Clock, register_node, schedule, schedule_among, schedule_valid, reserve_best,
  commit_best, sort_scored, insert_scored, unschedule,
}
use disposable_compute_platf.Scheduler.Placement.Evictions.{IsSoundState}
use disposable_compute_platf.Scheduler.Placement.Steps.{
  join, place, remove, Reach, here, next, Reach-IsSound, one_node, empty-IsSound,
}
use disposable_compute_platf.Scheduler.Placement.Choice.{Chosen, TooLow, value_of, schedule-choice}
use disposable_compute_platf.Scheduler.Reservation.{assignment, reserve, short, take_resources}
use disposable_compute_platf.Prelude.Float.{float_max, float_min, sum_from}
use disposable_compute_platf.Tests.Numbers.{numbers}
use disposable_compute_platf.Tests.Cluster.{node_of, request_of, spec, empty_IsBalanced}

abbrev pub clock : Clock ℕ
clock = record { start = 10; scored = 11; reserved = 12; scheduled = 13; finished = 14 }

abbrev pub empty : Scheduler ℕ
empty = record {
  nodes = [];
  scheduled_pods = [];
  orchestrator = some (λ p. true);
  weights = default_weights numbers;
  metrics = record {
    total_scheduled = 0;
    total_failed = 0;
    total_preemptions = 0;
    avg_scheduling_time_ms = 0;
  };
}

abbrev pub idle : Node ℕ
idle = node_of "n0" 0

abbrev pub busy : Node ℕ
busy = node_of "n1" 700

abbrev pub cluster : Scheduler ℕ
cluster = register_node (register_node empty idle) busy

abbrev pod : PodRequest ℕ
pod = request_of "p0" 80

abbrev running : Scheduler ℕ
running = (schedule numbers clock cluster pod none).state

-- The idle node with the pod.
abbrev loaded : Node ℕ
loaded = take_resources numbers 12 idle pod

cluster-Reach : Reach numbers empty cluster
cluster-Reach =
    next (next here (join empty idle refl (empty_IsBalanced "n0" 0)))
      (join (register_node empty idle) busy refl (empty_IsBalanced "n1" 700))

running-Reach : Reach numbers empty running
unfolding get register_node
running-Reach = next cluster-Reach (place cluster clock pod none refl)

Reach-IsSound_example : IsSoundState (unschedule numbers running "p0").0
Reach-IsSound_example =
    Reach-IsSound numbers (empty-IsSound numbers empty refl)
      (next running-Reach (remove running "p0"))

pub cluster_IsSound : IsSoundState cluster
cluster_IsSound = Reach-IsSound numbers (empty-IsSound numbers empty refl) cluster-Reach

schedule-choice_example :
    ((best : Node ℕ) × Chosen numbers clock cluster pod
        (value_of numbers clock cluster pod none)
        (idle ∷ busy ∷ [])
        (schedule numbers clock cluster pod none)
        best)
    ⊎ TooLow numbers clock cluster pod
        (value_of numbers clock cluster pod none)
        (idle ∷ busy ∷ [])
        (schedule numbers clock cluster pod none)
unfolding filter validate missing contains gpu_demand available_gpus validate_gpu
    validate_gpu_config validate_loads validate_amounts get put register_node
schedule-choice_example =
    schedule-choice numbers clock cluster pod none idle (busy ∷ []) cluster_IsSound refl

one_node_example : ◌≡◌ {A = String} "n0" "n0"
unfolding schedule schedule_among schedule_valid reserve_best commit_best sort_scored insert_scored
    filter validate missing contains gpu_demand available_gpus validate_gpu validate_gpu_config
    validate_loads validate_amounts get put register_node score calculate_resource_score
    resource_scores vram_score free_score cpu_util amount_util calculate_load_score load_factors
    mean_load calculate_proximity_score calculate_reliability_score float_max float_min sum_from
    reserve short take_resources
one_node_example =
    one_node numbers "n0" "n0" "p0" loaded loaded (assignment 12 spec) (assignment 12 spec) refl
      running-Reach refl refl refl refl
