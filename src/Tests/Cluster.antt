-- ===== src/Tests/Cluster.antt =====
-- Data of a cluster, and its nodes: validation, reservation, preemption.
use disposable_compute_platf.Prelude.{
  ◌≤◌, All, filter, ℕ, String, ◌≡◌, refl, ◌⊎◌, ◌++◌, true, contains, none, some, List, [], ◌∷◌,
}
use disposable_compute_platf.Prelude.Dict.{get, total}
use disposable_compute_platf.Scheduler.Types.{
  GpuStatus, GpuDevice, PodSpec, Assignment, NodeStatus, Node, PodRequest, SchedulingStatus,
  available_gpus, gpu_demand,
}
use disposable_compute_platf.Scheduler.Validator.{
  validate, missing, validate_gpu, validate_gpu_config, validate_loads, validate_amounts,
}
use disposable_compute_platf.Scheduler.Reservation.{reserve, release, take_resources, short}
use disposable_compute_platf.Scheduler.Reservation.Gpus.{held}
use disposable_compute_platf.Scheduler.Reservation.RoundTrip.{reserve-validate, release-reserve}
use disposable_compute_platf.Scheduler.Reservation.Accounting.{IsBalanced}
use disposable_compute_platf.Scheduler.Preemption.{
  priority_of, insert_pod, sort_pods, may_preempt, find_preemption_candidates,
}
use disposable_compute_platf.Scheduler.Preemption.Candidates.{
  ids, eligible, Suffices, find_preemption_candidates-Suffices,
}
use disposable_compute_platf.Scheduler.Preemption.Order.{lowest_first}
use disposable_compute_platf.Tests.Numbers.{numbers}

abbrev pub gpu : String → GpuDevice
gpu id = record { id = id; status = GpuStatus.available; allocated_to_pod = none }

abbrev pub spec : PodSpec ℕ
spec = record {
  resource_requirements = record { cpu_cores = 2000; memory_mb = 4; storage_gb = 3 };
  gpu_required = true;
  gpu_config = some (record { count = 1; memory_mb = 8 });
}

-- A node with two GPUs that holds nothing.
abbrev pub node_of : String → ℕ → Node ℕ
node_of id load = record {
  id = id;
  status = NodeStatus.active;
  cpu_total = 8000;
  cpu_available = 8000;
  memory_total_mb = 16;
  memory_available_mb = 16;
  storage_total_gb = 20;
  storage_available_gb = 20;
  gpu_devices = gpu "g0" ∷ gpu "g1" ∷ [];
  gpu_vram_total_mb = 16;
  gpu_vram_available_mb = 16;
  cpu_load_avg = load;
  gpu_load_avg = 0;
  memory_load_avg = 0;
  temperature_celsius = 40000;
  max_safe_temp = 85000;
  capabilities = "gpu" ∷ [];
  latitude = 0;
  longitude = 0;
  assigned_pods = [];
  last_heartbeat = 0;
}

abbrev pub request_of : String → ℕ → PodRequest ℕ
request_of id priority = record {
  id = id;
  pod_spec = spec;
  user_tier = "pro";
  priority = priority;
  required_capabilities = [];
  status = SchedulingStatus.pending;
  assigned_node_id = none;
  scheduled_at = none;
  failure_reason = none;
}

abbrev pub node : Node ℕ
node = node_of "n0" 0

abbrev pub pod : PodRequest ℕ
pod = request_of "p0" 80

-- The node with the pod on it.
abbrev pub holder : Node ℕ
holder = take_resources numbers 7 node pod

pub empty_IsBalanced : (id : String) (load : ℕ) → IsBalanced (node_of id load)
unfolding held get total
empty_IsBalanced id load = record {
  distinct = tt;
  memory = refl;
  storage = refl;
  vram = refl;
  unclaimed = ((λ h. refl), ((λ h. refl), tt));
  gpus = λ p. refl;
}

reserve-validate_example : (reserve numbers 7 node pod).1 ≡ true
unfolding validate missing contains gpu_demand available_gpus validate_gpu validate_gpu_config
    validate_loads validate_amounts
reserve-validate_example = reserve-validate numbers 7 node pod refl

release-reserve_example : release numbers (reserve numbers 7 node pod).0 "p0" ≡ (node, true)
unfolding reserve held short gpu_demand available_gpus get
release-reserve_example =
    release-reserve numbers 7 node pod refl refl refl ((λ h. refl), ((λ h. refl), tt)) refl

abbrev low_pod : Assignment ℕ
low_pod = record {
  pod_spec = spec;
  reservation_time = 7;
  estimated_runtime = 60;
  priority = some 20;
  user_tier = none;
}

find_preemption_candidates-Suffices_example :
    (chosen rest : List (String × Assignment ℕ)) × (find_preemption_candidates numbers holder pod
      ≡ ids chosen)
    × (eligible pod holder ≡ chosen ++ rest)
    × ((rest ≡ []) ⊎ Suffices numbers pod chosen)
find_preemption_candidates-Suffices_example = find_preemption_candidates-Suffices numbers holder pod

-- A node with two pods that may be evicted.
abbrev crowded : Node ℕ
crowded = record node {
  assigned_pods = ("a", record low_pod { priority = some 30 }) ∷ ("b", low_pod) ∷ [];
}

lowest_first_example :
    All
      (λ (c : String × Assignment ℕ).
        All
          (λ (r : String × Assignment ℕ). priority_of c.1 ≤ priority_of r.1)
          (("a", record low_pod { priority = some 30 }) ∷ []))
      (("b", low_pod) ∷ [])
unfolding filter sort_pods insert_pod may_preempt contains
lowest_first_example =
    lowest_first pod crowded (("b", low_pod) ∷ [])
      (("a", record low_pod { priority = some 30 }) ∷ []) refl
