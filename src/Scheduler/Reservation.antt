-- ===== src/Scheduler/Reservation.antt =====
-- `ResourceManager`: reserving a pod's resources on a node, and releasing them.
pub mod Gpus
pub mod Accounting
pub mod RoundTrip
use disposable_compute_platf.Prelude.{
  ℕ, suc, ◌+◌, ◌-◌, String, Bool, true, false, Option, none, some, List, [], ◌∷◌, ltb, str_eq,
  if◌then◌else◌, ◌&&◌,
}
use disposable_compute_platf.Prelude.Dict.{get, put, del}
use disposable_compute_platf.Prelude.Float.{Float}
use disposable_compute_platf.Scheduler.Types.{
  GpuStatus, GpuResource, GpuDevice, Assignment, Node, PodRequest, PodSpec, gpu_demand,
  required_vram, is_available, available_gpus,
}

-- The loop that reserves GPUs: `taken` is `len(reserved_gpus)`.
unfoldable pub reserve_gpus : ℕ → String → ℕ → List GpuDevice → List GpuDevice
reserve_gpus count pod_id taken [] = []
reserve_gpus count pod_id taken (gpu ∷ gpus) =
    if is_available gpu.status && ltb taken count
    then record gpu { status = GpuStatus.allocated; allocated_to_pod = some pod_id }
      ∷ reserve_gpus count pod_id (suc taken) gpus
    else gpu ∷ reserve_gpus count pod_id taken gpus

abbrev pub allocated_to : String → Option String → Bool
allocated_to pod_id none = false
allocated_to pod_id (some p) = str_eq p pod_id

unfoldable pub release_gpus : String → List GpuDevice → List GpuDevice
release_gpus pod_id [] = []
release_gpus pod_id (gpu ∷ gpus) =
    (if allocated_to pod_id gpu.allocated_to_pod
      then record gpu { status = GpuStatus.available; allocated_to_pod = none }
      else gpu)
    ∷ release_gpus pod_id gpus

module _ {F : Type 0} where
  unfoldable pub gpu_short : Option GpuResource → Node F → Bool
  gpu_short none node = false
  gpu_short (some g) node =
      if ltb node.gpu_vram_available_mb (required_vram g)
      then true
      else ltb (available_gpus node.gpu_devices) g.count

  unfoldable pub take_gpus : String → Option GpuResource → Node F → Node F
  take_gpus pod_id none node = node
  take_gpus pod_id (some g) node = record node {
    gpu_devices = reserve_gpus g.count pod_id 0 node.gpu_devices;
    gpu_vram_available_mb = node.gpu_vram_available_mb - required_vram g;
  }

  unfoldable pub return_gpus : String → Option GpuResource → Node F → Node F
  return_gpus pod_id none node = node
  return_gpus pod_id (some g) node = record node {
    gpu_devices = release_gpus pod_id node.gpu_devices;
    gpu_vram_available_mb = node.gpu_vram_available_mb + required_vram g;
  }

  abbrev pub assignment : F → PodSpec F → Assignment F
  assignment now spec = record {
    pod_spec = spec;
    reservation_time = now;
    estimated_runtime = 60;
    priority = none;
    user_tier = none;
  }

module _ {F : Type 0} (fl : Float F) where
  open fl use {plus, minus, less}

  -- The writes of `reserve`, after its checks.
  unfoldable pub take_resources : F → Node F → PodRequest F → Node F
  unfolding take_gpus
  take_resources now node request =
      let spec = request.pod_spec in
      let n = take_gpus request.id (gpu_demand spec) node in
      record n {
        cpu_available = minus node.cpu_available spec.resource_requirements.cpu_cores;
        memory_available_mb = node.memory_available_mb - spec.resource_requirements.memory_mb;
        storage_available_gb = node.storage_available_gb - spec.resource_requirements.storage_gb;
        assigned_pods = put request.id (assignment now spec) node.assigned_pods;
      }

  -- The checks of `reserve`: is some resource short?
  unfoldable pub short : Node F → PodRequest F → Bool
  unfolding gpu_short
  short node request =
      let spec = request.pod_spec in
      if gpu_short (gpu_demand spec) node
      then true
      else if less node.cpu_available spec.resource_requirements.cpu_cores
      then true
      else if ltb node.memory_available_mb spec.resource_requirements.memory_mb
      then true
      else ltb node.storage_available_gb spec.resource_requirements.storage_gb

  unfoldable pub reserve : F → Node F → PodRequest F → Node F × Bool
  reserve now node request =
      if short node request then (node, false) else (take_resources now node request, true)

  -- The writes of `release`, for a pod that the node holds.
  unfoldable pub give_back : Node F → String → PodSpec F → Node F
  unfolding return_gpus
  give_back node pod_id spec =
      let n = return_gpus pod_id (gpu_demand spec) node in
      record n {
        cpu_available = plus node.cpu_available spec.resource_requirements.cpu_cores;
        memory_available_mb = node.memory_available_mb + spec.resource_requirements.memory_mb;
        storage_available_gb = node.storage_available_gb + spec.resource_requirements.storage_gb;
        assigned_pods = del pod_id node.assigned_pods;
      }

  unfoldable pub release : Node F → String → Node F × Bool
  release node pod_id = elim (get pod_id node.assigned_pods) [
    | none ↦ (node, false)
    | some pod_info ↦ (give_back node pod_id pod_info.pod_spec, true)
  ]
