-- ===== src/Scheduler/Types.antt =====
-- The records and enums of the scheduler: src/models/pod.py, src/models/gpu.py and the data classes
-- of src/scheduler/scheduler.py. `F` is the type of Python's floats. Amounts of memory, storage and
-- GPUs are integers of the source that never go below zero here; fields that no modelled operation
-- reads (names, addresses, images, ports) are left out.
use disposable_compute_platf.Prelude.{
  ℕ, suc, ◌*◌, String, Bool, true, false, Option, none, List, [], ◌∷◌, if◌then◌else◌,
}
use disposable_compute_platf.Prelude.Dict.{Dict}

pub data GpuStatus : Type 0 where
  available allocated maintenance error offline : GpuStatus

pub data NodeStatus : Type 0 where
  active inactive maintenance draining : NodeStatus

pub data SchedulingStatus : Type 0 where
  pending scheduled failed preempted : SchedulingStatus

-- `gpu_type` is not read by the modelled operations.
pub record GpuResource : Type 0 where
  pub count : ℕ
  pub memory_mb : ℕ

pub record GpuDevice : Type 0 where
  pub id : String
  pub status : GpuStatus
  pub allocated_to_pod : Option String

pub record ResourceRequirements (F : Type 0) : Type 0 where
  pub cpu_cores : F
  pub memory_mb : ℕ
  pub storage_gb : ℕ

pub record PodSpec (F : Type 0) : Type 0 where
  pub resource_requirements : ResourceRequirements F
  pub gpu_required : Bool
  pub gpu_config : Option GpuResource

-- An entry of `Node.assigned_pods`, a dict in the source: a key that may be missing is an option.
pub record Assignment (F : Type 0) : Type 0 where
  pub pod_spec : PodSpec F
  pub reservation_time : F
  pub estimated_runtime : ℕ
  pub priority : Option ℕ
  pub user_tier : Option String

pub record Node (F : Type 0) : Type 0 where
  pub id : String
  pub status : NodeStatus
  pub cpu_total : F
  pub cpu_available : F
  pub memory_total_mb : ℕ
  pub memory_available_mb : ℕ
  pub storage_total_gb : ℕ
  pub storage_available_gb : ℕ
  pub gpu_devices : List GpuDevice
  pub gpu_vram_total_mb : ℕ
  pub gpu_vram_available_mb : ℕ
  pub cpu_load_avg : F
  pub gpu_load_avg : F
  pub memory_load_avg : F
  pub temperature_celsius : F
  pub max_safe_temp : F
  pub capabilities : List String
  pub latitude : F
  pub longitude : F
  pub assigned_pods : Dict (Assignment F)
  pub last_heartbeat : F

pub record PodRequest (F : Type 0) : Type 0 where
  pub id : String
  pub pod_spec : PodSpec F
  pub user_tier : String
  pub priority : ℕ
  pub required_capabilities : List String
  pub status : SchedulingStatus
  pub assigned_node_id : Option String
  pub scheduled_at : Option F
  pub failure_reason : Option String

-- `spec.gpu_required and spec.gpu_config`: the GPU demand, if there is one.
unfoldable pub gpu_demand : {F : Type 0} → PodSpec F → Option GpuResource
gpu_demand spec = if spec.gpu_required then spec.gpu_config else none

-- `gpu_config.memory_mb * gpu_config.count`
abbrev pub required_vram : GpuResource → ℕ
required_vram g = g.memory_mb * g.count

abbrev pub is_available : GpuStatus → Bool
is_available available = true
is_available _ = false

abbrev pub is_active : NodeStatus → Bool
is_active active = true
is_active _ = false

-- `[g for g in node.gpu_devices if g.status == GpuStatus.AVAILABLE]`, counted.
unfoldable pub available_gpus : List GpuDevice → ℕ
available_gpus [] = 0
available_gpus (g ∷ gs) =
    if is_available g.status then suc (available_gpus gs) else available_gpus gs
