-- ===== src/Scheduler/Validator.antt =====
-- `ConstraintValidator.validate`: the checks in the source's order. A refusal carries the numbers of
-- its message.
use disposable_compute_platf.Prelude.{
  ℕ, String, Option, none, some, List, [], ◌∷◌, ltb, contains, if◌then◌else◌,
}
use mathlib.Core.Option
use disposable_compute_platf.Prelude.Float.{Float}
use disposable_compute_platf.Scheduler.Types.{
  NodeStatus, GpuResource, Node, PodRequest, is_active, required_vram, available_gpus,
}

pub data Refusal (F : Type 0) : Type 0 where
  node_status : NodeStatus → Refusal F
  lacks_capability : String → Refusal F
  no_gpu : Refusal F
  vram : ℕ → ℕ → Refusal F
  gpus : ℕ → ℕ → Refusal F
  cpu : F → F → Refusal F
  memory storage : ℕ → ℕ → Refusal F
  too_hot : F → Refusal F
  cpu_load memory_load gpu_load : F → Refusal F

-- The first required capability that the node lacks.
unfoldable pub missing : List String → List String → Option String
missing [] capabilities = none
missing (cap ∷ caps) capabilities =
    let rest = missing caps capabilities in if contains capabilities cap then rest else some cap

module _ {F : Type 0} (fl : Float F) where
  open fl use {lit, less}

  -- `none` is the source's `(True, "Valid")`.
  unfoldable pub validate_loads : Node F → Option (Refusal F)
  validate_loads node =
      if less node.max_safe_temp node.temperature_celsius
      then some (too_hot node.temperature_celsius)
      else if less (lit 90 2) node.cpu_load_avg
      then some (cpu_load node.cpu_load_avg)
      else if less (lit 90 2) node.memory_load_avg
      then some (memory_load node.memory_load_avg)
      else if less (lit 85 2) node.gpu_load_avg
      then some (gpu_load node.gpu_load_avg)
      else none

  unfoldable pub validate_gpu_config : Node F → Option GpuResource → Option (Refusal F)
  validate_gpu_config node none = none
  validate_gpu_config node (some g) =
      if ltb node.gpu_vram_available_mb (required_vram g)
      then some (vram (required_vram g) node.gpu_vram_available_mb)
      else if ltb (available_gpus node.gpu_devices) g.count
      then some (gpus g.count (available_gpus node.gpu_devices))
      else none

  unfoldable pub validate_gpu : Node F → PodRequest F → Option (Refusal F)
  unfolding validate_gpu_config
  validate_gpu node request =
      let spec = request.pod_spec in
      if spec.gpu_required
      then (if contains node.capabilities "gpu"
          then validate_gpu_config node spec.gpu_config
          else some no_gpu)
      else none

  unfoldable pub validate_amounts : Node F → PodRequest F → Option (Refusal F)
  validate_amounts node request =
      let r = request.pod_spec.resource_requirements in
      if less node.cpu_available r.cpu_cores
      then some (cpu r.cpu_cores node.cpu_available)
      else if ltb node.memory_available_mb r.memory_mb
      then some (memory r.memory_mb node.memory_available_mb)
      else if ltb node.storage_available_gb r.storage_gb
      then some (storage r.storage_gb node.storage_available_gb)
      else none

  infixr 20 ◌or_else◌
  abbrev pub ◌or_else◌ : Option (Refusal F) → Option (Refusal F) → Option (Refusal F)
  none or_else k = k
  some r or_else k = some r

  unfoldable pub validate : Node F → PodRequest F → Option (Refusal F)
  unfolding validate_gpu validate_amounts validate_loads
  validate node request =
      (if is_active node.status then none else some (node_status node.status))
      or_else (Option.map lacks_capability
          (missing request.required_capabilities node.capabilities))
      or_else (validate_gpu node request)
      or_else (validate_amounts node request)
      or_else (validate_loads node)
