-- ===== src/Scheduler/Preemption.antt =====
-- `PreemptionManager.find_preemption_candidates`: which pods of a node would make room.
pub mod Candidates
pub mod Order
use disposable_compute_platf.Prelude.{
  ℕ, String, Bool, true, false, Option, none, some, List, [], ◌∷◌, leb, ltb, str_eq, if◌then◌else◌,
  ◌&&◌, ◌||◌, not,
}
use disposable_compute_platf.Prelude.Int.{ℤ, pos, negsuc, pos_part, neg_part, ◌-ℤ◌, leb_ℤ}
use disposable_compute_platf.Prelude.Float.{Float}
use disposable_compute_platf.Scheduler.Types.{
  GpuResource, Assignment, Node, PodRequest, PodSpec, gpu_demand, required_vram,
}

-- The dict `needed`; Python lets its values fall below zero.
pub record Needed (F : Type 0) : Type 0 where
  pub cpu : F
  pub memory : ℤ
  pub storage : ℤ
  pub vram : ℤ
  pub gpu_count : ℤ

-- `info.get("priority", 50)` and `info.get("user_tier", "free")`
abbrev pub priority_or_default : Option ℕ → ℕ
priority_or_default none = 50
priority_or_default (some n) = n

abbrev pub tier_or_default : Option String → String
tier_or_default none = "free"
tier_or_default (some t) = t

abbrev vram_needed : Option GpuResource → ℤ
vram_needed none = pos 0
vram_needed (some g) = pos (required_vram g)

abbrev count_needed : Option GpuResource → ℤ
count_needed none = pos 0
count_needed (some g) = pos g.count

module _ {F : Type 0} where
  abbrev pub priority_of : Assignment F → ℕ
  priority_of info = priority_or_default info.priority

  -- The two tests that skip a pod, negated.
  unfoldable pub may_preempt : PodRequest F → Assignment F → Bool
  may_preempt request info =
      if leb request.priority (priority_of info)
      then false
      else (if str_eq (tier_or_default info.user_tier) "enterprise"
          then false
          else not (str_eq (tier_or_default info.user_tier) "pro"))

  -- `current_pods.sort(key=priority)`: stable, ascending.
  unfoldable pub insert_pod :
      String × Assignment F → List (String × Assignment F) → List (String × Assignment F)
  insert_pod x [] = x ∷ []
  insert_pod x (y ∷ ys) =
      if ltb (priority_of y.1) (priority_of x.1) then y ∷ insert_pod x ys else x ∷ y ∷ ys

  unfoldable pub sort_pods : List (String × Assignment F) → List (String × Assignment F)
  unfolding insert_pod
  sort_pods [] = []
  sort_pods (x ∷ xs) = insert_pod x (sort_pods xs)

  unfoldable pub initial_need : PodSpec F → Needed F
  unfolding gpu_demand
  initial_need spec = record {
    cpu = spec.resource_requirements.cpu_cores;
    memory = pos spec.resource_requirements.memory_mb;
    storage = pos spec.resource_requirements.storage_gb;
    vram = vram_needed (gpu_demand spec);
    gpu_count = count_needed (gpu_demand spec);
  }

module _ {F : Type 0} (fl : Float F) where
  open fl use {lit, minus, less}

  abbrev subtract_gpus : Option GpuResource → Needed F → Needed F
  subtract_gpus none needed = needed
  subtract_gpus (some g) needed = record needed {
    vram = needed.vram -ℤ pos (required_vram g);
    gpu_count = needed.gpu_count -ℤ pos g.count;
  }

  unfoldable pub subtract : Needed F → PodSpec F → Needed F
  unfolding gpu_demand ◌-ℤ◌
  subtract needed spec = subtract_gpus (gpu_demand spec) (record needed {
    cpu = minus needed.cpu spec.resource_requirements.cpu_cores;
    memory = needed.memory -ℤ pos spec.resource_requirements.memory_mb;
    storage = needed.storage -ℤ pos spec.resource_requirements.storage_gb;
  })

  -- `all(v <= 0 for v in needed.values())`
  unfoldable pub is_covered : Needed F → Bool
  is_covered needed =
      not (less (lit 0 0) needed.cpu)
      && leb_ℤ needed.memory (pos 0)
      && leb_ℤ needed.storage (pos 0)
      && leb_ℤ needed.vram (pos 0)
      && leb_ℤ needed.gpu_count (pos 0)

  -- The loop: what it appends to `candidates` from here on.
  unfoldable pub collect : PodRequest F → Needed F → List (String × Assignment F) → List String
  unfolding may_preempt subtract is_covered
  collect request needed [] = []
  collect request needed ((pod_id, info) ∷ rest) =
      let needed' = subtract needed info.pod_spec in
      let stop = pod_id ∷ [] in
      let go_on = pod_id ∷ collect request needed' rest in
      let skip = collect request needed rest in
      if may_preempt request info then (if is_covered needed' then stop else go_on) else skip

  unfoldable pub find_preemption_candidates : Node F → PodRequest F → List String
  unfolding collect initial_need sort_pods
  find_preemption_candidates node request =
      collect request (initial_need request.pod_spec) (sort_pods node.assigned_pods)
