-- ===== src/Scheduler/Reservation/Gpus.antt =====
-- The loops over `node.gpu_devices` in `reserve` and `release`.
use disposable_compute_platf.Prelude.{
  ℕ, suc, ◌+◌, ◌≤◌, String, ◌≡◌, refl, true, false, none, List, [], ◌∷◌, All, arith, str_eq, eq_iff,
  inl, inr, Option-cases, if◌then◌else◌,
}
use disposable_compute_platf.Scheduler.Types.{GpuDevice, is_available, available_gpus}
use disposable_compute_platf.Scheduler.Reservation.{reserve_gpus, release_gpus, allocated_to}

-- How many devices name the pod.
unfoldable pub held : String → List GpuDevice → ℕ
held pod_id [] = 0
held pod_id (g ∷ gs) = (if allocated_to pod_id g.allocated_to_pod then 1 else 0) + held pod_id gs

-- A device that is available names no pod.
abbrev pub Unclaimed : GpuDevice → Type 0
Unclaimed g = is_available g.status ≡ true → g.allocated_to_pod ≡ none

-- The loop takes exactly the devices that are asked for, when there are enough.
pub available_gpus-reserve_gpus :
    (count : ℕ) (p : String) (taken : ℕ) (gs : List GpuDevice)
    → taken ≤ count
    → count ≤ taken + available_gpus gs
    → available_gpus (reserve_gpus count p taken gs) + count ≡ available_gpus gs + taken
unfolding reserve_gpus available_gpus
available_gpus-reserve_gpus count p taken [] h k = omega arith
available_gpus-reserve_gpus count p taken (g ∷ gs) h k = ground (
  arith,
  available_gpus-reserve_gpus count p (suc taken) gs,
  available_gpus-reserve_gpus count p taken gs,
)

-- They name the new pod; what other pods hold stays.
pub held-reserve_gpus_self :
    (count : ℕ) (p : String) (taken : ℕ) (gs : List GpuDevice)
    → taken ≤ count
    → count ≤ taken + available_gpus gs
    → All Unclaimed gs
    → held p (reserve_gpus count p taken gs) + taken ≡ held p gs + count
unfolding reserve_gpus available_gpus held
held-reserve_gpus_self count p taken [] h k u = omega arith
held-reserve_gpus_self count p taken (g ∷ gs) h k u = ground (
  arith,
  u.0,
  eq_iff p p,
  held-reserve_gpus_self count p (suc taken) gs,
  held-reserve_gpus_self count p taken gs,
)

pub held-reserve_gpus_ne :
    (count : ℕ) (p q : String) (taken : ℕ) (gs : List GpuDevice)
    → str_eq p q ≡ false
    → All Unclaimed gs
    → held q (reserve_gpus count p taken gs) ≡ held q gs
unfolding reserve_gpus held
held-reserve_gpus_ne count p q taken [] h u = refl
held-reserve_gpus_ne count p q taken (g ∷ gs) h u = ground (
  arith,
  u.0,
  held-reserve_gpus_ne count p q (suc taken) gs h u.1,
  held-reserve_gpus_ne count p q taken gs h u.1,
)

pub reserve_gpus-Unclaimed :
    (count : ℕ) (p : String) (taken : ℕ) (gs : List GpuDevice)
    → All Unclaimed gs
    → All Unclaimed (reserve_gpus count p taken gs)
unfolding reserve_gpus
reserve_gpus-Unclaimed count p taken [] u = tt
reserve_gpus-Unclaimed count p taken (g ∷ gs) u = ground (
  arith,
  u.0,
  reserve_gpus-Unclaimed count p (suc taken) gs u.1,
  reserve_gpus-Unclaimed count p taken gs u.1,
)

pub held-release_gpus :
    (p q : String) (gs : List GpuDevice)
    → held q (release_gpus p gs) ≡ (if str_eq p q then 0 else held q gs)
unfolding release_gpus held
held-release_gpus p q [] = ground arith
held-release_gpus p q (g ∷ gs) = elim (Option-cases g.allocated_to_pod) [
  | inl e ↦ ground (arith, held-release_gpus p q gs)
  | inr (r, e) ↦
      ground (arith, held-release_gpus p q gs, eq_iff r p, eq_iff r q, eq_iff p q, eq_iff q p)
]

pub release_gpus-Unclaimed :
    (p : String) (gs : List GpuDevice) → All Unclaimed gs → All Unclaimed (release_gpus p gs)
unfolding release_gpus
release_gpus-Unclaimed p [] u = tt
release_gpus-Unclaimed p (g ∷ gs) u = (ground (arith, u.0), release_gpus-Unclaimed p gs u.1)

-- Releasing what was just reserved restores every device.
pub release_gpus-reserve_gpus :
    (count : ℕ) (p : String) (taken : ℕ) (gs : List GpuDevice)
    → held p gs ≡ 0
    → All Unclaimed gs
    → release_gpus p (reserve_gpus count p taken gs) ≡ gs
unfolding reserve_gpus release_gpus held
release_gpus-reserve_gpus count p taken [] h u = refl
release_gpus-reserve_gpus count p taken (g ∷ gs) h u = ground (
  arith,
  u.0,
  eq_iff p p,
  release_gpus-reserve_gpus count p (suc taken) gs,
  release_gpus-reserve_gpus count p taken gs,
)
