-- ===== src/Quota/Resources.antt =====
-- `QuotaManager` of src/optimization/resource_manager.py: what a user may hold at a time. The
-- amounts of a request are whatever its dictionary holds; those in use are Python's numbers.
pub mod Bounds
use disposable_compute_platf.Prelude.{
  String, ◌≡◌, Bool, true, false, not, ◌&&◌, Option, none, some, List, [], ◌∷◌, ◌++◌, if◌then◌else◌,
}
use disposable_compute_platf.Prelude.Dict.{Dict, get, put}
use disposable_compute_platf.Prelude.Int.{ℤ, pos, ◌-ℤ◌, ltb_ℤ}

-- Python's numbers, int and float with its infinities and nan, as an interface: `a < b`, `a <= b`,
-- and the sums and differences that overflow no float.
pub record Numeric (N : Type 0) : Type 0 where
  pub whole : ℤ → N
  pub plus : N → N → N
  pub minus : N → N → N
  pub less : N → N → Bool
  pub at_most : N → N → Bool
  pub is_nan : N → Bool
  pub less_whole : (a b : ℤ) → less (whole a) (whole b) ≡ ltb_ℤ a b
  pub at_most_whole : (a b : ℤ) → at_most (whole a) (whole b) ≡ not (ltb_ℤ b a)
  pub minus_whole : (a b : ℤ) → minus (whole a) (whole b) ≡ whole (a -ℤ b)
  pub whole_nan : (a : ℤ) → is_nan (whole a) ≡ false
  pub less_nan : (a b : N) → is_nan b ≡ true → (less a b ≡ false) × (less b a ≡ false)
  pub at_most_nan : (a b : N) → at_most a b ≡ true → (is_nan a ≡ false) × (is_nan b ≡ false)
  pub not_less :
      (a b : N) → is_nan a ≡ false → is_nan b ≡ false → less a b ≡ false → at_most b a ≡ true
  pub at_most_less : (a b : N) → at_most a b ≡ true → less b a ≡ false
  pub less_plus_zero : (a b : N) → less b (plus a (whole (pos 0))) ≡ less b a
  pub plus_nonneg :
      (a b : N)
      → at_most (whole (pos 0)) a ≡ true
      → at_most (whole (pos 0)) b ≡ true
      → at_most (whole (pos 0)) (plus a b) ≡ true
  pub plus_nan : (a b : N) → is_nan b ≡ true → is_nan (plus a b) ≡ true

pub record ResourceQuota (N : Type 0) : Type 0 where
  pub max_cpu_cores : N
  pub max_memory_mb : N
  pub max_storage_gb : N
  pub max_gpus : N
  pub used_cpu_cores : N
  pub used_memory_mb : N
  pub used_storage_gb : N
  pub used_gpus : N

-- A value of a request: an int or a float (a bool is an int), or something else.
pub data Value (N : Type 0) : Type 0 where
  numeric : N → Value N
  other : Value N

-- The values of a request; a key that is missing counts as 0.
pub record Amounts (N : Type 0) : Type 0 where
  pub cpu_cores : Value N
  pub memory_mb : Value N
  pub storage_gb : Value N
  pub gpu_count : Value N

pub data Violation (N : Type 0) : Type 0 where
  cpu_exceeded memory_exceeded storage_exceeded gpus_exceeded : N → N → Violation N

abbrev pub Quotas : Type 0 → Type 0
Quotas N = Dict (ResourceQuota N)

module _ {N : Type 0} (num : Numeric N) where
  open num use {whole, plus, minus, less}

  abbrev pub nothing : N
  nothing = whole (pos 0)

  unfoldable pub set_quota : Quotas N → String → N → N → N → N → Quotas N
  set_quota q user_id max_cpu_cores max_memory_mb max_storage_gb max_gpus =
      put user_id
        (record {
          max_cpu_cores = max_cpu_cores;
          max_memory_mb = max_memory_mb;
          max_storage_gb = max_storage_gb;
          max_gpus = max_gpus;
          used_cpu_cores = nothing;
          used_memory_mb = nothing;
          used_storage_gb = nothing;
          used_gpus = nothing;
        })
        q

  -- One of the four tests of `check_quota`. None is the exception of the addition.
  abbrev pub exceeds :
      (N → N → Violation N)
      → N
      → N
      → Value N
      → Option (List (Violation N))
      → Option (List (Violation N))
  exceeds violation used most other rest = none
  exceeds violation used most (numeric v) none = none
  exceeds violation used most (numeric v) (some vs) =
      some (if less most (plus used v) then violation (plus used v) most ∷ vs else vs)

  -- The violations that `check_quota` lists for a user with a quota.
  unfoldable pub violations : ResourceQuota N → Amounts N → Option (List (Violation N))
  violations quota r = exceeds cpu_exceeded quota.used_cpu_cores quota.max_cpu_cores r.cpu_cores (
      exceeds memory_exceeded quota.used_memory_mb quota.max_memory_mb r.memory_mb (
        exceeds storage_exceeded quota.used_storage_gb quota.max_storage_gb r.storage_gb
          (exceeds gpus_exceeded quota.used_gpus quota.max_gpus r.gpu_count (some []))))

  abbrev pub verdict : Option (List (Violation N)) → Option (Bool × List (Violation N))
  verdict none = none
  verdict (some []) = some (true, [])
  verdict (some (v ∷ vs)) = some (false, v ∷ vs)

  -- None is the exception.
  unfoldable pub check_quota : Quotas N → String → Amounts N → Option (Bool × List (Violation N))
  unfolding violations
  check_quota q user_id r = elim (get user_id q) [
    | none ↦ some (true, [])
    | some quota ↦ verdict (violations quota r)
  ]

  abbrev pub is_amount : Value N → Bool
  is_amount other = false
  is_amount (numeric v) = not (less v nothing)

  -- `_validate_resources`: every value is a number, and none is `< 0`.
  unfoldable pub validate_resources : Amounts N → Bool
  validate_resources r =
      is_amount r.cpu_cores
      && is_amount r.memory_mb
      && is_amount r.storage_gb
      && is_amount r.gpu_count

  -- `+=`, of a value that `_validate_resources` has let through.
  abbrev pub raised : N → Value N → N
  raised used (numeric v) = plus used v
  raised used other = used

  unfoldable pub add_used : ResourceQuota N → Amounts N → ResourceQuota N
  add_used quota r = record quota {
    used_cpu_cores = raised quota.used_cpu_cores r.cpu_cores;
    used_memory_mb = raised quota.used_memory_mb r.memory_mb;
    used_storage_gb = raised quota.used_storage_gb r.storage_gb;
    used_gpus = raised quota.used_gpus r.gpu_count;
  }

  abbrev pub allocate_checked :
      Quotas N
      → String
      → ResourceQuota N
      → Amounts N
      → Option (Bool × List (Violation N))
      → Quotas N × Bool
  allocate_checked q user_id quota r (some (true, vs)) = (put user_id (add_used quota r) q, true)
  allocate_checked q user_id quota r _ = (q, false)

  unfoldable pub allocate_resources : Quotas N → String → Amounts N → Quotas N × Bool
  unfolding validate_resources check_quota add_used
  allocate_resources q user_id r = elim (get user_id q) [
    | none ↦ (q, true)
    | some quota ↦
        if validate_resources r
        then allocate_checked q user_id quota r (check_quota q user_id r)
        else (q, false)
  ]

  -- `max(0, used - v)`
  abbrev pub lowered : N → N → N
  lowered used v = if less nothing (minus used v) then minus used v else nothing

  -- The four updates of `release_resources`. The subtraction of a value that is no number raises,
  -- which is false: what was written before stays.
  abbrev remove_gpus : ResourceQuota N → Value N → ResourceQuota N × Bool
  remove_gpus quota other = (quota, false)
  remove_gpus quota (numeric v) = (record quota { used_gpus = lowered quota.used_gpus v }, true)

  abbrev remove_storage : ResourceQuota N → Value N → Value N → ResourceQuota N × Bool
  remove_storage quota other gpus = (quota, false)
  remove_storage quota (numeric v) gpus =
      remove_gpus (record quota { used_storage_gb = lowered quota.used_storage_gb v }) gpus

  abbrev remove_memory : ResourceQuota N → Value N → Value N → Value N → ResourceQuota N × Bool
  remove_memory quota other storage gpus = (quota, false)
  remove_memory quota (numeric v) storage gpus =
      remove_storage (record quota { used_memory_mb = lowered quota.used_memory_mb v }) storage gpus

  abbrev remove_cpu :
      ResourceQuota N → Value N → Value N → Value N → Value N → ResourceQuota N × Bool
  remove_cpu quota other memory storage gpus = (quota, false)
  remove_cpu quota (numeric v) memory storage gpus =
      remove_memory (record quota { used_cpu_cores = lowered quota.used_cpu_cores v }) memory
        storage gpus

  unfoldable pub remove_used : ResourceQuota N → Amounts N → ResourceQuota N × Bool
  remove_used quota r = remove_cpu quota r.cpu_cores r.memory_mb r.storage_gb r.gpu_count

  unfoldable pub release_resources : Quotas N → String → Amounts N → Quotas N × Bool
  unfolding remove_used
  release_resources q user_id r = elim (get user_id q) [
    | none ↦ (q, true)
    | some quota ↦ (put user_id (remove_used quota r).0 q, (remove_used quota r).1)
  ]
