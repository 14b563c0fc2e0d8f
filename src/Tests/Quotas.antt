-- ===== src/Tests/Quotas.antt =====
-- Users and their quotas.
use disposable_compute_platf.Prelude.{
  String, ◌≡◌, refl, true, Option, none, some, [], ◌∷◌, arith, ltb, str_eq, Bool-cases, inl, inr,
  ◌+◌, if◌then◌else◌,
}
use mathlib.Core.Path.{subst}
use disposable_compute_platf.Prelude.Dict.{get}
use disposable_compute_platf.Prelude.Int.{ℤ, pos, negsuc}
use disposable_compute_platf.Quota.Usage.{
  User, passes, exceeded, require_quota, usage_of, get_quota,
}
use disposable_compute_platf.Quota.Usage.Limits.{
  guarded, hourly, calls, require_quota_lem, IsWithin, calls-IsWithin,
}
use disposable_compute_platf.Quota.Resources.{
  ResourceQuota, Amounts, Quotas, numeric, other, allocate_resources, release_resources,
}
use disposable_compute_platf.Quota.Resources.Bounds.{
  AllWithin, IsWithinQuota, allocate_resources-AllWithin, release_negative, memory_alone,
  allocate_nan,
}
use disposable_compute_platf.Tests.Integers.{integers}

abbrev tier_of : String → String
tier_of id = "free"

abbrev user : User
user = record { id = "u1"; tier = "free" }

calls-IsWithin_example : IsWithin tier_of (
    calls [] (
      guarded "concurrent_sessions" (some user)
      ∷ guarded "sessions_per_hour" (some user)
      ∷ hourly
      ∷ []))
unfolding usage_of get
calls-IsWithin_example =
    calls-IsWithin tier_of []
      (guarded "concurrent_sessions" (some user)
        ∷ guarded "sessions_per_hour" (some user)
        ∷ hourly
        ∷ [])
      (refl, (refl, (tt, tt))) (λ i m. omega arith)

abbrev used : ResourceQuota (Option ℤ)
used = record {
  max_cpu_cores = some (pos 4);
  max_memory_mb = some (pos 8);
  max_storage_gb = some (pos 10);
  max_gpus = some (pos 1);
  used_cpu_cores = some (pos 1);
  used_memory_mb = some (pos 8);
  used_storage_gb = some (pos 0);
  used_gpus = some (pos 0);
}

used_IsWithin : IsWithinQuota integers used
used_IsWithin = record {
  cpu = (refl, refl);
  memory = (refl, refl);
  storage = (refl, refl);
  gpus = (refl, refl);
}

abbrev users : Quotas (Option ℤ)
users = ("u1", used) ∷ []

users-AllWithin : AllWithin integers users
unfolding get
users-AllWithin = λ i quota e. elim (Bool-cases (str_eq "u1" i)) [
  | inl h ↦ subst (IsWithinQuota integers) (ground arith) used_IsWithin
  | inr h ↦ absurd (ground arith)
]

abbrev amounts : ℤ → Amounts (Option ℤ)
amounts memory = record {
  cpu_cores = numeric (some (pos 1));
  memory_mb = numeric (some memory);
  storage_gb = numeric (some (pos 1));
  gpu_count = other;
}

allocate_resources-AllWithin_example :
    AllWithin integers (allocate_resources integers users "u1" (amounts (pos 0))).0
allocate_resources-AllWithin_example =
    allocate_resources-AllWithin integers users "u1" (amounts (pos 0))
      (record { cpu = refl; memory = refl; storage = refl; gpus = tt }) users-AllWithin

allocate_nan_example :
    ((allocate_resources integers users "u1" (memory_alone integers none)).1 ≡ true)
    × ¬ AllWithin integers (allocate_resources integers users "u1" (memory_alone integers none)).0
unfolding get
allocate_nan_example = allocate_nan integers users "u1" used none refl refl used_IsWithin

release_negative_example :
    ¬ AllWithin integers (release_resources integers users "u1" (amounts (negsuc 2))).0
unfolding get
release_negative_example =
    release_negative integers users "u1" (amounts (negsuc 2)) used (some (pos 1)) (pos 8) (negsuc 2)
      refl (omega arith) refl refl refl refl refl

require_quota_lem_example :
    ((require_quota "concurrent_sessions" [] (some user)).1 ≡ (
      if ltb (usage_of [] "u1" "concurrent_sessions") (get_quota "free" "concurrent_sessions")
      then passes
      else exceeded (get_quota "free" "concurrent_sessions")))
    × (usage_of (require_quota "concurrent_sessions" [] (some user)).0 "u1" "concurrent_sessions"
        ≡ (if ltb (usage_of [] "u1" "concurrent_sessions") (get_quota "free" "concurrent_sessions")
            then (if str_eq "u1" "u1"
                then (if str_eq "concurrent_sessions" "concurrent_sessions"
                    then usage_of [] "u1" "concurrent_sessions" + 1
                    else usage_of [] "u1" "concurrent_sessions")
                else usage_of [] "u1" "concurrent_sessions")
            else usage_of [] "u1" "concurrent_sessions"))
require_quota_lem_example =
    require_quota_lem "concurrent_sessions" [] user "u1" "concurrent_sessions"
