-- ===== src/Quota/Resources/Bounds.antt =====
-- The resource quotas of src/optimization/resource_manager.py against their maxima.
use disposable_compute_platf.Prelude.{
  String, ◌≡◌, refl, true, false, Option, some, none, List, [], ◌∷◌, eq_iff, arith, Bool-cases,
  Option-cases, inl, inr,
}
use mathlib.Core.Path.{subst, sym, ◌∙◌}
use mathlib.Core.Bool.{true≢false}
use disposable_compute_platf.Prelude.Dict.{get, put, get-put, put-cases}
use disposable_compute_platf.Prelude.Int.{ℤ, pos, ◌≤ℤ◌, ltb_ℤ, ◌-ℤ◌, -ℤ_parts}
use disposable_compute_platf.Quota.Resources.{
  Numeric, ResourceQuota, Value, numeric, other, Amounts, Violation, Quotas, nothing, exceeds,
  violations, verdict, check_quota, is_amount, validate_resources, raised, add_used,
  allocate_checked, allocate_resources, lowered, remove_used, release_resources,
}

module _ {N : Type 0} (num : Numeric N) where
  open num use {whole, plus, minus, less, at_most, is_nan}

  -- From 0 to the maximum.
  abbrev pub IsWithin : N → N → Type 0
  IsWithin used most = (at_most (nothing num) used ≡ true) × (at_most used most ≡ true)

  -- Each amount in use is a number from 0 to its maximum.
  pub record IsWithinQuota (quota : ResourceQuota N) : Type 0 where
    pub cpu : IsWithin quota.used_cpu_cores quota.max_cpu_cores
    pub memory : IsWithin quota.used_memory_mb quota.max_memory_mb
    pub storage : IsWithin quota.used_storage_gb quota.max_storage_gb
    pub gpus : IsWithin quota.used_gpus quota.max_gpus

  abbrev pub IsProper : Value N → Type 0
  IsProper (numeric v) = is_nan v ≡ false
  IsProper other = Unit

  -- No amount is nan.
  pub record AreProper (r : Amounts N) : Type 0 where
    pub cpu : IsProper r.cpu_cores
    pub memory : IsProper r.memory_mb
    pub storage : IsProper r.storage_gb
    pub gpus : IsProper r.gpu_count

  raise-IsWithin :
      (used most v : N)
      → is_nan v ≡ false
      → less v (nothing num) ≡ false
      → less most (plus used v) ≡ false
      → IsWithin used most
      → IsWithin (plus used v) most
  raise-IsWithin used most v proper least room (low, high) =
      let zero_proper = num.whole_nan (pos 0) in
      let v_low = num.not_less v (nothing num) proper zero_proper least in
      let sum_low = num.plus_nonneg used v low v_low in
      (
        sum_low,
        num.not_less most (plus used v) (num.at_most_nan used most high).1
            (num.at_most_nan (nothing num) (plus used v) sum_low).1 room,
      )

  -- What a test of `check_quota` that lists nothing has found, and that the later ones list nothing.
  passed :
      (violation : N → N → Violation N) (used most : N) (x : Value N)
      (rest : Option (List (Violation N)))
      → is_amount num x ≡ true
      → IsProper x
      → exceeds num violation used most x rest ≡ some []
      → IsWithin used most
      → IsWithin (raised num used x) most × (rest ≡ some [])
  passed violation used most other rest a p h w = cc
  passed violation used most (numeric v) none a p h w = cc
  passed violation used most (numeric v) (some vs) a p h w =
      let room : less most (plus used v) ≡ false = ground arith in
      (raise-IsWithin used most v p (ground arith) room w, ground arith)

  -- Allocating what is checked keeps the quota.
  add_used-IsWithinQuota :
      (quota : ResourceQuota N) (r : Amounts N)
      → validate_resources num r ≡ true
      → AreProper r
      → violations num quota r ≡ some []
      → IsWithinQuota quota
      → IsWithinQuota (add_used num quota r)
  unfolding validate_resources violations add_used
  add_used-IsWithinQuota quota r v p none_listed h =
      let (cpu', h1) =
        passed Violation.cpu_exceeded quota.used_cpu_cores quota.max_cpu_cores r.cpu_cores _
          (ground arith) p.cpu none_listed h.cpu in
      let (memory', h2) =
        passed Violation.memory_exceeded quota.used_memory_mb quota.max_memory_mb r.memory_mb _
          (ground arith) p.memory h1 h.memory in
      let (storage', h3) =
        passed Violation.storage_exceeded quota.used_storage_gb quota.max_storage_gb r.storage_gb _
          (ground arith) p.storage h2 h.storage in
      let (gpus', h4) =
        passed Violation.gpus_exceeded quota.used_gpus quota.max_gpus r.gpu_count _ (ground arith)
          p.gpus h3 h.gpus in
      record { cpu = cpu'; memory = memory'; storage = storage'; gpus = gpus' }

  abbrev pub AllWithin : Quotas N → Type 0
  AllWithin q = (i : String) (quota : ResourceQuota N) → get i q ≡ some quota → IsWithinQuota quota

  put-AllWithin :
      (q : Quotas N) (i : String) (quota : ResourceQuota N)
      → IsWithinQuota quota
      → AllWithin q
      → AllWithin (put i quota q)
  put-AllWithin q i quota w h = λ j other e. elim (put-cases i j quota other q e) [
    | inl (_, same) ↦ subst IsWithinQuota same w
    | inr (_, there) ↦ h j other there
  ]

  checked-AllWithin :
      (q : Quotas N) (i : String) (quota : ResourceQuota N) (r : Amounts N)
      (vs : Option (List (Violation N)))
      → violations num quota r ≡ vs
      → validate_resources num r ≡ true
      → AreProper r
      → IsWithinQuota quota
      → AllWithin q
      → AllWithin (allocate_checked num q i quota r (verdict num vs)).0
  checked-AllWithin q i quota r none e v p w h = h
  checked-AllWithin q i quota r (some []) e v p w h =
      put-AllWithin q i (add_used num quota r) (add_used-IsWithinQuota quota r v p e w) h
  checked-AllWithin q i quota r (some (x ∷ xs)) e v p w h = h

  -- When each amount that a user with a quota has in use is from 0 to its maximum, so it is for
  -- every user after `allocate_resources`, granted or refused, of any values among which no number
  -- is nan: ints and floats of either sign, and values that are no numbers.
  pub allocate_resources-AllWithin :
      (q : Quotas N) (i : String) (r : Amounts N)
      → AreProper r
      → AllWithin q
      → AllWithin (allocate_resources num q i r).0
  unfolding allocate_resources
  allocate_resources-AllWithin q i r p h = elim (Option-cases (get i q)) [
    | inl e ↦ rw (e, allocate_resources) h
    | inr (quota, e) ↦ elim (Bool-cases (validate_resources num r)) [
      | inr v ↦ rw (e, v, allocate_resources) h
      | inl v ↦
          rw (e, v, allocate_resources)
            (rw (e, check_quota)
              (checked-AllWithin q i quota r (violations num quota r) refl v p (h i quota e) h))
    ]
  ]

  -- A request of nothing but that much memory.
  abbrev pub memory_alone : N → Amounts N
  memory_alone v = record {
    cpu_cores = numeric (nothing num);
    memory_mb = numeric v;
    storage_gb = numeric (nothing num);
    gpu_count = numeric (nothing num);
  }

  is_amount-nothing : is_amount num (numeric (nothing num)) ≡ true
  is_amount-nothing = ground (arith, num.less_whole (pos 0) (pos 0))

  nan-IsValid : (v : N) → is_nan v ≡ true → validate_resources num (memory_alone v) ≡ true
  unfolding validate_resources
  nan-IsValid v n = ground (arith, is_amount-nothing, num.less_nan (nothing num) v)

  room_for_nothing :
      (used most : N) → IsWithin used most → less most (plus used (nothing num)) ≡ false
  room_for_nothing used most w = num.less_plus_zero used most ∙ num.at_most_less used most w.1

  nan-is_granted :
      (quota : ResourceQuota N) (v : N)
      → is_nan v ≡ true
      → IsWithinQuota quota
      → violations num quota (memory_alone v) ≡ some []
  unfolding violations
  nan-is_granted quota v n w =
      let memory : less quota.max_memory_mb (plus quota.used_memory_mb v) ≡ false =
        (num.less_nan quota.max_memory_mb (plus quota.used_memory_mb v)
          (num.plus_nan quota.used_memory_mb v n)).0 in
      rw
        (
          room_for_nothing quota.used_cpu_cores quota.max_cpu_cores w.cpu,
          room_for_nothing quota.used_storage_gb quota.max_storage_gb w.storage,
          room_for_nothing quota.used_gpus quota.max_gpus w.gpus,
          memory,
        )
        refl

  nan-breaks :
      (quota : ResourceQuota N) (v : N)
      → is_nan v ≡ true
      → ¬ IsWithinQuota (add_used num quota (memory_alone v))
  unfolding add_used
  nan-breaks quota v n w = cc (
    (num.at_most_nan (plus quota.used_memory_mb v) quota.max_memory_mb w.memory.1).0,
    num.plus_nan quota.used_memory_mb v n,
  )

  put-breaks :
      (q : Quotas N) (i : String) (quota : ResourceQuota N)
      → ¬ IsWithinQuota quota
      → ¬ AllWithin (put i quota q)
  put-breaks q i quota out all = out (all i quota (ground (arith, get-put i i quota q, eq_iff i i)))

  -- `_validate_resources` and `check_quota`
  pub allocate_nan :
      (q : Quotas N) (i : String) (quota : ResourceQuota N) (v : N)
      → get i q ≡ some quota
      → is_nan v ≡ true
      → IsWithinQuota quota
      → ((allocate_resources num q i (memory_alone v)).1 ≡ true)
        × ¬ AllWithin (allocate_resources num q i (memory_alone v)).0
  unfolding allocate_resources check_quota
  allocate_nan q i quota v e n w =
      let granted : allocate_resources num q i (memory_alone v)
          ≡ (put i (add_used num quota (memory_alone v)) q, true) =
        rw (e, allocate_resources)
          (rw (nan-IsValid v n) (rw (e, check_quota) (rw (nan-is_granted quota v n w) refl))) in
      rw granted (refl, put-breaks q i (add_used num quota (memory_alone v)) (nan-breaks quota v n))

  lowered_whole :
      (used v : ℤ)
      → pos 0 ≤ℤ used
      → ltb_ℤ v (pos 0) ≡ true
      → at_most (lowered num (whole used) (whole v)) (whole used) ≡ false
  lowered_whole used v low negative =
      let more : less (nothing num) (whole (used -ℤ v)) ≡ true =
        num.less_whole (pos 0) (used -ℤ v) ∙ ground (arith, -ℤ_parts used v) in
      let above : at_most (whole (used -ℤ v)) (whole used) ≡ false =
        num.at_most_whole (used -ℤ v) used ∙ ground (arith, -ℤ_parts used v) in
      rw (num.minus_whole used v) (rw more above)

  -- What comes after the memory leaves it and its maximum alone.
  memory-remove :
      (quota : ResourceQuota N) (r : Amounts N) (cpu v : N)
      → r.cpu_cores ≡ numeric cpu
      → r.memory_mb ≡ numeric v
      → ((remove_used num quota r).0.used_memory_mb ≡ lowered num quota.used_memory_mb v)
        × ((remove_used num quota r).0.max_memory_mb ≡ quota.max_memory_mb)
  unfolding remove_used
  memory-remove quota r cpu v c m = ground arith

  -- `release_resources` does not check its amounts: when a user's memory in use is an integer that
  -- is not negative and equals the maximum, releasing a negative integer of memory, beside an
  -- amount of CPU that is a number, leaves a user with an amount in use that is not from 0 to its
  -- maximum.
  pub release_negative :
      (q : Quotas N) (i : String) (r : Amounts N) (quota : ResourceQuota N) (cpu : N) (used v : ℤ)
      → get i q ≡ some quota
      → pos 0 ≤ℤ used
      → quota.used_memory_mb ≡ whole used
      → quota.max_memory_mb ≡ whole used
      → r.cpu_cores ≡ numeric cpu
      → r.memory_mb ≡ numeric (whole v)
      → ltb_ℤ v (pos 0) ≡ true
      → ¬ AllWithin (release_resources num q i r).0
  unfolding release_resources
  release_negative q i r quota cpu used v e low full most c m negative =
      let (lower, same) = memory-remove quota r cpu (whole v) c m in
      rw (e, release_resources)
        (put-breaks q i (remove_used num quota r).0 (λ w. absurd (
          true≢false
            (sym w.memory.1 ∙ rw (lower, same, full, most) (lowered_whole used v low negative)))))
