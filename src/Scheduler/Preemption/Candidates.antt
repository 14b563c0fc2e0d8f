-- ===== src/Scheduler/Preemption/Candidates.antt =====
-- Who is evicted by `find_preemption_candidates` of src/scheduler/scheduler.py, and what that frees.
use disposable_compute_platf.Prelude.{
  ℕ, ◌+◌, ◌≤◌, ◌<◌, String, ◌≡◌, ◌≢◌, ◌⊎◌, inl, inr, refl, true, List, [], ◌∷◌, ◌++◌, map, arith,
  filter, sum_of, Bool-cases, leb→le, eq_iff, ap,
}
use disposable_compute_platf.Prelude.Int.{ℤ, pos, pos_part, neg_part, ◌-ℤ◌, leb_ℤ, -ℤ_parts}
use disposable_compute_platf.Prelude.Float.{Float}
use disposable_compute_platf.Scheduler.Types.{Assignment, Node, PodRequest, gpu_demand}
use disposable_compute_platf.Scheduler.Reservation.Accounting.{
  memory_held, storage_held, vram_held, vram_of, count_of,
}
use disposable_compute_platf.Scheduler.Preemption.{
  Needed, may_preempt, priority_of, tier_or_default, sort_pods, initial_need, subtract, is_covered,
  collect, find_preemption_candidates,
}

module _ {F : Type 0} where
  abbrev pub ids : List (String × Assignment F) → List String
  ids = map (λ e. e.0)

  abbrev pub gpu_count_held : Assignment F → ℕ
  gpu_count_held a = count_of (gpu_demand a.pod_spec)

  -- The pods that the request may evict, lowest priority first.
  abbrev pub eligible : PodRequest F → Node F → List (String × Assignment F)
  eligible request node = filter (λ e. may_preempt request e.1) (sort_pods node.assigned_pods)

  -- A pod that a request may evict has a priority below that of the request and neither of the
  -- tiers enterprise and pro.
  pub may_preempt_lem :
      (request : PodRequest F) (info : Assignment F)
      → may_preempt request info ≡ true
      → (priority_of info < request.priority)
        × (tier_or_default info.user_tier ≢ "enterprise")
        × (tier_or_default info.user_tier ≢ "pro")
  unfolding may_preempt
  may_preempt_lem request info h =
      let e = eq_iff (tier_or_default info.user_tier) "enterprise" in
      let p = eq_iff (tier_or_default info.user_tier) "pro" in
      (ground arith, ground (arith, e), ground (arith, p))

module _ {F : Type 0} (fl : Float F) where
  -- What is still needed when some pods are gone.
  unfoldable pub need_after : Needed F → List (String × Assignment F) → Needed F
  need_after needed [] = needed
  need_after needed (e ∷ es) = need_after (subtract fl needed e.1.pod_spec) es

  -- The loop takes a prefix of the eligible pods: all of them, or one that covers the need.
  pub record Takes (needed : Needed F) (es : List (String × Assignment F)) (pods : List String)
      : Type 0 where
    pub chosen : List (String × Assignment F)
    pub rest : List (String × Assignment F)
    pub split : es ≡ chosen ++ rest
    pub taken : pods ≡ ids chosen
    pub enough : (rest ≡ []) ⊎ (is_covered fl (need_after needed chosen) ≡ true)

  Takes-more :
      (needed : Needed F) (e : String × Assignment F) (es : List (String × Assignment F))
      (pods : List String)
      → Takes (subtract fl needed e.1.pod_spec) es pods
      → Takes needed (e ∷ es) (e.0 ∷ pods)
  unfolding need_after
  Takes-more needed e es pods t = record {
    chosen = e ∷ t.chosen;
    rest = t.rest;
    split = ap (◌∷◌ e) t.split;
    taken = ap (◌∷◌ e.0) t.taken;
    enough = t.enough;
  }

  collect-Takes :
      (request : PodRequest F) (needed : Needed F) (es : List (String × Assignment F))
      → Takes needed (filter (λ e. may_preempt request e.1) es) (collect fl request needed es)
  unfolding collect filter
  collect-Takes request needed [] = record {
    chosen = [];
    rest = [];
    split = refl;
    taken = refl;
    enough = inl refl;
  }
  collect-Takes request needed (e ∷ es) = elim (Bool-cases (may_preempt request e.1)) [
    | inl m ↦ elim (Bool-cases (is_covered fl (subtract fl needed e.1.pod_spec))) [
      | inl c ↦
          rw (m, c)
            (record {
              chosen = e ∷ [];
              rest = filter (λ x. may_preempt request x.1) es;
              split = refl;
              taken = refl;
              enough = inr (unfold need_after in c);
            })
      | inr c ↦
          rw (m, c)
            (Takes-more needed e (filter (λ x. may_preempt request x.1) es)
              (collect fl request (subtract fl needed e.1.pod_spec) es)
              (collect-Takes request (subtract fl needed e.1.pod_spec) es))
    ]
    | inr m ↦ rw m (collect-Takes request needed es)
  ]

  -- The arithmetic of `needed`, for any of its whole amounts.
  module _ (amount : Needed F → ℤ) (held : Assignment F → ℕ) where
    abbrev Subtracts : Type 0
    Subtracts =
        (n : Needed F) (a : Assignment F)
        → amount (subtract fl n a.pod_spec) ≡ amount n -ℤ pos (held a)

    amount-need_after :
        Subtracts
        → (needed : Needed F) (es : List (String × Assignment F))
        → pos_part (amount (need_after needed es))
            + neg_part (amount needed)
            + sum_of (λ e. held e.1) es
          ≡ neg_part (amount (need_after needed es)) + pos_part (amount needed)
    unfolding need_after sum_of
    amount-need_after step needed [] = omega arith
    amount-need_after step needed (e ∷ es) =
        let needed' = subtract fl needed e.1.pod_spec in
        let now : amount needed' ≡ amount needed -ℤ pos (held e.1) = step needed e.1 in
        omega (
          arith,
          amount-need_after step needed' es,
          ap pos_part now,
          ap neg_part now,
          -ℤ_parts (amount needed) (pos (held e.1)),
        )

    freed :
        Subtracts
        → (needed : Needed F) (es : List (String × Assignment F)) (need : ℕ)
        → amount needed ≡ pos need
        → leb_ℤ (amount (need_after needed es)) (pos 0) ≡ true
        → need ≤ sum_of (λ e. held e.1) es
    freed step needed es need e h = omega (
      arith,
      amount-need_after step needed es,
      ap pos_part e,
      ap neg_part e,
      leb→le (pos_part (amount (need_after needed es)) + 0)
          (0 + neg_part (amount (need_after needed es))) h,
    )

  memory-subtract : Subtracts (λ n. n.memory) memory_held
  unfolding subtract
  memory-subtract n a = ground arith

  storage-subtract : Subtracts (λ n. n.storage) storage_held
  unfolding subtract
  storage-subtract n a = ground arith

  vram-subtract : Subtracts (λ n. n.vram) vram_held
  unfolding subtract ◌-ℤ◌
  vram-subtract n a = ground arith

  gpus-subtract : Subtracts (λ n. n.gpu_count) gpu_count_held
  unfolding subtract ◌-ℤ◌
  gpus-subtract n a = ground arith

  -- What the chosen pods hold, in sum, is as much as the request needs.
  pub record Suffices (request : PodRequest F) (chosen : List (String × Assignment F))
      : Type 0 where
    pub memory :
        request.pod_spec.resource_requirements.memory_mb ≤ sum_of (λ e. memory_held e.1) chosen
    pub storage :
        request.pod_spec.resource_requirements.storage_gb ≤ sum_of (λ e. storage_held e.1) chosen
    pub vram : vram_of (gpu_demand request.pod_spec) ≤ sum_of (λ e. vram_held e.1) chosen
    pub gpus : count_of (gpu_demand request.pod_spec) ≤ sum_of (λ e. gpu_count_held e.1) chosen

  Suffices-of_covered :
      (request : PodRequest F) (chosen : List (String × Assignment F))
      → is_covered fl (need_after (initial_need request.pod_spec) chosen) ≡ true
      → Suffices request chosen
  unfolding is_covered initial_need
  Suffices-of_covered request chosen h =
      let n = initial_need request.pod_spec in
      let r = request.pod_spec.resource_requirements in
      record {
        memory =
            freed (λ n. n.memory) memory_held memory-subtract n chosen r.memory_mb refl
              (ground arith);
        storage =
            freed (λ n. n.storage) storage_held storage-subtract n chosen r.storage_gb refl
              (ground arith);
        vram =
            freed (λ n. n.vram) vram_held vram-subtract n chosen
              (vram_of (gpu_demand request.pod_spec)) (ground arith) (ground arith);
        gpus =
            freed (λ n. n.gpu_count) gpu_count_held gpus-subtract n chosen
              (count_of (gpu_demand request.pod_spec)) (ground arith) (ground arith);
      }

  -- The candidates are a prefix of the pods that may be evicted, in the order that `sort_pods`
  -- gives them; either all of these are candidates, or the memory, storage, VRAM and GPUs that the
  -- candidates hold are together at least what the request asks for.
  pub find_preemption_candidates-Suffices :
      (node : Node F) (request : PodRequest F)
      → (chosen rest : List (String × Assignment F)) × (find_preemption_candidates fl node request
          ≡ ids chosen)
        × (eligible request node ≡ chosen ++ rest)
        × ((rest ≡ []) ⊎ Suffices request chosen)
  unfolding find_preemption_candidates
  find_preemption_candidates-Suffices node request =
      let t =
        collect-Takes request (initial_need request.pod_spec) (sort_pods node.assigned_pods) in
      (t.chosen, t.rest, t.taken, t.split, either t.enough)
    where
      either :
          {chosen rest : List (String × Assignment F)}
          → (rest ≡ []) ⊎ (is_covered fl (need_after (initial_need request.pod_spec) chosen) ≡ true)
          → (rest ≡ []) ⊎ Suffices request chosen
      either (inl e) = inl e
      either {chosen} (inr c) = inr (Suffices-of_covered request chosen c)
