-- ===== src/Scheduler/Preemption/Order.antt =====
-- The order in which `find_preemption_candidates` of src/scheduler/scheduler.py takes pods.
use disposable_compute_platf.Prelude.{
  ℕ, ◌≤◌, String, ◌≡◌, Bool, List, [], ◌∷◌, ◌++◌, arith, All, All-imp, All-filter, filter, ltb,
  Bool-cases, inl, inr,
}
use mathlib.Core.Path.{subst}
use disposable_compute_platf.Scheduler.Types.{Assignment, Node, PodRequest}
use disposable_compute_platf.Scheduler.Preemption.{may_preempt, priority_of, insert_pod, sort_pods}
use disposable_compute_platf.Scheduler.Preemption.Candidates.{eligible}

module _ {F : Type 0} where
  abbrev rank : String × Assignment F → ℕ
  rank e = priority_of e.1

  abbrev Ascending : List (String × Assignment F) → Type 0
  Ascending [] = Unit
  Ascending (x ∷ xs) = All (λ y. rank x ≤ rank y) xs × Ascending xs

  insert_pod-All :
      (n : ℕ) (x : String × Assignment F) (ys : List (String × Assignment F))
      → n ≤ rank x
      → All (λ y. n ≤ rank y) ys
      → All (λ y. n ≤ rank y) (insert_pod x ys)
  unfolding insert_pod
  insert_pod-All n x [] h k = (h, tt)
  insert_pod-All n x (y ∷ ys) h k = elim (Bool-cases (ltb (rank y) (rank x))) [
    | inl e ↦ rw e (k.0, insert_pod-All n x ys h k.1)
    | inr e ↦ rw e (h, k)
  ]

  insert_pod-Ascending :
      (x : String × Assignment F) (ys : List (String × Assignment F))
      → Ascending ys
      → Ascending (insert_pod x ys)
  unfolding insert_pod
  insert_pod-Ascending x [] h = (tt, tt)
  insert_pod-Ascending x (y ∷ ys) h = elim (Bool-cases (ltb (rank y) (rank x))) [
    | inl e ↦ rw e (insert_pod-All (rank y) x ys (ground arith) h.0, insert_pod-Ascending x ys h.1)
    | inr e ↦
        let low : rank x ≤ rank y = ground arith in
        rw e ((low, All-imp ys (λ z k. omega arith) h.0), h)
  ]

  sort_pods-Ascending : (xs : List (String × Assignment F)) → Ascending (sort_pods xs)
  unfolding sort_pods
  sort_pods-Ascending [] = tt
  sort_pods-Ascending (x ∷ xs) = insert_pod-Ascending x (sort_pods xs) (sort_pods-Ascending xs)

  filter-Ascending :
      (keep : String × Assignment F → Bool) (xs : List (String × Assignment F))
      → Ascending xs
      → Ascending (filter keep xs)
  unfolding filter
  filter-Ascending keep [] h = tt
  filter-Ascending keep (x ∷ xs) h = elim (Bool-cases (keep x)) [
    | inl e ↦ rw e (All-filter (λ y. rank x ≤ rank y) keep xs h.0, filter-Ascending keep xs h.1)
    | inr e ↦ rw e (filter-Ascending keep xs h.1)
  ]

  All-rest :
      (P : String × Assignment F → Type 0) (xs ys : List (String × Assignment F))
      → All P (xs ++ ys)
      → All P ys
  All-rest P [] ys h = h
  All-rest P (x ∷ xs) ys h = All-rest P xs ys h.1

  Ascending-split :
      (xs ys : List (String × Assignment F))
      → Ascending (xs ++ ys)
      → All (λ x. All (λ y. rank x ≤ rank y) ys) xs
  Ascending-split [] ys h = tt
  Ascending-split (x ∷ xs) ys h =
      (All-rest (λ y. rank x ≤ rank y) xs ys h.0, Ascending-split xs ys h.1)

  -- When the pods that a request may evict from a node, in the order in which they are taken, are
  -- split into a first part and the rest, no pod of the first part has a higher priority than one
  -- of the rest.
  pub lowest_first :
      (request : PodRequest F) (node : Node F) (chosen rest : List (String × Assignment F))
      → eligible request node ≡ chosen ++ rest
      → All (λ c. All (λ r. priority_of c.1 ≤ priority_of r.1) rest) chosen
  lowest_first request node chosen rest e = Ascending-split chosen rest (
      subst Ascending e (
        filter-Ascending (λ x. may_preempt request x.1) (sort_pods node.assigned_pods)
          (sort_pods-Ascending node.assigned_pods)))
