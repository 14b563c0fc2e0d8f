-- ===== src/Scheduler/Reservation/Accounting.antt =====
-- The books of a node of src/scheduler/scheduler.py: what is available, and what its pods hold.
use disposable_compute_platf.Prelude.{
  ℕ, ◌+◌, String, ◌≡◌, false, Option, none, some, All, arith, eq_iff, inl, inr, Option-cases,
  Bool-cases,
}
use disposable_compute_platf.Prelude.Dict.{
  get, total, Distinct, get-put, get-del, put-Distinct, del-Distinct, total-put_new, total-del,
}
use disposable_compute_platf.Prelude.Float.{Float}
use disposable_compute_platf.Scheduler.Types.{
  GpuResource, Assignment, Node, PodRequest, gpu_demand, required_vram,
}
use disposable_compute_platf.Scheduler.Reservation.{
  reserve, release, short, take_resources, give_back, assignment,
}
use disposable_compute_platf.Scheduler.Reservation.Gpus.{
  held, Unclaimed, held-reserve_gpus_self, held-reserve_gpus_ne, held-release_gpus,
  reserve_gpus-Unclaimed, release_gpus-Unclaimed,
}

abbrev pub vram_of : Option GpuResource → ℕ
vram_of none = 0
vram_of (some g) = required_vram g

abbrev pub count_of : Option GpuResource → ℕ
count_of none = 0
count_of (some g) = g.count

module _ {F : Type 0} where
  abbrev pub memory_held : Assignment F → ℕ
  memory_held a = a.pod_spec.resource_requirements.memory_mb

  abbrev pub storage_held : Assignment F → ℕ
  storage_held a = a.pod_spec.resource_requirements.storage_gb

  abbrev pub vram_held : Assignment F → ℕ
  vram_held a = vram_of (gpu_demand a.pod_spec)

  abbrev pub gpus_held : Option (Assignment F) → ℕ
  gpus_held none = 0
  gpus_held (some a) = count_of (gpu_demand a.pod_spec)

  pub record IsBalanced (n : Node F) : Type 0 where
    pub distinct : Distinct n.assigned_pods
    pub memory : n.memory_available_mb + total memory_held n.assigned_pods ≡ n.memory_total_mb
    pub storage : n.storage_available_gb + total storage_held n.assigned_pods ≡ n.storage_total_gb
    pub vram : n.gpu_vram_available_mb + total vram_held n.assigned_pods ≡ n.gpu_vram_total_mb
    pub unclaimed : All Unclaimed n.gpu_devices
    pub gpus : (p : String) → held p n.gpu_devices ≡ gpus_held (get p n.assigned_pods)

module _ {F : Type 0} (fl : Float F) where
  module _ (now : F) (node : Node F) (request : PodRequest F) where
    reserve-gpus :
        (p : String)
        → short fl node request ≡ false
        → get request.id node.assigned_pods ≡ none
        → IsBalanced node
        → held p (take_resources fl now node request).gpu_devices
          ≡ gpus_held (get p (take_resources fl now node request).assigned_pods)
    unfolding take_resources short
    reserve-gpus p h fresh b = elim (Option-cases (gpu_demand request.pod_spec)) [
      | inl e ↦ ground (
        arith,
        e,
        get-put request.id p (assignment now request.pod_spec) node.assigned_pods,
        b.gpus p,
        eq_iff request.id p,
      )
      | inr (g, e) ↦ ground (
        arith,
        e,
        get-put request.id p (assignment now request.pod_spec) node.assigned_pods,
        b.gpus p,
        b.unclaimed,
        eq_iff request.id p,
        held-reserve_gpus_self g.count request.id 0 node.gpu_devices,
        held-reserve_gpus_ne g.count request.id p 0 node.gpu_devices,
      )
    ]

    pub take_resources-IsBalanced :
        short fl node request ≡ false
        → get request.id node.assigned_pods ≡ none
        → IsBalanced node
        → IsBalanced (take_resources fl now node request)
    unfolding short
    take_resources-IsBalanced h fresh b =
        let id = request.id in
        let pods = node.assigned_pods in
        let a = assignment now request.pod_spec in
        record {
          distinct = unfold take_resources in put-Distinct id a pods b.distinct;
          memory =
              unfold take_resources in
              ground (arith, b.memory, total-put_new memory_held id a pods fresh);
          storage =
              unfold take_resources in
              ground (arith, b.storage, total-put_new storage_held id a pods fresh);
          vram =
              unfold take_resources in
              ground (arith, b.vram, total-put_new vram_held id a pods fresh);
          unclaimed =
              unfold take_resources in
              elim (Option-cases (gpu_demand request.pod_spec)) [
                | inl e ↦ rw e b.unclaimed
                | inr (g, e) ↦
                    rw e (reserve_gpus-Unclaimed g.count id 0 node.gpu_devices b.unclaimed)
              ];
          gpus = λ p. reserve-gpus p h fresh b;
        }

    -- A reservation for a pod that the node does not hold, granted or refused, leaves the books of
    -- a balanced node balanced.
    pub reserve-IsBalanced :
        get request.id node.assigned_pods ≡ none
        → IsBalanced node
        → IsBalanced (reserve fl now node request).0
    unfolding reserve
    reserve-IsBalanced fresh b = elim (Bool-cases (short fl node request)) [
      | inl e ↦ rw e b
      | inr e ↦ rw e (take_resources-IsBalanced e fresh b)
    ]

  module _ (node : Node F) (p : String) (a : Assignment F)
      (found : get p node.assigned_pods ≡ some a) where
    give_back-gpus :
        (q : String)
        → IsBalanced node
        → held q (give_back fl node p a.pod_spec).gpu_devices
          ≡ gpus_held (get q (give_back fl node p a.pod_spec).assigned_pods)
    unfolding give_back
    give_back-gpus q b = elim (Option-cases (gpu_demand a.pod_spec)) [
      | inl e ↦ ground (arith, e, found, get-del p q node.assigned_pods, b.gpus q, eq_iff p q)
      | inr (g, e) ↦ ground (
        arith,
        e,
        get-del p q node.assigned_pods,
        b.gpus q,
        held-release_gpus p q node.gpu_devices,
      )
    ]

    pub give_back-IsBalanced : IsBalanced node → IsBalanced (give_back fl node p a.pod_spec)
    give_back-IsBalanced b =
        let pods = node.assigned_pods in
        record {
          distinct = unfold give_back in del-Distinct p pods b.distinct;
          memory =
              unfold give_back in
              ground (arith, b.memory, total-del memory_held p a pods b.distinct found);
          storage =
              unfold give_back in
              ground (arith, b.storage, total-del storage_held p a pods b.distinct found);
          vram =
              unfold give_back in
              ground (arith, b.vram, total-del vram_held p a pods b.distinct found);
          unclaimed =
              unfold give_back in
              elim (Option-cases (gpu_demand a.pod_spec)) [
                | inl e ↦ rw e b.unclaimed
                | inr (g, e) ↦ rw e (release_gpus-Unclaimed p node.gpu_devices b.unclaimed)
              ];
          gpus = λ q. give_back-gpus q b;
        }

  -- A release, of any pod, leaves the books of a balanced node balanced.
  pub release-IsBalanced :
      (node : Node F) (p : String) → IsBalanced node → IsBalanced (release fl node p).0
  unfolding release
  release-IsBalanced node p b = elim (Option-cases (get p node.assigned_pods)) [
    | inl e ↦ rw (e, release) b
    | inr (a, e) ↦ rw (e, release) (give_back-IsBalanced node p a e b)
  ]
