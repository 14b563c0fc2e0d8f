-- ===== src/Scheduler/Placement/Soundness.antt =====
-- The invariant of the class `Scheduler` of src/scheduler/scheduler.py, and what single writes do
-- to it.
use disposable_compute_platf.Prelude.{
  String, ◌≡◌, ◌∙◌, false, none, some, [], arith, eq_iff, inl, inr, Option-cases,
}
use disposable_compute_platf.Prelude.Dict.{
  Dict, get, put, del, Distinct, get-put, get-del, put-cases, del-cases, put-Distinct, del-Distinct,
}
use disposable_compute_platf.Prelude.Float.{Float}
use disposable_compute_platf.Scheduler.Types.{Node, PodSpec, PodRequest, Assignment}
use disposable_compute_platf.Scheduler.Reservation.{short, take_resources, give_back, assignment}
use disposable_compute_platf.Scheduler.Reservation.Accounting.{
  IsBalanced, take_resources-IsBalanced, give_back-IsBalanced,
}

module _ {F : Type 0} where
  pub record IsSound (nodes : Dict (Node F)) (scheduled_pods : Dict String) : Type 0 where
    pub distinct : Distinct nodes
    pub keyed : (k : String) (n : Node F) → get k nodes ≡ some n → n.id ≡ k
    pub balanced : (k : String) (n : Node F) → get k nodes ≡ some n → IsBalanced n
    pub placed :
        (k p : String) (n : Node F) (a : Assignment F)
        → get k nodes ≡ some n
        → get p n.assigned_pods ≡ some a
        → get p scheduled_pods ≡ some k

  -- A pod that is not scheduled is on no node.
  pub IsSound-absent :
      {nodes : Dict (Node F)} {pods : Dict String} (k p : String) (n : Node F)
      → IsSound nodes pods
      → get p pods ≡ none
      → get k nodes ≡ some n
      → get p n.assigned_pods ≡ none
  IsSound-absent k p n s h e = elim (Option-cases (get p n.assigned_pods)) [
    | inl out ↦ out
    | inr (a, there) ↦ cc (s.placed k p n a e there)
  ]

module _ {F : Type 0} (fl : Float F) where
  pub id-take_resources :
      (now : F) (node : Node F) (request : PodRequest F)
      → (take_resources fl now node request).id ≡ node.id
  unfolding take_resources
  id-take_resources now node request = ground arith

  pub id-give_back :
      (node : Node F) (p : String) (spec : PodSpec F) → (give_back fl node p spec).id ≡ node.id
  unfolding give_back
  id-give_back node p spec = ground arith

module _ {F : Type 0} (fl : Float F) (nodes : Dict (Node F)) (pods : Dict String) where
  -- Placing a new pod on a node that has the resources keeps the invariant.
  module _ (now : F) (node : Node F) (request : PodRequest F) where
    place-placed :
        (k p : String) (n : Node F) (a : Assignment F)
        → get node.id nodes ≡ some node
        → get request.id pods ≡ none
        → IsSound nodes pods
        → get k (put node.id (take_resources fl now node request) nodes) ≡ some n
        → get p n.assigned_pods ≡ some a
        → get p (put request.id node.id pods) ≡ some k
    unfolding take_resources
    place-placed k p n a e fresh s h i =
        let node' = take_resources fl now node request in
        elim (put-cases node.id k node' n nodes h) [
          | inl (here, same) ↦
              let j : get p node'.assigned_pods ≡ some a = rw (← same) at i in
              elim (put-cases request.id p (assignment now request.pod_spec) a node.assigned_pods
                j) [
                  | inl (new, _) ↦
                      ground (arith, get-put request.id p node.id pods, eq_iff request.id p)
                  | inr (old, there) ↦
                      ground (
                        arith,
                        get-put request.id p node.id pods,
                        s.placed node.id p node a e there,
                      )
                ]
          | inr (other, there) ↦ ground (
            arith,
            get-put request.id p node.id pods,
            eq_iff request.id p,
            s.placed k p n a there i,
          )
        ]

    pub place-IsSound :
        get node.id nodes ≡ some node
        → get request.id pods ≡ none
        → short fl node request ≡ false
        → IsSound nodes pods
        → IsSound
            (put node.id (take_resources fl now node request) nodes)
            (put request.id node.id pods)
    place-IsSound e fresh fits s =
        let node' = take_resources fl now node request in
        let unheld = IsSound-absent node.id request.id node s fresh e in
        let balanced' =
          take_resources-IsBalanced fl now node request fits unheld (s.balanced node.id node e) in
        record {
          distinct = put-Distinct node.id node' nodes s.distinct;
          keyed = λ k n h. elim (put-cases node.id k node' n nodes h) [
            | inl (here, same) ↦ rw (← same) (id-take_resources fl now node request ∙ here)
            | inr (_, there) ↦ s.keyed k n there
          ];
          balanced = λ k n h. elim (put-cases node.id k node' n nodes h) [
            | inl (here, same) ↦ rw (← same) balanced'
            | inr (_, there) ↦ s.balanced k n there
          ];
          placed = λ k p n a h i. place-placed k p n a e fresh s h i;
        }

  -- Releasing a pod from its node and forgetting it keeps the invariant.
  module _ (k0 p0 : String) (node : Node F) (a0 : Assignment F) where
    remove-placed :
        (k p : String) (n : Node F) (a : Assignment F)
        → get k0 nodes ≡ some node
        → get p0 pods ≡ some k0
        → IsSound nodes pods
        → get k (put k0 (give_back fl node p0 a0.pod_spec) nodes) ≡ some n
        → get p n.assigned_pods ≡ some a
        → get p (del p0 pods) ≡ some k
    unfolding give_back
    remove-placed k p n a e mapped s h i =
        let node' = give_back fl node p0 a0.pod_spec in
        elim (put-cases k0 k node' n nodes h) [
          | inl (here, same) ↦
              let j : get p node'.assigned_pods ≡ some a = rw (← same) at i in
              let (kept, there) = del-cases p0 p a node.assigned_pods j in
              ground (arith, get-del p0 p pods, s.placed k0 p node a e there)
          | inr (other, there) ↦
              ground (arith, get-del p0 p pods, eq_iff p0 p, eq_iff k0 k, s.placed k p n a there i)
        ]

    pub remove-IsSound :
        get k0 nodes ≡ some node
        → get p0 pods ≡ some k0
        → get p0 node.assigned_pods ≡ some a0
        → IsSound nodes pods
        → IsSound (put k0 (give_back fl node p0 a0.pod_spec) nodes) (del p0 pods)
    remove-IsSound e mapped found s =
        let node' = give_back fl node p0 a0.pod_spec in
        let balanced' = give_back-IsBalanced fl node p0 a0 found (s.balanced k0 node e) in
        record {
          distinct = put-Distinct k0 node' nodes s.distinct;
          keyed = λ k n h. elim (put-cases k0 k node' n nodes h) [
            | inl (here, same) ↦
                rw (← same) (id-give_back fl node p0 a0.pod_spec ∙ s.keyed k0 node e ∙ here)
            | inr (_, there) ↦ s.keyed k n there
          ];
          balanced = λ k n h. elim (put-cases k0 k node' n nodes h) [
            | inl (here, same) ↦ rw (← same) balanced'
            | inr (_, there) ↦ s.balanced k n there
          ];
          placed = λ k p n a h i. remove-placed k p n a e mapped s h i;
        }

  -- Forgetting a pod whose node is gone keeps the invariant.
  pub forget-IsSound :
      (k0 p0 : String)
      → get p0 pods ≡ some k0
      → get k0 nodes ≡ none
      → IsSound nodes pods
      → IsSound nodes (del p0 pods)
  forget-IsSound k0 p0 mapped gone s = record {
    distinct = s.distinct;
    keyed = s.keyed;
    balanced = s.balanced;
    placed = λ k p n a h i. ground (arith, get-del p0 p pods, eq_iff p0 p, s.placed k p n a h i);
  }

  pub remove_node-IsSound : (k0 : String) → IsSound nodes pods → IsSound (del k0 nodes) pods
  remove_node-IsSound k0 s = record {
    distinct = del-Distinct k0 nodes s.distinct;
    keyed = λ k n h. s.keyed k n (del-cases k0 k n nodes h).1;
    balanced = λ k n h. s.balanced k n (del-cases k0 k n nodes h).1;
    placed = λ k p n a h i. s.placed k p n a (del-cases k0 k n nodes h).1 i;
  }

  -- A node joins with nothing on it.
  pub add_node-IsSound :
      (node : Node F)
      → node.assigned_pods ≡ []
      → IsBalanced node
      → IsSound nodes pods
      → IsSound (put node.id node nodes) pods
  add_node-IsSound node empty b s = record {
    distinct = put-Distinct node.id node nodes s.distinct;
    keyed = λ k n h. elim (put-cases node.id k node n nodes h) [
      | inl (here, same) ↦ cc
      | inr (_, there) ↦ s.keyed k n there
    ];
    balanced = λ k n h. elim (put-cases node.id k node n nodes h) [
      | inl (here, same) ↦ rw (← same) b
      | inr (_, there) ↦ s.balanced k n there
    ];
    placed = λ k p n a h i. elim (put-cases node.id k node n nodes h) [
      | inl (here, same) ↦ unfold get in ground (arith, empty)
      | inr (_, there) ↦ s.placed k p n a there i
    ];
  }
