-- ===== src/Scheduler/Queue.antt =====
-- `PriorityQueue` of src/scheduler/scheduler.py. Python's `heapq` is an interface: what it documents
-- of a list that is a heap are its laws.
mod Permutations
pub mod Order
pub mod Refinement
use mathlib.Core.List.{Permᴰ}
use disposable_compute_platf.Prelude.{
  ℕ, suc, ◌≡◌, Bool, true, false, Option, none, some, List, [], ◌∷◌, ltb, ◌==◌, ◌&&◌, ◌||◌, All,
}
use disposable_compute_platf.Scheduler.Types.{PodRequest}

-- The tuple `(-request.priority, self.counter, request)`; the priority is kept with its own sign.
pub record Entry (F : Type 0) : Type 0 where
  pub priority : ℕ
  pub counter : ℕ
  pub request : PodRequest F

module _ {F : Type 0} where
  -- Tuples compare from the left. Counters differ, so requests are never compared.
  abbrev pub before : Entry F → Entry F → Bool
  before x y = ltb y.priority x.priority || (x.priority == y.priority && ltb x.counter y.counter)

pub record Heapq (F : Type 0) : Type 1 where
  pub heappush : List (Entry F) → Entry F → List (Entry F)
  -- Of a list that is not empty: the smallest item, and the rest.
  pub heappop : Entry F → List (Entry F) → Entry F × List (Entry F)
  pub IsHeap : List (Entry F) → Type 0
  pub IsHeap-empty : IsHeap []
  pub heappush-IsHeap : (q : List (Entry F)) (e : Entry F) → IsHeap q → IsHeap (heappush q e)
  pub heappush-perm : (q : List (Entry F)) (e : Entry F) → Permᴰ (heappush q e) (e ∷ q)
  pub heappop-IsHeap : (x : Entry F) (q : List (Entry F)) → IsHeap (x ∷ q) → IsHeap (heappop x q).1
  pub heappop-perm :
      (x : Entry F) (q : List (Entry F)) → Permᴰ (x ∷ q) ((heappop x q).0 ∷ (heappop x q).1)
  pub heappop-smallest :
      (x : Entry F) (q : List (Entry F))
      → IsHeap (x ∷ q)
      → All (λ y. before y (heappop x q).0 ≡ false) (heappop x q).1
  -- `heap[0]` is the smallest item.
  pub heappop-first : (x : Entry F) (q : List (Entry F)) → IsHeap (x ∷ q) → (heappop x q).0 ≡ x

pub record PriorityQueue (F : Type 0) : Type 0 where
  pub queue : List (Entry F)
  pub counter : ℕ

abbrev pub new_queue : {F : Type 0} → PriorityQueue F
new_queue = record { queue = []; counter = 0 }

module _ {F : Type 0} (heapq : Heapq F) where
  open heapq use {heappush, heappop}

  unfoldable pub push : PriorityQueue F → PodRequest F → PriorityQueue F
  push s request = record {
    queue =
        heappush s.queue
          (record { priority = request.priority; counter = s.counter; request = request });
    counter = suc s.counter;
  }

  unfoldable pub pop : PriorityQueue F → PriorityQueue F × Option (PodRequest F)
  pop s = elim s.queue [
    | [] ↦ (s, none)
    | x ∷ q ↦ (record s { queue = (heappop x q).1 }, some (heappop x q).0.request)
  ]

unfoldable pub peek : {F : Type 0} → PriorityQueue F → Option (PodRequest F)
peek s = elim s.queue [ [] ↦ none | x ∷ q ↦ some x.request ]

unfoldable pub is_empty : {F : Type 0} → PriorityQueue F → Bool
is_empty s = elim s.queue [ [] ↦ true | x ∷ q ↦ false ]
