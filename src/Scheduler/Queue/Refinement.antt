-- ===== src/Scheduler/Queue/Refinement.antt =====
-- `PriorityQueue` of src/scheduler/scheduler.py as an implementation of a line of requests.
use mathlib.Core.Bool.{true≢false}
use mathlib.Core.Path.{subst}
use mathlib.Core.List.{Permᴰ}
use mathlib.Core.List.Permᴰ
use disposable_compute_platf.Prelude.{
  ℕ, suc, ◌≡◌, refl, sym, ap, ◌∙◌, Bool, true, false, Option, none, some, List, [], ◌∷◌, map, All,
  All-imp, arith,
}
use disposable_compute_platf.Scheduler.Types.{PodRequest}
use disposable_compute_platf.Scheduler.Queue.{
  Entry, before, Heapq, PriorityQueue, new_queue, push, pop, peek, is_empty,
}
use disposable_compute_platf.Scheduler.Queue.Permutations.{
  Removes, here, there, Removes-Perm, All-Perm, All-Removes,
}
use disposable_compute_platf.Scheduler.Queue.Order.{
  enqueue, insert_entry, InOrder, IsEntry, insert-perm, insert-line, All-insert, insert-InOrder,
}

pub data Op (F : Type 0) : Type 0 where
  push_op : PodRequest F → Op F
  pop_op peek_op is_empty_op : Op F

pub data Answer (F : Type 0) : Type 0 where
  nothing : Answer F
  found : Option (PodRequest F) → Answer F
  flag : Bool → Answer F

module _ {F : Type 0} where
  -- What each operation does to a line.
  abbrev pub in_line : Op F → List (PodRequest F) → List (PodRequest F) × Answer F
  in_line (push_op r) line = (enqueue r line, nothing)
  in_line pop_op [] = ([], found none)
  in_line pop_op (r ∷ line) = (line, found (some r))
  in_line peek_op [] = ([], found none)
  in_line peek_op (r ∷ line) = (r ∷ line, found (some r))
  in_line is_empty_op [] = ([], flag true)
  in_line is_empty_op (r ∷ line) = (r ∷ line, flag false)

  unfoldable pub answers_in_line : List (Op F) → List (PodRequest F) → List (Answer F)
  answers_in_line [] line = []
  answers_in_line (op ∷ ops) line =
      let (next, answer) = in_line op line in answer ∷ answers_in_line ops next

cons_both : {A : Type 0} {x y : A} {xs ys : List A} → x ≡ y → xs ≡ ys → x ∷ xs ≡ y ∷ ys
cons_both h t = cc

module _ {F : Type 0} (heapq : Heapq F) where
  abbrev pub in_queue : Op F → PriorityQueue F → PriorityQueue F × Answer F
  in_queue (push_op r) s = (push heapq s r, nothing)
  in_queue pop_op s = let (next, r) = pop heapq s in (next, found r)
  in_queue peek_op s = (s, found (peek s))
  in_queue is_empty_op s = (s, flag (is_empty s))

  unfoldable pub answers : List (Op F) → PriorityQueue F → List (Answer F)
  answers [] s = []
  answers (op ∷ ops) s = let (next, answer) = in_queue op s in answer ∷ answers ops next

  -- The queue holds the entries of the line, in whatever order the heap keeps them.
  pub record Serves (s : PriorityQueue F) (line : List (PodRequest F)) : Type 0 where
    pub is_heap : heapq.IsHeap s.queue
    entries : List (Entry F)
    pub same : Permᴰ s.queue entries
    in_order : InOrder entries
    are_entries : All (IsEntry s.counter) entries
    is_line : map (λ e. e.request) entries ≡ line

  new-Serves : Serves new_queue []
  new-Serves = record {
    is_heap = heapq.IsHeap-empty;
    entries = [];
    same = Permᴰ.nil;
    in_order = tt;
    are_entries = tt;
    is_line = refl;
  }

  push-Serves :
      (s : PriorityQueue F) (line : List (PodRequest F)) (r : PodRequest F)
      → Serves s line
      → Serves (push heapq s r) (enqueue r line)
  unfolding push
  push-Serves s line r v =
      let e : Entry F = record { priority = r.priority; counter = s.counter; request = r } in
      let counted : (x : Entry F) → IsEntry s.counter x → IsEntry (suc s.counter) x =
        λ x h. (omega arith, h.1) in
      record {
        is_heap = heapq.heappush-IsHeap s.queue e v.is_heap;
        entries = insert_entry e v.entries;
        same =
            Permᴰ.trans (heapq.heappush-perm s.queue e)
              (Permᴰ.trans (Permᴰ.cons refl v.same) (insert-perm e v.entries));
        in_order = insert-InOrder e v.entries v.are_entries v.in_order;
        are_entries =
            All-insert (IsEntry (suc s.counter)) e v.entries (omega arith, refl)
              (All-imp v.entries counted v.are_entries);
        is_line = insert-line e v.entries s.counter refl v.are_entries ∙ ap (enqueue r) v.is_line;
      }

  -- The smallest item of the heap is the first of the line.
  smallest-first :
      (m : Entry F) (rest entries left : List (Entry F))
      → All (λ y. before y m ≡ false) rest
      → InOrder entries
      → Removes m entries left
      → Permᴰ rest left
      → entries ≡ m ∷ left
  smallest-first m rest [] left a o r p = elim r [ ]
  smallest-first m rest (x ∷ es) left a o (here e) p = ap (λ (y : Entry F). y ∷ left) (sym e)
  smallest-first m rest (x ∷ es) (y ∷ ys) a o (there r) p =
      let late : before x m ≡ true = All-Removes (λ y. before x y ≡ true) r o.0 in
      let early = All-Perm (λ y. before y m ≡ false) p a in absurd (true≢false (sym late ∙ early.0))

  nil-perm : {k l : List (Entry F)} → Permᴰ k l → k ≡ [] → l ≡ []
  nil-perm Permᴰ.nil h = refl
  nil-perm (Permᴰ.cons e p) h = cc
  nil-perm (Permᴰ.swap e f) h = cc
  nil-perm (Permᴰ.trans p q) h = nil-perm q (nil-perm p h)

  abbrev queue_of : List (Entry F) → ℕ → PriorityQueue F
  queue_of q counter = record { queue = q; counter = counter }

  nobody :
      (counter : ℕ) (line : List (PodRequest F)) → Serves (queue_of [] counter) line → line ≡ []
  nobody counter line v =
      sym v.is_line ∙ ap (map (λ (e : Entry F). e.request)) (nil-perm v.same refl)

  -- A queue that is not empty: its first request, and the line without it.
  front :
      (x : Entry F) (q : List (Entry F)) (counter : ℕ) (line : List (PodRequest F))
      → Serves (queue_of (x ∷ q) counter) line
      → (rest : List (PodRequest F)) × (line ≡ (heapq.heappop x q).0.request ∷ rest)
        × Serves (queue_of (heapq.heappop x q).1 counter) rest
  front x q counter line v =
      let m = (heapq.heappop x q).0 in
      let others = (heapq.heappop x q).1 in
      let p : Permᴰ (m ∷ others) v.entries =
        Permᴰ.trans (Permᴰ.symm (heapq.heappop-perm x q)) v.same in
      let (left, r, d) = Removes-Perm p (here refl) in
      let first : v.entries ≡ m ∷ left =
        smallest-first m others v.entries left (heapq.heappop-smallest x q v.is_heap) v.in_order r
          d in
      let ordered : InOrder (m ∷ left) = subst InOrder first v.in_order in
      let known : All (IsEntry counter) (m ∷ left) =
        subst (All (IsEntry counter)) first v.are_entries in
      (
        map (λ e. e.request) left,
        sym v.is_line ∙ ap (map (λ (e : Entry F). e.request)) first,
        record {
          is_heap = heapq.heappop-IsHeap x q v.is_heap;
          entries = left;
          same = d;
          in_order = ordered.1;
          are_entries = known.1;
          is_line = refl;
        },
      )

  abbrev Agrees : Op F → PriorityQueue F → List (PodRequest F) → Type 0
  Agrees op s line =
      ((in_queue op s).1 ≡ (in_line op line).1) × Serves (in_queue op s).0 (in_line op line).0

  agrees :
      (op : Op F) (q : List (Entry F)) (counter : ℕ) (line : List (PodRequest F))
      → Serves (queue_of q counter) line
      → Agrees op (queue_of q counter) line
  unfolding pop peek is_empty
  agrees (push_op r) q counter line v = (refl, push-Serves (queue_of q counter) line r v)
  agrees pop_op [] counter line v =
      let e = nobody counter line v in
      subst (Agrees pop_op (queue_of [] counter)) (sym e)
        (refl, subst (Serves (queue_of [] counter)) e v)
  agrees peek_op [] counter line v =
      let e = nobody counter line v in
      subst (Agrees peek_op (queue_of [] counter)) (sym e)
        (refl, subst (Serves (queue_of [] counter)) e v)
  agrees is_empty_op [] counter line v =
      let e = nobody counter line v in
      subst (Agrees is_empty_op (queue_of [] counter)) (sym e)
        (refl, subst (Serves (queue_of [] counter)) e v)
  agrees pop_op (x ∷ q) counter line v =
      let (rest, e, w) = front x q counter line v in
      subst (Agrees pop_op (queue_of (x ∷ q) counter)) (sym e) (refl, w)
  agrees peek_op (x ∷ q) counter line v =
      let (rest, e, w) = front x q counter line v in
      let same : x.request ≡ (heapq.heappop x q).0.request =
        ap (λ (y : Entry F). y.request) (sym (heapq.heappop-first x q v.is_heap)) in
      subst (Agrees peek_op (queue_of (x ∷ q) counter)) (sym e) (
        ap (λ (r : PodRequest F). found (some r)) same,
        subst (Serves (queue_of (x ∷ q) counter)) e v,
      )
  agrees is_empty_op (x ∷ q) counter line v =
      let (rest, e, w) = front x q counter line v in
      subst (Agrees is_empty_op (queue_of (x ∷ q) counter)) (sym e)
        (refl, subst (Serves (queue_of (x ∷ q) counter)) e v)

  answers-Serves :
      (ops : List (Op F)) (s : PriorityQueue F) (line : List (PodRequest F))
      → Serves s line
      → answers ops s ≡ answers_in_line ops line
  unfolding answers answers_in_line
  answers-Serves [] s line v = refl
  answers-Serves (op ∷ ops) s line v =
      let (e, w) = agrees op s.queue s.counter line v in
      cons_both e (answers-Serves ops (in_queue op s).0 (in_line op line).0 w)

  -- Whatever heap stands for `heapq` under its laws, and for every sequence of pushes, pops, peeks
  -- and tests for emptiness from a new queue, the answers are those of a plain line in which a
  -- request waits behind all of its priority or of a higher one and the first is served first.
  pub answers-answers_in_line : (ops : List (Op F)) → answers ops new_queue ≡ answers_in_line ops []
  answers-answers_in_line ops = answers-Serves ops new_queue [] new-Serves
