-- ===== src/Scheduler/Queue/Order.antt =====
-- `PriorityQueue` of src/scheduler/scheduler.py beside a plain list of requests in the order in
-- which they are due.
use mathlib.Core.List.{Permᴰ}
use mathlib.Core.List.Permᴰ
use disposable_compute_platf.Prelude.{
  ℕ, ◌<◌, ◌≡◌, refl, true, List, [], ◌∷◌, map, ltb, All, arith, Bool-cases, inl, inr, if◌then◌else◌,
}
use disposable_compute_platf.Scheduler.Types.{PodRequest}
use disposable_compute_platf.Scheduler.Queue.{Entry, before}
use disposable_compute_platf.Scheduler.Queue.Permutations.{All-Perm}

module _ {F : Type 0} where
  -- The order of service: a request waits behind all of its priority or of a higher one.
  unfoldable pub enqueue : PodRequest F → List (PodRequest F) → List (PodRequest F)
  enqueue r [] = r ∷ []
  enqueue r (s ∷ line) = if ltb s.priority r.priority then r ∷ s ∷ line else s ∷ enqueue r line

  unfoldable pub insert_entry : Entry F → List (Entry F) → List (Entry F)
  insert_entry e [] = e ∷ []
  insert_entry e (x ∷ es) = if ltb x.priority e.priority then e ∷ x ∷ es else x ∷ insert_entry e es

  abbrev pub InOrder : List (Entry F) → Type 0
  InOrder [] = Unit
  InOrder (x ∷ es) = All (λ y. before x y ≡ true) es × InOrder es

  abbrev pub IsEntry : ℕ → Entry F → Type 0
  IsEntry counter e = (e.counter < counter) × (e.request.priority ≡ e.priority)

  pub insert-perm : (e : Entry F) (es : List (Entry F)) → Permᴰ (e ∷ es) (insert_entry e es)
  unfolding insert_entry
  insert-perm e [] = Permᴰ.refl (e ∷ [])
  insert-perm e (x ∷ es) = elim (Bool-cases (ltb x.priority e.priority)) [
    | inl h ↦ rw h (Permᴰ.refl (e ∷ x ∷ es))
    | inr h ↦ rw h (Permᴰ.trans (Permᴰ.swap refl refl) (Permᴰ.cons refl (insert-perm e es)))
  ]

  pub insert-line :
      (e : Entry F) (es : List (Entry F)) (counter : ℕ)
      → e.request.priority ≡ e.priority
      → All (IsEntry counter) es
      → map (λ e. e.request) (insert_entry e es) ≡ enqueue e.request (map (λ e. e.request) es)
  unfolding insert_entry enqueue
  insert-line e [] n h a = refl
  insert-line e (x ∷ es) n h a = ground (arith, h, a.0, insert-line e es n h a.1)

  pub All-insert :
      (P : Entry F → Type 0) (e : Entry F) (es : List (Entry F))
      → P e
      → All P es
      → All P (insert_entry e es)
  All-insert P e es p h = All-Perm P (insert-perm e es) (p, h)

  -- Entries after the first that is due later are due later too.
  all_later :
      (e x : Entry F) (es : List (Entry F))
      → ltb x.priority e.priority ≡ true
      → All (λ y. before x y ≡ true) es
      → All (λ y. before e y ≡ true) es
  all_later e x [] h a = tt
  all_later e x (y ∷ es) h a = (ground arith, all_later e x es h a.1)

  pub insert-InOrder :
      (e : Entry F) (es : List (Entry F))
      → All (IsEntry e.counter) es
      → InOrder es
      → InOrder (insert_entry e es)
  unfolding insert_entry
  insert-InOrder e [] a h = (tt, tt)
  insert-InOrder e (x ∷ es) a h = elim (Bool-cases (ltb x.priority e.priority)) [
    | inl l ↦ rw l ((ground arith, all_later e x es l h.0), h)
    | inr l ↦ rw l (
      All-insert (λ y. before x y ≡ true) e es (ground (arith, a.0)) h.0,
      insert-InOrder e es a.1 h.1,
    )
  ]
