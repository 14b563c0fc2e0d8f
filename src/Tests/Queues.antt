-- ===== src/Tests/Queues.antt =====
-- A queue over a sorted list in the place of the heap, and routes of two sessions.
use mathlib.Core.Bool.{true≢false}
use mathlib.Core.List.{Permᴰ}
use mathlib.Core.List.Permᴰ
use disposable_compute_platf.Prelude.{
  ℕ, String, ◌≡◌, ◌≢◌, refl, sym, ◌∙◌, true, false, some, List, [], ◌∷◌, ◌==◌, All, arith,
  Bool-cases, inl, inr, if◌then◌else◌, str_eq, eq_iff,
}
use disposable_compute_platf.Prelude.Dict.{get}
use disposable_compute_platf.Prelude.Text.{prefix, has_char}
use disposable_compute_platf.Scheduler.Queue.{Entry, before, Heapq, new_queue}
use disposable_compute_platf.Scheduler.Queue.Refinement.{
  Op, push_op, pop_op, peek_op, is_empty_op, answers, answers_in_line, answers-answers_in_line,
}
use disposable_compute_platf.Routing.{
  Route, IngressRouter, external_url, register_route, create_external_access,
}
use disposable_compute_platf.Routing.Isolation.{
  IsServed, here, next, register, register_route-IsServed, Steps-IsServed,
  create_external_access_clash, access,
}
use disposable_compute_platf.Routing.Backends.{
  new_backends, add_all, added_for, first_of, get_next_backend, get_next_backend_first,
}
use disposable_compute_platf.Tests.Cluster.{request_of}

module _ {F : Type 0} where
  abbrev insert : List (Entry F) → Entry F → List (Entry F)
  insert [] e = e ∷ []
  insert (x ∷ q) e = let rest = insert q e in if before e x then e ∷ x ∷ q else x ∷ rest

  abbrev IsSortedQueue : List (Entry F) → Type 0
  IsSortedQueue [] = Unit
  IsSortedQueue (x ∷ q) = All (λ y. before y x ≡ false) q × IsSortedQueue q

  insert-perm : (q : List (Entry F)) (e : Entry F) → Permᴰ (insert q e) (e ∷ q)
  insert-perm [] e = Permᴰ.refl (e ∷ [])
  insert-perm (x ∷ q) e = elim (Bool-cases (before e x)) [
    | inl h ↦ rw h (Permᴰ.refl (e ∷ x ∷ q))
    | inr h ↦ rw h (Permᴰ.trans (Permᴰ.cons refl (insert-perm q e)) (Permᴰ.swap refl refl))
  ]

  All-insert :
      (P : Entry F → Type 0) (q : List (Entry F)) (e : Entry F) → P e → All P q → All P (insert q e)
  All-insert P [] e p h = (p, tt)
  All-insert P (x ∷ q) e p h = elim (Bool-cases (before e x)) [
    | inl b ↦ rw b (p, h)
    | inr b ↦ rw b (h.0, All-insert P q e p h.1)
  ]

  not_before :
      (e x : Entry F) (q : List (Entry F))
      → before e x ≡ true
      → All (λ y. before y x ≡ false) q
      → All (λ y. before y e ≡ false) q
  not_before e x [] b h = tt
  not_before e x (y ∷ q) b h = (ground arith, not_before e x q b h.1)

  insert-sorted : (q : List (Entry F)) (e : Entry F) → IsSortedQueue q → IsSortedQueue (insert q e)
  insert-sorted [] e h = (tt, tt)
  insert-sorted (x ∷ q) e h = elim (Bool-cases (before e x)) [
    | inl b ↦ rw b ((ground arith, not_before e x q b h.0), h)
    | inr b ↦ rw b (All-insert (λ y. before y x ≡ false) q e b h.0, insert-sorted q e h.1)
  ]

abbrev sorted_lists : Heapq ℕ
sorted_lists = record {
  heappush = insert;
  heappop = λ x q. (x, q);
  IsHeap = IsSortedQueue;
  IsHeap-empty = tt;
  heappush-IsHeap = insert-sorted;
  heappush-perm = insert-perm;
  heappop-IsHeap = λ x q h. h.1;
  heappop-perm = λ x q. Permᴰ.refl (x ∷ q);
  heappop-smallest = λ x q h. h.0;
  heappop-first = λ x q h. refl;
}

abbrev ops : List (Op ℕ)
ops =
    push_op (request_of "p0" 50)
    ∷ push_op (request_of "p1" 80)
    ∷ push_op (request_of "p2" 50)
    ∷ pop_op
    ∷ peek_op
    ∷ is_empty_op
    ∷ []

answers-answers_in_line_example : answers sorted_lists ops new_queue ≡ answers_in_line ops []
answers-answers_in_line_example = answers-answers_in_line sorted_lists ops

abbrev show : ℕ → String
show n = if n == 3000 then "3000" else "8000"

abbrev route : Route
route = access show "aaaaaaaa-1" 3000 "example.org"

abbrev other : Route
other = access show "bbbbbbbb-1" 8000 "example.org"

different : {s t : String} → str_eq s t ≡ false → s ≢ t
different {s} {t} h e = absurd (true≢false (sym ((eq_iff s t).1 e) ∙ h))

abbrev router : IngressRouter
router = record { routes = []; files = [] }

Steps-IsServed_example :
    IsServed show true route
      (register_route show true true (register_route show true true router route).0 other).0
unfolding prefix external_url has_char
Steps-IsServed_example =
    Steps-IsServed show true route refl (register_route-IsServed show true route router) (
      next here (
        register true true (register_route show true true router route).0 other refl
          (different refl) (different refl)))

create_external_access_clash_example :
    let (s1, url) =
      create_external_access show true true router "sess-20260101-aa" 3000 "example.org" in
    let (s2, url') =
      create_external_access show true true s1 "sess-20270202-bb" 8000 "example.org" in
    (url ≡ url') × (get url s2.routes ≡ some (access show "sess-20270202-bb" 8000 "example.org"))
unfolding prefix
create_external_access_clash_example =
    create_external_access_clash show true true true true router "sess-20260101-aa"
      "sess-20270202-bb" 3000 8000 "example.org" refl

get_next_backend_first_example :
    get_next_backend
      (add_all (("web", "b0") ∷ ("web", "b1") ∷ []) new_backends)
      "web"
      "least-connections"
    ≡ first_of (added_for "web" (("web", "b0") ∷ ("web", "b1") ∷ []))
get_next_backend_first_example =
    get_next_backend_first (("web", "b0") ∷ ("web", "b1") ∷ []) "web" "least-connections"
