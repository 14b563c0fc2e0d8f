-- ===== src/Routing/Backends.antt =====
-- The backends of `NetworkManager` in src/networking/router.py. The id of a backend is its key
-- "id", or "unknown".
use mathlib.Core.List.{append-nil, append_assoc}
use disposable_compute_platf.Prelude.{
  ℕ, String, ◌≡◌, refl, sym, ◌∙◌, Option, none, some, List, [], ◌∷◌, ◌++◌, ltb, str_eq, eq_iff,
  arith, Bool-cases, inl, inr, if◌then◌else◌,
}
use disposable_compute_platf.Prelude.Dict.{Dict, get, put, get-put}

pub record Backends : Type 0 where
  pub backends : Dict (List String)
  pub connection_counts : Dict ℕ

abbrev pub or_empty : Option (List String) → List String
or_empty none = []
or_empty (some ids) = ids

-- `self.connection_counts.get(id, 0)`
abbrev pub count_of : Option ℕ → ℕ
count_of none = 0
count_of (some n) = n

unfoldable pub add_backend : Backends → String → String → Backends
add_backend s service_id backend_id = record {
  backends = put service_id (or_empty (get service_id s.backends) ++ backend_id ∷ []) s.backends;
  connection_counts = put backend_id 0 s.connection_counts;
}

-- `min` by a key: the first of the smallest.
unfoldable pub min_by : (String → ℕ) → String → List String → String
min_by key best [] = best
min_by key best (b ∷ bs) = min_by key (if ltb (key b) (key best) then b else best) bs

unfoldable pub get_next_backend : Backends → String → String → Option String
unfolding min_by
get_next_backend s service_id algorithm = elim (or_empty (get service_id s.backends)) [
  | [] ↦ none
  | b ∷ bs ↦
      if str_eq algorithm "least-connections"
      then some (min_by (λ i. count_of (get i s.connection_counts)) b bs)
      else some b
]

abbrev pub new_backends : Backends
new_backends = record { backends = []; connection_counts = [] }

unfoldable pub add_all : List (String × String) → Backends → Backends
add_all [] s = s
add_all ((service_id, backend_id) ∷ rest) s = add_all rest (add_backend s service_id backend_id)

abbrev AllZero : Backends → Type 0
AllZero s = (i : String) → count_of (get i s.connection_counts) ≡ 0

add_backend-AllZero : (s : Backends) (k b : String) → AllZero s → AllZero (add_backend s k b)
unfolding add_backend
add_backend-AllZero s k b h i = ground (arith, get-put b i 0 s.connection_counts, h i)

add_all-AllZero : (l : List (String × String)) (s : Backends) → AllZero s → AllZero (add_all l s)
unfolding add_all
add_all-AllZero [] s h = h
add_all-AllZero ((k, b) ∷ l) s h =
    add_all-AllZero l (add_backend s k b) (add_backend-AllZero s k b h)

min_by_zero :
    (key : String → ℕ) (best : String) (bs : List String)
    → ((i : String) → key i ≡ 0)
    → min_by key best bs ≡ best
unfolding min_by
min_by_zero key best [] h = refl
min_by_zero key best (b ∷ bs) h = rw (h b, h best) (min_by_zero key best bs h)

-- The backends that were added for a service, in order.
abbrev pub added_for : String → List (String × String) → List String
added_for k [] = []
added_for k ((service_id, backend_id) ∷ l) =
    let rest = added_for k l in if str_eq service_id k then backend_id ∷ rest else rest

backends-add_backend :
    (s : Backends) (i b k : String)
    → or_empty (get k (add_backend s i b).backends)
      ≡ or_empty (get k s.backends) ++ (if str_eq i k then b ∷ [] else [])
unfolding add_backend
backends-add_backend s i b k =
    let before = or_empty (get i s.backends) in
    elim (Bool-cases (str_eq i k)) [
      | inl e ↦ ground (arith, get-put i k (before ++ b ∷ []) s.backends, eq_iff i k)
      | inr e ↦ ground (
        arith,
        get-put i k (before ++ b ∷ []) s.backends,
        append-nil (or_empty (get k s.backends)),
      )
    ]

backends-add_all :
    (l : List (String × String)) (s : Backends) (k : String)
    → or_empty (get k (add_all l s).backends) ≡ or_empty (get k s.backends) ++ added_for k l
unfolding add_all
backends-add_all [] s k = sym (append-nil (or_empty (get k s.backends)))
backends-add_all ((i, b) ∷ l) s k =
    let before = or_empty (get k s.backends) in
    let one = backends-add_backend s i b k in
    backends-add_all l (add_backend s i b) k ∙ elim (Bool-cases (str_eq i k)) [
      | inl e ↦ rw (one, e) (append_assoc before (b ∷ []) (added_for k l))
      | inr e ↦ rw (one, e) (rw (append-nil before) refl)
    ]

abbrev pub first_of : List String → Option String
first_of [] = none
first_of (b ∷ bs) = some b

next_of :
    (s : Backends) (k a : String) (bs : List String)
    → AllZero s
    → or_empty (get k s.backends) ≡ bs
    → get_next_backend s k a ≡ first_of bs
unfolding get_next_backend
next_of s k a [] h e = rw (e, get_next_backend) refl
next_of s k a (b ∷ bs) h e =
    let key = λ (i : String). count_of (get i s.connection_counts) in
    elim (Bool-cases (str_eq a "least-connections")) [
      | inl l ↦ rw (e, get_next_backend) (rw (l, min_by_zero key b bs h) refl)
      | inr l ↦ rw (e, get_next_backend) (rw l refl)
    ]

-- After any additions of backends to a new manager, `get_next_backend` returns the backend that
-- was added first for the service, with the algorithm least-connections as with any other, or none
-- when there is none.
pub get_next_backend_first :
    (l : List (String × String)) (service_id algorithm : String)
    → get_next_backend (add_all l new_backends) service_id algorithm
      ≡ first_of (added_for service_id l)
get_next_backend_first l k a =
    next_of (add_all l new_backends) k a (added_for k l)
      (add_all-AllZero l new_backends (λ i. unfold get in refl))
      (backends-add_all l new_backends k ∙ unfold get in refl)
