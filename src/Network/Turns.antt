-- ===== src/Network/Turns.antt =====
-- Round robin in `LoadBalancer` of src/networking_advanced/network_manager.py.
use disposable_compute_platf.Prelude.{
  ℕ, suc, zero, ◌+◌, ◌%◌, String, ap, ◌∙◌, ◌≡◌, refl, true, Option, some, List, ◌∷◌, str_eq, eq_iff,
  arith, length, All, All-imp, Option-cases, inl, inr,
}
use native.Mathlib.Nat.{mod-add-mod}
use disposable_compute_platf.Prelude.Dict.{Dict, get, put, is_some, get-put}
use disposable_compute_platf.Network.Balancer.{
  Backend, Service, LoadBalancer, selected, healthy_backends, element, round_robin_select,
  select_backend, commit_selection, select_healthy, get_backend, or_round_robin,
}
use disposable_compute_platf.Network.Selection.{element-All}

-- The balancer answers for the service in turn: its algorithm is round robin, its healthy backends
-- are these, each with a count, and its index is `i`.
pub record InTurn (k : String) (b : Backend) (bs : List Backend) (l : LoadBalancer) (i : ℕ)
    : Type 0 where
  pub algorithm : str_eq (or_round_robin (get k l.algorithms)) "round-robin" ≡ true
  pub service : Service
  pub present : get k l.services ≡ some service
  pub healthy : healthy_backends service ≡ b ∷ bs
  pub index : service.current_backend_index ≡ i
  pub counted : All (λ c. is_some (get c.id l.connection_counts) ≡ true) (b ∷ bs)

module _ (md5 : String → ℕ) (k : String) (ip : Option String) (b : Backend)
    (bs : List Backend) where
  -- The state after so many calls.
  unfoldable pub after_calls : ℕ → LoadBalancer → LoadBalancer
  after_calls zero l = l
  after_calls (suc n) l = after_calls n (get_backend md5 l k ip).0

  abbrev turn : ℕ → Backend
  turn i = element b bs (i % length (b ∷ bs))

  put-counted :
      (d : Dict ℕ) (j : String) (n : ℕ) (xs : List Backend)
      → All (λ c. is_some (get c.id d) ≡ true) xs
      → All (λ c. is_some (get c.id (put j n d)) ≡ true) xs
  put-counted d j n xs h = All-imp xs (λ c g. ground (arith, get-put j c.id n d)) h

  InTurn-step :
      (l : LoadBalancer) (i : ℕ)
      → InTurn k b bs l i
      → ((get_backend md5 l k ip).1 ≡ selected (turn i))
        × InTurn k b bs (get_backend md5 l k ip).0 ((i + 1) % length (b ∷ bs))
  unfolding get_backend select_healthy
  InTurn-step l i t =
      let s = t.service in
      let chosen : select_backend md5 l k s b bs ip ≡ (turn i, (i + 1) % length (b ∷ bs)) =
        unfold select_backend round_robin_select in rw (t.algorithm, t.index) refl in
      let there =
        element-All (λ c. is_some (get c.id l.connection_counts) ≡ true) b bs (i % length (b ∷ bs))
          t.counted in
      let same : get_backend md5 l k ip
          ≡ commit_selection l k s (turn i, (i + 1) % length (b ∷ bs)) =
        rw (t.present, get_backend, t.healthy, chosen) refl in
      elim (Option-cases (get (turn i).id l.connection_counts)) [
        | inl e ↦ absurd (ground arith)
        | inr (n, e) ↦ rw same (
            rw (e, commit_selection)
              (
                refl,
                record {
                  algorithm = t.algorithm;
                  service = record s { current_backend_index = (i + 1) % length (b ∷ bs) };
                  present = ground (
                    arith,
                    eq_iff k k,
                    get-put k k (record s { current_backend_index = (i + 1) % length (b ∷ bs) })
                        l.services,
                  );
                  healthy = t.healthy;
                  index = refl;
                  counted = put-counted l.connection_counts (turn i).id (n + 1) (b ∷ bs) t.counted;
                },
              ))
      ]

  -- When the algorithm of a service is round robin, its healthy backends are a list that is not
  -- empty and each of them has a connection count, then after n calls of `get_backend` from index
  -- i the next call selects the backend at position (i + n) modulo the length of that list.
  pub round_robin_turns :
      (l : LoadBalancer) (i n : ℕ)
      → InTurn k b bs l i
      → (get_backend md5 (after_calls n l) k ip).1
        ≡ selected (element b bs ((i + n) % length (b ∷ bs)))
  unfolding after_calls
  round_robin_turns l i zero t =
      (InTurn-step l i t).0 ∙ ap (λ x. selected (element b bs (x % length (b ∷ bs)))) (omega arith)
  round_robin_turns l i (suc n) t =
      let m = length (b ∷ bs) in
      let step : ((i + 1) % m + n) % m ≡ (i + suc n) % m =
        mod-add-mod (i + 1) m n ∙ ap (λ x. x % m) (omega arith) in
      round_robin_turns (get_backend md5 l k ip).0 ((i + 1) % m) n (InTurn-step l i t).1
      ∙ ap (λ x. selected (element b bs x)) step
