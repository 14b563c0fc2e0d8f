-- ===== src/Network/Selection.antt =====
-- Which backend `get_backend` of src/networking_advanced/network_manager.py selects.
use disposable_compute_platf.Prelude.{
  ℕ, suc, zero, ◌+◌, ◌-◌, ◌%◌, ◌≤◌, String, ◌≡◌, refl, Option, some, List, [], ◌∷◌, leb, eq_iff,
  arith, length, All, All-imp, Option-cases, Bool-cases, inl, inr,
}
use mathlib.Core.Path.{subst}
use disposable_compute_platf.Prelude.Dict.{Dict, get, put, get-put}
use disposable_compute_platf.Network.Balancer.{
  Backend, Service, LoadBalancer, Selection, selected, healthy_backends, element, count,
  insert_backend, sort_backends, least_connections_select, round_robin_select, ip_hash_select,
  select_backend, commit_selection, select_healthy, get_backend, release_backend, or_any,
}

module _ (P : Backend → Type 0) where
  pub element-All : (b : Backend) (bs : List Backend) (i : ℕ) → All P (b ∷ bs) → P (element b bs i)
  element-All b [] i h = h.0
  element-All b (c ∷ cs) zero h = h.0
  element-All b (c ∷ cs) (suc i) h = element-All c cs i h.1

  insert_backend-All :
      (counts : Dict ℕ) (b : Backend) (bs : List Backend)
      → P b
      → All P bs
      → All P (insert_backend counts b bs)
  unfolding insert_backend
  insert_backend-All counts b [] p h = (p, tt)
  insert_backend-All counts b (c ∷ cs) p h =
      elim (Bool-cases (leb (count counts b) (count counts c))) [
        | inl e ↦ rw e (p, h)
        | inr e ↦ rw e (h.0, insert_backend-All counts b cs p h.1)
      ]

  sort_backends-All :
      (counts : Dict ℕ) (bs : List Backend) → All P bs → All P (sort_backends counts bs)
  unfolding sort_backends
  sort_backends-All counts [] h = tt
  sort_backends-All counts (b ∷ bs) h =
      insert_backend-All counts b (sort_backends counts bs) h.0 (sort_backends-All counts bs h.1)

-- The head of an insertion, and of a sort.
insert_backend_head :
    (counts : Dict ℕ) (b : Backend) (bs : List Backend)
    → (c : Backend) × (cs : List Backend) × (insert_backend counts b bs ≡ c ∷ cs)
      × (count counts c ≤ count counts b)
      × ((d : Backend) (ds : List Backend) → bs ≡ d ∷ ds → count counts c ≤ count counts d)
unfolding insert_backend
insert_backend_head counts b [] = (b, [], refl, omega arith, λ d ds e. absurd (ground arith))
insert_backend_head counts b (d ∷ ds) = elim (Bool-cases (leb (count counts b) (count counts d))) [
  | inl e ↦ (b, d ∷ ds, rw e refl, omega arith, λ x xs h. ground arith)
  | inr e ↦ (d, insert_backend counts b ds, rw e refl, ground arith, λ x xs h. ground arith)
]

sort_backends_head :
    (counts : Dict ℕ) (b : Backend) (bs : List Backend)
    → (c : Backend) × (cs : List Backend) × (sort_backends counts (b ∷ bs) ≡ c ∷ cs)
      × All (λ x. count counts c ≤ count counts x) (b ∷ bs)
unfolding sort_backends
sort_backends_head counts b [] =
    let (c, cs, e, low, _) = insert_backend_head counts b [] in (c, cs, e, (low, tt))
sort_backends_head counts b (d ∷ ds) =
    let (x, xs, es, lows) = sort_backends_head counts d ds in
    let (c, cs, e, low, first) = insert_backend_head counts b (sort_backends counts (d ∷ ds)) in
    let lower : count counts c ≤ count counts x = first x xs es in
    (c, cs, e, (low, All-imp (d ∷ ds) (λ y h. omega arith) lows))

-- Of a list of backends that is not empty, the least-connections choice has no more connections
-- than any of them.
pub least_connections_select_fewest :
    (counts : Dict ℕ) (b : Backend) (bs : List Backend)
    → All (λ c. count counts (least_connections_select counts b bs) ≤ count counts c) (b ∷ bs)
unfolding least_connections_select
least_connections_select_fewest counts b bs =
    let (c, cs, e, low) = sort_backends_head counts b bs in
    let same : least_connections_select counts b bs ≡ c = rw (e, least_connections_select) refl in
    All-imp (b ∷ bs) (λ x h. rw same h) low

least_connections_select-All :
    (P : Backend → Type 0) (counts : Dict ℕ) (b : Backend) (bs : List Backend)
    → All P (b ∷ bs)
    → P (least_connections_select counts b bs)
unfolding least_connections_select
least_connections_select-All P counts b bs h =
    let (c, cs, e, low) = sort_backends_head counts b bs in
    let all : All P (c ∷ cs) = rw e at (sort_backends-All P counts (b ∷ bs) h) in
    rw (e, least_connections_select) all.0

-- A predicate that all healthy backends have, the chosen one has.
select_backend-All :
    (P : Backend → Type 0) (md5 : String → ℕ) (l : LoadBalancer) (k : String) (s : Service)
    (b : Backend) (bs : List Backend) (ip : Option String)
    → All P (b ∷ bs)
    → P (select_backend md5 l k s b bs ip).0
unfolding select_backend round_robin_select ip_hash_select
select_backend-All P md5 l k s b bs ip h = ground (
  arith,
  h.0,
  element-All P b bs (s.current_backend_index % length (b ∷ bs)) h,
  least_connections_select-All P l.connection_counts b bs h,
  element-All P b bs (md5 (or_any ip) % length (b ∷ bs)) h,
)

commit_selection-selected :
    (l : LoadBalancer) (k : String) (s : Service) (c : Backend × ℕ) (b : Backend)
    → (commit_selection l k s c).1 ≡ selected b
    → c.0 ≡ b
unfolding commit_selection
commit_selection-selected l k s c b h = ground arith

select_healthy-selected :
    (P : Backend → Type 0) (md5 : String → ℕ) (l : LoadBalancer) (k : String) (s : Service)
    (xs : List Backend) (ip : Option String) (b : Backend)
    → All P xs
    → (select_healthy md5 l k s xs ip).1 ≡ selected b
    → P b
unfolding select_healthy
select_healthy-selected P md5 l k s [] ip b all q = absurd (ground arith)
select_healthy-selected P md5 l k s (x ∷ xs) ip b all q =
    subst P (commit_selection-selected l k s (select_backend md5 l k s x xs ip) b q)
      (select_backend-All P md5 l k s x xs ip all)

-- When `get_backend` selects a backend of a registered service, every predicate that all healthy
-- backends of the service satisfy holds of it, whatever the algorithm and the hash: it is one of
-- them.
pub get_backend_healthy :
    (P : Backend → Type 0) (md5 : String → ℕ) (l : LoadBalancer) (k : String) (s : Service)
    (ip : Option String) (b : Backend)
    → get k l.services ≡ some s
    → All P (healthy_backends s)
    → (get_backend md5 l k ip).1 ≡ selected b
    → P b
unfolding get_backend
get_backend_healthy P md5 l k s ip b e h r =
    select_healthy-selected P md5 l k s (healthy_backends s) ip b h (rw (e, get_backend) at r)

module _ (l : LoadBalancer) (k : String) (b : Backend) (j : String) where
  abbrev Restores : LoadBalancer × Selection → Type 0
  Restores a =
      a.1 ≡ selected b
      → get j (release_backend a.0 b.id).connection_counts ≡ get j l.connection_counts

  commit_selection-Restores : (s : Service) (c : Backend × ℕ) → Restores (commit_selection l k s c)
  unfolding commit_selection release_backend
  commit_selection-Restores s c = λ q. elim (Option-cases (get c.0.id l.connection_counts)) [
    | inl n ↦ absurd (ground arith)
    | inr (n, f) ↦ ground (
      arith,
      eq_iff b.id j,
      eq_iff b.id b.id,
      get-put b.id b.id (n + 1) l.connection_counts,
      get-put b.id j (n + 1) l.connection_counts,
      get-put b.id j (n + 1 - 1) (put b.id (n + 1) l.connection_counts),
    )
  ]

  select_healthy-Restores :
      (md5 : String → ℕ) (s : Service) (xs : List Backend) (ip : Option String)
      → Restores (select_healthy md5 l k s xs ip)
  unfolding select_healthy
  select_healthy-Restores md5 s [] ip = λ q. absurd (ground arith)
  select_healthy-Restores md5 s (x ∷ xs) ip =
      commit_selection-Restores s (select_backend md5 l k s x xs ip)

-- When `get_backend` selects a backend, releasing it leaves every connection count as it was
-- before the call.
pub get_backend-release_backend :
    (md5 : String → ℕ) (l : LoadBalancer) (k : String) (ip : Option String) (b : Backend)
    (j : String)
    → (get_backend md5 l k ip).1 ≡ selected b
    → get j (release_backend (get_backend md5 l k ip).0 b.id).connection_counts
      ≡ get j l.connection_counts
unfolding get_backend
get_backend-release_backend md5 l k ip b j r = elim (Option-cases (get k l.services)) [
  | inl e ↦ absurd (ground arith)
  | inr (s, e) ↦
      rw (e, get_backend)
        (select_healthy-Restores l k b j md5 s (healthy_backends s) ip (rw (e, get_backend) at r))
]
