-- ===== src/Network/Probing/Selecting.antt =====
-- The health checks of src/networking_advanced/network_manager.py, and the selection after them.
use disposable_compute_platf.Prelude.{
  ℕ, String, ◌≡◌, refl, ◌∙◌, Bool, true, false, Option, some, List, [], ◌∷◌, str_eq, eq_iff, All,
  All-imp, All-both, All-filter, filter-All, arith,
}
use disposable_compute_platf.Prelude.Dict.{Dict, get, put, get-put}
use disposable_compute_platf.Network.Balancer.{
  Backend, Service, LoadBalancer, selected, is_healthy, healthy_backends, get_backend,
}
use disposable_compute_platf.Network.Selection.{get_backend_healthy}
use disposable_compute_platf.Network.Probing.{
  check_backend_health, probe_all, perform_health_checks,
}

-- No two backends of a list have one id.
abbrev pub HasDistinctIds : List Backend → Type 0
HasDistinctIds [] = Unit
HasDistinctIds (b ∷ bs) = All (λ c. str_eq c.id b.id ≡ false) bs × HasDistinctIds bs

module _ (connect_ex : String → ℕ → Option ℕ) where
  probe_others :
      (bs : List Backend) (i : String) (d : Dict Bool)
      → All (λ c. str_eq c.id i ≡ false) bs
      → get i (probe_all connect_ex bs d) ≡ get i d
  unfolding probe_all
  probe_others [] i d h = refl
  probe_others (b ∷ bs) i d h =
      let checked = check_backend_health connect_ex b in
      probe_others bs i (put b.id checked d) h.1 ∙ ground (arith, h.0, get-put b.id i checked d)

  get-probe_all :
      (bs : List Backend) (d : Dict Bool)
      → HasDistinctIds bs
      → All
          (λ b. get b.id (probe_all connect_ex bs d) ≡ some (check_backend_health connect_ex b))
          bs
  unfolding probe_all
  get-probe_all [] d h = tt
  get-probe_all (b ∷ bs) d h =
      let checked = check_backend_health connect_ex b in
      (
        probe_others bs b.id (put b.id checked d) h.0
            ∙ ground (arith, eq_iff b.id b.id, get-put b.id b.id checked d),
        get-probe_all bs (put b.id checked d) h.1,
      )

  abbrev probed : Service → Service
  probed s = record s { health_status = probe_all connect_ex s.backends s.health_status }

  passes :
      (s : Service) (b : Backend)
      → (is_healthy (probed s) b ≡ true)
        × (get b.id (probe_all connect_ex s.backends s.health_status)
            ≡ some (check_backend_health connect_ex b))
      → check_backend_health connect_ex b ≡ true
  passes s b (h, e) = ground arith

  healthy_passed :
      (s : Service)
      → HasDistinctIds s.backends
      → All (λ b. check_backend_health connect_ex b ≡ true) (healthy_backends (probed s))
  healthy_passed s h =
      let known =
        All-filter
          (λ b.
            get b.id (probe_all connect_ex s.backends s.health_status)
            ≡ some (check_backend_health connect_ex b))
          (is_healthy (probed s)) s.backends (get-probe_all s.backends s.health_status h) in
      All-imp (healthy_backends (probed s)) (passes s) (
        All-both (λ b. is_healthy (probed s) b ≡ true)
          (λ b.
            get b.id (probe_all connect_ex s.backends s.health_status)
            ≡ some (check_backend_health connect_ex b))
          (healthy_backends (probed s)) (filter-All (is_healthy (probed s)) s.backends) known)

  get-perform :
      (l : LoadBalancer) (k : String) (s : Service)
      → get k l.services ≡ some s
      → get k (perform_health_checks connect_ex l k).services ≡ some (probed s)
  unfolding perform_health_checks
  get-perform l k s e = ground (arith, e, eq_iff k k, get-put k k (probed s) l.services)

  -- For a registered service whose backends have distinct ids, when `get_backend` selects a
  -- backend right after a round of health checks, whatever the algorithm and the hash, the check
  -- of that backend has succeeded.
  pub get_backend-perform_health_checks :
      (md5 : String → ℕ) (l : LoadBalancer) (k : String) (s : Service) (ip : Option String)
      (b : Backend)
      → get k l.services ≡ some s
      → HasDistinctIds s.backends
      → (get_backend md5 (perform_health_checks connect_ex l k) k ip).1 ≡ selected b
      → check_backend_health connect_ex b ≡ true
  get_backend-perform_health_checks md5 l k s ip b e d r =
      get_backend_healthy (λ c. check_backend_health connect_ex c ≡ true) md5
        (perform_health_checks connect_ex l k) k (probed s) ip b (get-perform l k s e)
        (healthy_passed s d) r
