-- ===== src/Network/Probing.antt =====
-- The health checks of `LoadBalancer` in src/networking_advanced/network_manager.py. What a
-- connection to a port gives is an argument, with none for an exception; a round of checks is one
-- step, in whose waits nothing else runs. A backend names its host and port.
pub mod Selecting
use disposable_compute_platf.Prelude.{
  ℕ, String, Bool, true, false, Option, none, some, List, [], ◌∷◌, ◌==◌,
}
use disposable_compute_platf.Prelude.Dict.{Dict, get, put}
use disposable_compute_platf.Network.Balancer.{Backend, Service, LoadBalancer}

module _ (connect_ex : String → ℕ → Option ℕ) where
  unfoldable pub check_backend_health : Backend → Bool
  check_backend_health b = elim (connect_ex b.host b.port) [
    | none ↦ false
    | some result ↦ result == 0
  ]

  unfoldable pub probe_all : List Backend → Dict Bool → Dict Bool
  unfolding check_backend_health
  probe_all [] statuses = statuses
  probe_all (b ∷ bs) statuses = probe_all bs (put b.id (check_backend_health b) statuses)

  unfoldable pub perform_health_checks : LoadBalancer → String → LoadBalancer
  unfolding probe_all
  perform_health_checks l service_id = elim (get service_id l.services) [
    | none ↦ l
    | some s ↦ record l {
      services =
          put service_id (record s { health_status = probe_all s.backends s.health_status })
            l.services;
    }
  ]
