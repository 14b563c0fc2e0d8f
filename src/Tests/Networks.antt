-- ===== src/Tests/Networks.antt =====
-- Backends and ports.
use disposable_compute_platf.Prelude.{
  ℕ, ◌==◌, String, ◌≡◌, refl, true, Option, none, some, List, [], ◌∷◌, filter, arith, if◌then◌else◌,
}
use disposable_compute_platf.Prelude.Dict.{get, put}
use disposable_compute_platf.Network.Balancer.{
  Backend, Service, LoadBalancer, selected, get_backend, release_backend, select_healthy,
  select_backend, commit_selection, round_robin_select,
}
use disposable_compute_platf.Network.Selection.{get_backend-release_backend}
use disposable_compute_platf.Network.Probing.{
  check_backend_health, probe_all, perform_health_checks,
}
use disposable_compute_platf.Network.Probing.Selecting.{get_backend-perform_health_checks}
use disposable_compute_platf.Network.Turns.{InTurn, after_calls, round_robin_turns}
use disposable_compute_platf.Network.Ports.{
  NetworkManager, times_in, is_in, new_manager, setup_streaming_endpoint, allocate_port, port_range,
  remove_port,
}
use disposable_compute_platf.Network.Leases.{here, next, setup, port_of, no_shared_port}

abbrev backend : String → Backend
backend id = record { id = id; host = "localhost"; port = 80 }

abbrev service : Service
service = record {
  backends = backend "a" ∷ backend "b" ∷ [];
  health_status = ("a", true) ∷ ("b", true) ∷ [];
  current_backend_index = 1;
}

abbrev balancer : LoadBalancer
balancer = record {
  services = ("web", service) ∷ [];
  algorithms = [];
  connection_counts = ("a", 3) ∷ ("b", 1) ∷ [];
}

abbrev md5 : String → ℕ
md5 s = 7

get_backend-release_backend_example :
    get "b" (release_backend (get_backend md5 balancer "web" none).0 "b").connection_counts
    ≡ get "b" balancer.connection_counts
unfolding get filter get_backend select_healthy select_backend commit_selection round_robin_select
get_backend-release_backend_example =
    get_backend-release_backend md5 balancer "web" none (backend "b") "b" refl

balancer-InTurn : InTurn "web" (backend "a") (backend "b" ∷ []) balancer 1
unfolding get filter
balancer-InTurn = record {
  algorithm = refl;
  service = service;
  present = refl;
  healthy = refl;
  index = refl;
  counted = (refl, (refl, tt));
}

round_robin_turns_example :
    (get_backend md5
      (after_calls md5 "web" none (backend "a") (backend "b" ∷ []) 4 balancer)
      "web"
      none).1
    ≡ selected (backend "b")
round_robin_turns_example =
    round_robin_turns md5 "web" none (backend "a") (backend "b" ∷ []) balancer 1 4 balancer-InTurn

abbrev first : ℕ → List ℕ → ℕ
first p ps = p

first_in : (p : ℕ) (ps : List ℕ) → is_in (first p ps) (p ∷ ps) ≡ true
first_in p ps = let same : (p == p) ≡ true = ground arith in ground arith

abbrev manager : NetworkManager
manager = new_manager 9000 3

abbrev one : NetworkManager
one = (setup_streaming_endpoint first manager "p1").0

abbrev two : NetworkManager
two = (setup_streaming_endpoint first one "p2").0

no_shared_port_example :
    (times_in 9001 two.assigned_ports ≡ 1)
    × (times_in 9001 two.available_ports ≡ 0)
    × (port_of two "p2" ≡ some 9001 → ◌≡◌ {A = String} "p2" "p2")
unfolding new_manager setup_streaming_endpoint allocate_port port_range get put remove_port
no_shared_port_example =
    no_shared_port 9000 3 first first_in two "p2" "p2" 9001
      (next (next here (setup manager "p1")) (setup one "p2")) refl

-- A port that refuses connections.
abbrev one_open : String → ℕ → Option ℕ
one_open host port = some (if port == 80 then 0 else 111)

abbrev half_down : LoadBalancer
half_down = record balancer {
  services =
      ("web", record service { backends = backend "a" ∷ (record (backend "b") { port = 81 }) ∷ [] })
      ∷ [];
}

get_backend-perform_health_checks_example : check_backend_health one_open (backend "a") ≡ true
unfolding get put filter get_backend select_healthy select_backend commit_selection
    round_robin_select perform_health_checks probe_all
get_backend-perform_health_checks_example =
    get_backend-perform_health_checks one_open md5 half_down "web"
      (record service { backends = backend "a" ∷ (record (backend "b") { port = 81 }) ∷ [] }) none
      (backend "a") refl ((refl, tt), (tt, tt)) refl
