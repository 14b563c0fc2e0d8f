-- ===== src/Network/Balancer.antt =====
-- `LoadBalancer` of src/networking_advanced/network_manager.py. The tables `backends`,
-- `health_status` and `current_backend_index` always have the same keys: one table of services.
use disposable_compute_platf.Prelude.{
  ℕ, suc, zero, ◌+◌, ◌-◌, ◌%◌, String, Bool, true, not, Option, none, some, List, [], ◌∷◌, ◌++◌,
  leb, str_eq, length, filter, if◌then◌else◌,
}
use disposable_compute_platf.Prelude.Dict.{Dict, get, put, del}

-- Of a backend, a dict in the source, only the id is read here.
pub record Backend : Type 0 where
  pub id : String
  pub host : String
  pub port : ℕ

pub record Service : Type 0 where
  pub backends : List Backend
  pub health_status : Dict Bool
  pub current_backend_index : ℕ

pub record LoadBalancer : Type 0 where
  pub services : Dict Service
  pub algorithms : Dict String
  pub connection_counts : Dict ℕ

-- What `get_backend` returns, or the exception of a missing connection count.
pub data Selection : Type 0 where
  no_backend key_error : Selection
  selected : Backend → Selection

abbrev new_service : Option Service → Service
new_service none = record { backends = []; health_status = []; current_backend_index = 0 }
new_service (some s) = s

unfoldable pub add_backend : LoadBalancer → String → Backend → LoadBalancer
add_backend l service_id backend =
    let s = new_service (get service_id l.services) in
    record l {
      services =
          put service_id
            (record s {
              backends = s.backends ++ backend ∷ [];
              health_status = put backend.id true s.health_status;
            })
            l.services;
      connection_counts = put backend.id 0 l.connection_counts;
    }

unfoldable pub remove_backend : LoadBalancer → String → String → LoadBalancer
unfolding filter
remove_backend l service_id backend_id = elim (get service_id l.services) [
  | none ↦ l
  | some s ↦ record l {
    services =
        put service_id
          (record s {
            backends = filter (λ b. not (str_eq b.id backend_id)) s.backends;
            health_status = del backend_id s.health_status;
          })
          l.services;
    connection_counts = del backend_id l.connection_counts;
  }
]

unfoldable pub set_config : LoadBalancer → String → String → LoadBalancer
set_config l service_id algorithm = record l { algorithms = put service_id algorithm l.algorithms }

abbrev or_true : Option Bool → Bool
or_true none = true
or_true (some b) = b

abbrev pub is_healthy : Service → Backend → Bool
is_healthy s b = or_true (get b.id s.health_status)

abbrev pub healthy_backends : Service → List Backend
healthy_backends s = filter (is_healthy s) s.backends

-- `(b ∷ bs)[i]`, for an index in range.
abbrev pub element : Backend → List Backend → ℕ → Backend
element b [] i = b
element b (c ∷ cs) zero = b
element b (c ∷ cs) (suc i) = element c cs i

abbrev or_zero : Option ℕ → ℕ
or_zero none = 0
or_zero (some n) = n

-- `self.connection_counts.get(b['id'], 0)`
abbrev pub count : Dict ℕ → Backend → ℕ
count counts b = or_zero (get b.id counts)

-- `sorted` by the counts; it is stable.
unfoldable pub insert_backend : Dict ℕ → Backend → List Backend → List Backend
insert_backend counts b [] = b ∷ []
insert_backend counts b (c ∷ cs) =
    let rest = insert_backend counts b cs in
    if leb (count counts b) (count counts c) then b ∷ c ∷ cs else c ∷ rest

unfoldable pub sort_backends : Dict ℕ → List Backend → List Backend
unfolding insert_backend
sort_backends counts [] = []
sort_backends counts (b ∷ bs) = insert_backend counts b (sort_backends counts bs)

abbrev head_or : Backend → List Backend → Backend
head_or b [] = b
head_or b (c ∷ cs) = c

unfoldable pub least_connections_select : Dict ℕ → Backend → List Backend → Backend
unfolding sort_backends
least_connections_select counts b bs = head_or b (sort_backends counts (b ∷ bs))

-- The chosen backend and the next index.
unfoldable pub round_robin_select : ℕ → Backend → List Backend → Backend × ℕ
round_robin_select index b bs =
    (element b bs (index % length (b ∷ bs)), (index + 1) % length (b ∷ bs))

-- `md5` is the hash of an address as a number.
unfoldable pub ip_hash_select : (String → ℕ) → Backend → List Backend → String → Backend
ip_hash_select md5 b bs client_ip = element b bs (md5 client_ip % length (b ∷ bs))

-- `client_ip or "0.0.0.0"`
abbrev pub or_any : Option String → String
or_any none = "0.0.0.0"
or_any (some String.[]) = "0.0.0.0"
or_any (some (String.◌∷◌ c s)) = String.◌∷◌ c s

abbrev pub or_round_robin : Option String → String
or_round_robin none = "round-robin"
or_round_robin (some a) = a

-- The choice among the healthy backends, and the service's next index.
unfoldable pub select_backend :
    (String → ℕ)
    → LoadBalancer
    → String
    → Service
    → Backend
    → List Backend
    → Option String
    → Backend × ℕ
unfolding round_robin_select least_connections_select ip_hash_select
select_backend md5 l service_id s b bs client_ip =
    let algorithm = or_round_robin (get service_id l.algorithms) in
    if str_eq algorithm "round-robin"
    then round_robin_select s.current_backend_index b bs
    else if str_eq algorithm "least-connections"
    then (least_connections_select l.connection_counts b bs, s.current_backend_index)
    else if str_eq algorithm "ip-hash"
    then (ip_hash_select md5 b bs (or_any client_ip), s.current_backend_index)
    else (b, s.current_backend_index)

-- The index is stored before the count is updated, which raises if the backend has none.
unfoldable pub commit_selection :
    LoadBalancer → String → Service → Backend × ℕ → LoadBalancer × Selection
commit_selection l service_id s (backend, index) =
    let services = put service_id (record s { current_backend_index = index }) l.services in
    elim (get backend.id l.connection_counts) [
      | none ↦ (record l { services = services }, key_error)
      | some n ↦ (
        record l {
          services = services;
          connection_counts = put backend.id (n + 1) l.connection_counts;
        },
        selected backend,
      )
    ]

unfoldable pub select_healthy :
    (String → ℕ)
    → LoadBalancer
    → String
    → Service
    → List Backend
    → Option String
    → LoadBalancer × Selection
unfolding select_backend commit_selection
select_healthy md5 l service_id s [] client_ip = (l, no_backend)
select_healthy md5 l service_id s (b ∷ bs) client_ip =
    commit_selection l service_id s (select_backend md5 l service_id s b bs client_ip)

unfoldable pub get_backend :
    (String → ℕ) → LoadBalancer → String → Option String → LoadBalancer × Selection
unfolding select_healthy
get_backend md5 l service_id client_ip = elim (get service_id l.services) [
  | none ↦ (l, no_backend)
  | some s ↦ select_healthy md5 l service_id s (healthy_backends s) client_ip
]

-- `max(0, n - 1)` is the subtraction of natural numbers.
unfoldable pub release_backend : LoadBalancer → String → LoadBalancer
release_backend l backend_id = elim (get backend_id l.connection_counts) [
  | none ↦ l
  | some n ↦ record l { connection_counts = put backend_id (n - 1) l.connection_counts }
]
