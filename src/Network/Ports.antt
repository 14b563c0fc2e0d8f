-- ===== src/Network/Ports.antt =====
-- `NetworkManager` of src/networking/network_manager.py: ports for streaming. The sets of ports
-- are lists; `choose` says which port `set.pop` takes from a set that is not empty.
use disposable_compute_platf.Prelude.{
  ℕ, zero, suc, ◌+◌, ◌==◌, String, Bool, true, false, Option, none, some, List, [], ◌∷◌,
  if◌then◌else◌,
}
use disposable_compute_platf.Prelude.Dict.{Dict, get, put, del}

-- Of a session, the port; the other fields hold the connection.
pub record StreamingSession : Type 0 where
  pub pod_id : String
  pub port : Option ℕ

pub record NetworkManager : Type 0 where
  pub assigned_ports : List ℕ
  pub available_ports : List ℕ
  pub streaming_sessions : Dict StreamingSession

-- How often a number stands in a list: in a set, once or not at all.
unfoldable pub times_in : ℕ → List ℕ → ℕ
times_in p [] = 0
times_in p (q ∷ qs) = (if p == q then 1 else 0) + times_in p qs

abbrev pub is_in : ℕ → List ℕ → Bool
is_in p [] = false
is_in p (q ∷ qs) = if p == q then true else is_in p qs

-- `set.remove`
unfoldable pub remove_port : ℕ → List ℕ → List ℕ
remove_port p [] = []
remove_port p (q ∷ qs) = let rest = remove_port p qs in if p == q then rest else q ∷ rest

-- `set.add`
abbrev pub add_port : ℕ → List ℕ → List ℕ
add_port p ps = if is_in p ps then ps else p ∷ ps

-- `range(start, start + n)`
unfoldable pub port_range : ℕ → ℕ → List ℕ
port_range start zero = []
port_range start (suc n) = start ∷ port_range (start + 1) n

unfoldable pub new_manager : ℕ → ℕ → NetworkManager
unfolding port_range
new_manager start n = record {
  assigned_ports = [];
  available_ports = port_range start n;
  streaming_sessions = [];
}

-- The session of an allocated port. `if not port`: the port 0 counts as none, but stays allocated.
abbrev pub register_port : String → NetworkManager × Option ℕ → NetworkManager × Option ℕ
register_port pod_id (m, none) = (m, none)
register_port pod_id (m, some p) = if p == 0 then (m, none) else (
  record m {
    streaming_sessions =
        put pod_id (record { pod_id = pod_id; port = some p }) m.streaming_sessions;
  },
  some p,
)

module _ (choose : ℕ → List ℕ → ℕ) where
  abbrev pub pop_port : NetworkManager → List ℕ → NetworkManager × Option ℕ
  pop_port m [] = (m, none)
  pop_port m (p ∷ ps) =
      let port = choose p ps in
      (
        record m {
          assigned_ports = add_port port m.assigned_ports;
          available_ports = remove_port port (p ∷ ps);
        },
        some port,
      )

  unfoldable pub allocate_port : NetworkManager → NetworkManager × Option ℕ
  allocate_port m = pop_port m m.available_ports

  unfoldable pub setup_streaming_endpoint : NetworkManager → String → NetworkManager × Option ℕ
  unfolding allocate_port
  setup_streaming_endpoint m pod_id = register_port pod_id (allocate_port m)

unfoldable pub release_port : NetworkManager → ℕ → NetworkManager
unfolding remove_port
release_port m port =
    if is_in port m.assigned_ports
    then record m {
      assigned_ports = remove_port port m.assigned_ports;
      available_ports = add_port port m.available_ports;
    }
    else m

unfoldable pub unregister_streaming_session : NetworkManager → String → NetworkManager
unregister_streaming_session m pod_id = record m {
  streaming_sessions = del pod_id m.streaming_sessions;
}

-- `if session and session.port`
abbrev pub session_port : Option StreamingSession → Option ℕ
session_port none = none
session_port (some s) = elim s.port [ none ↦ none | some p ↦ if p == 0 then none else some p ]

unfoldable pub cleanup_streaming_endpoint : NetworkManager → String → NetworkManager
unfolding release_port unregister_streaming_session
cleanup_streaming_endpoint m pod_id =
    unregister_streaming_session
      (elim (session_port (get pod_id m.streaming_sessions)) [
        | none ↦ m
        | some p ↦ release_port m p
      ])
      pod_id
