-- ===== src/Network/Leases.antt =====
-- The ports of src/networking/network_manager.py along histories of pods.
use disposable_compute_platf.Prelude.{
  ℕ, ◌+◌, ◌==◌, String, ◌≡◌, refl, true, false, Option, some, List, [], ◌∷◌, arith, eq_iff,
  Option-cases, Bool-cases, inl, inr,
}
use disposable_compute_platf.Prelude.Dict.{get, get-put, get-del}
use disposable_compute_platf.Network.Ports.{
  StreamingSession, NetworkManager, times_in, is_in, remove_port, add_port, port_range, new_manager,
  pop_port, allocate_port, register_port, setup_streaming_endpoint, release_port,
  unregister_streaming_session, session_port, cleanup_streaming_endpoint,
}
use disposable_compute_platf.Network.Counting.{
  times_in-remove_port, is_in_times, times_in-add_port, range_once,
}

-- The port of a pod's session, if it has one.
abbrev pub port_of : NetworkManager → String → Option ℕ
port_of m pod_id = session_port (get pod_id m.streaming_sessions)

module _ (start n : ℕ) where
  -- Each port of the range is assigned or available, and not both; a session's port is assigned,
  -- and no other session has it.
  pub record IsLeased (m : NetworkManager) : Type 0 where
    pub parts :
        (p : ℕ)
        → times_in p m.assigned_ports + times_in p m.available_ports
          ≡ times_in p (port_range start n)
    pub assigned : (j : String) (p : ℕ) → port_of m j ≡ some p → is_in p m.assigned_ports ≡ true
    pub distinct : (j k : String) (p : ℕ) → port_of m j ≡ some p → port_of m k ≡ some p → j ≡ k

  module _ (choose : ℕ → List ℕ → ℕ)
      (chosen : (p : ℕ) (ps : List ℕ) → is_in (choose p ps) (p ∷ ps) ≡ true) where
    pop_port-IsLeased :
        (m : NetworkManager) (p : ℕ) (ps : List ℕ)
        → m.available_ports ≡ p ∷ ps
        → IsLeased m
        → IsLeased (pop_port choose m (p ∷ ps)).0
          × (is_in (choose p ps) (add_port (choose p ps) m.assigned_ports) ≡ true)
          × (is_in (choose p ps) m.assigned_ports ≡ false)
    pop_port-IsLeased m p ps e h =
        let c = choose p ps in
        let new : is_in c m.assigned_ports ≡ false = ground (
          arith,
          h.parts c,
          (range_once c start n).0,
          chosen p ps,
          e,
          is_in_times c m.assigned_ports,
          is_in_times c (p ∷ ps),
        ) in
        (
          record {
            parts = λ q. ground (
              arith,
              h.parts q,
              (range_once q start n).0,
              e,
              new,
              chosen p ps,
              times_in-add_port c q m.assigned_ports,
              times_in-remove_port c q (p ∷ ps),
              is_in_times c m.assigned_ports,
              is_in_times c (p ∷ ps),
            );
            assigned = λ j q a. ground (arith, h.assigned j q a);
            distinct = h.distinct;
          },
          ground arith,
          new,
        )

    setup_with-IsLeased :
        (m : NetworkManager) (pod_id : String) (ps : List ℕ)
        → m.available_ports ≡ ps
        → IsLeased m
        → IsLeased (register_port pod_id (pop_port choose m ps)).0
    setup_with-IsLeased m pod_id [] e h = h
    setup_with-IsLeased m pod_id (p ∷ ps) e h =
        let (h1, inside, new) = pop_port-IsLeased m p ps e h in
        let c = choose p ps in
        let session : StreamingSession = record { pod_id = pod_id; port = some c } in
        elim (Bool-cases (c == 0)) [
          | inl z ↦ rw z h1
          | inr z ↦ rw z (record {
            parts = h1.parts;
            assigned = λ j q a.
                ground (
                  arith,
                  z,
                  h1.assigned j q,
                  inside,
                  get-put pod_id j session m.streaming_sessions,
                );
            distinct = λ j k q a b. ground (
              arith,
              z,
              new,
              h.assigned j q,
              h.assigned k q,
              h.distinct j k q,
              eq_iff pod_id j,
              eq_iff pod_id k,
              get-put pod_id j session m.streaming_sessions,
              get-put pod_id k session m.streaming_sessions,
            );
          })
        ]

    setup-IsLeased :
        (m : NetworkManager) (pod_id : String)
        → IsLeased m
        → IsLeased (setup_streaming_endpoint choose m pod_id).0
    unfolding setup_streaming_endpoint allocate_port
    setup-IsLeased m pod_id h = setup_with-IsLeased m pod_id m.available_ports refl h

  cleanup-IsLeased :
      (m : NetworkManager) (pod_id : String)
      → IsLeased m
      → IsLeased (cleanup_streaming_endpoint m pod_id)
  unfolding cleanup_streaming_endpoint release_port unregister_streaming_session
  cleanup-IsLeased m pod_id h = elim (Option-cases (port_of m pod_id)) [
    | inl e ↦
        rw (e, cleanup_streaming_endpoint)
          (record {
            parts = h.parts;
            assigned =
                λ j q a. ground (arith, h.assigned j q, get-del pod_id j m.streaming_sessions);
            distinct = λ j k q a b. ground (
              arith,
              h.distinct j k q,
              get-del pod_id j m.streaming_sessions,
              get-del pod_id k m.streaming_sessions,
            );
          })
    | inr (c, e) ↦
        rw (e, h.assigned pod_id c e, cleanup_streaming_endpoint, release_port)
          (record {
            parts = λ q. ground (
              arith,
              h.parts q,
              (range_once q start n).0,
              h.assigned pod_id c e,
              times_in-add_port c q m.available_ports,
              times_in-remove_port c q m.assigned_ports,
              is_in_times c m.assigned_ports,
            );
            assigned = λ j q a. ground (
              arith,
              h.assigned j q,
              h.distinct j pod_id q,
              eq_iff pod_id j,
              get-del pod_id j m.streaming_sessions,
              times_in-remove_port c q m.assigned_ports,
              is_in_times q m.assigned_ports,
              is_in_times q (remove_port c m.assigned_ports),
            );
            distinct = λ j k q a b. ground (
              arith,
              h.distinct j k q,
              get-del pod_id j m.streaming_sessions,
              get-del pod_id k m.streaming_sessions,
            );
          })
  ]

-- Pods come and go; `choose` is how the interpreter pops a set.
pub data Step (choose : ℕ → List ℕ → ℕ) : NetworkManager → NetworkManager → Type 0 where
  setup :
      (m : NetworkManager) (pod_id : String)
      → Step choose m (setup_streaming_endpoint choose m pod_id).0
  cleanup :
      (m : NetworkManager) (pod_id : String) → Step choose m (cleanup_streaming_endpoint m pod_id)

pub data Steps (choose : ℕ → List ℕ → ℕ) (m : NetworkManager) : NetworkManager → Type 0 where
  here : Steps choose m m
  next : {k l : NetworkManager} → Steps choose m k → Step choose k l → Steps choose m l

module _ (start n : ℕ) (choose : ℕ → List ℕ → ℕ)
    (chosen : (p : ℕ) (ps : List ℕ) → is_in (choose p ps) (p ∷ ps) ≡ true) where
  new_manager-IsLeased : IsLeased start n (new_manager start n)
  unfolding new_manager times_in get
  new_manager-IsLeased = record {
    parts = λ p. omega arith;
    assigned = λ j p h. cc;
    distinct = λ j k p h g. cc;
  }

  Steps-IsLeased :
      {m k : NetworkManager} → Steps choose m k → IsLeased start n m → IsLeased start n k
  Steps-IsLeased here h = h
  Steps-IsLeased (next r (setup m pod_id)) h =
      setup-IsLeased start n choose chosen m pod_id (Steps-IsLeased r h)
  Steps-IsLeased (next r (cleanup m pod_id)) h =
      cleanup-IsLeased start n m pod_id (Steps-IsLeased r h)

  -- From a new manager, when a set's pop takes a member of the set, after every history of
  -- endpoints set up and cleaned up: the port of a pod's session is assigned exactly once and not
  -- available, and another pod with that port in its session is the same pod.
  pub no_shared_port :
      (m : NetworkManager) (j k : String) (p : ℕ)
      → Steps choose (new_manager start n) m
      → port_of m j ≡ some p
      → (times_in p m.assigned_ports ≡ 1)
        × (times_in p m.available_ports ≡ 0)
        × (port_of m k ≡ some p → j ≡ k)
  no_shared_port m j k p r e =
      let h = Steps-IsLeased r new_manager-IsLeased in
      let a = h.assigned j p e in
      let t = is_in_times p m.assigned_ports in
      let once = (range_once p start n).0 in
      (ground (arith, h.parts p), ground (arith, h.parts p), h.distinct j k p e)
