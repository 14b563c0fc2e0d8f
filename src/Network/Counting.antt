-- ===== src/Network/Counting.antt =====
-- How often a port stands in the sets of src/networking/network_manager.py.
use disposable_compute_platf.Prelude.{
  ℕ, zero, suc, ◌+◌, ◌≤◌, ◌<◌, ◌==◌, ◌≡◌, refl, true, false, List, [], ◌∷◌, if◌then◌else◌, arith,
}
use disposable_compute_platf.Network.Ports.{times_in, is_in, remove_port, add_port, port_range}

pub times_in-remove_port :
    (p q : ℕ) (ps : List ℕ) → times_in q (remove_port p ps) ≡ (if p == q then 0 else times_in q ps)
unfolding times_in remove_port
times_in-remove_port p q [] = ground arith
times_in-remove_port p q (x ∷ ps) = ground (arith, times_in-remove_port p q ps)

pub is_in_times : (p : ℕ) (ps : List ℕ) → is_in p ps ≡ (if times_in p ps == 0 then false else true)
unfolding times_in
is_in_times p [] = ground arith
is_in_times p (x ∷ ps) = ground (arith, is_in_times p ps)

pub times_in-add_port :
    (p q : ℕ) (ps : List ℕ)
    → times_in q (add_port p ps)
      ≡ (if p == q then (if times_in q ps == 0 then 1 else times_in q ps) else times_in q ps)
unfolding times_in
times_in-add_port p q ps = ground (arith, is_in_times p ps)

pub range_once :
    (p start n : ℕ)
    → (times_in p (port_range start n) ≤ 1) × (p < start → times_in p (port_range start n) ≡ 0)
unfolding times_in port_range
range_once p start zero = (omega arith, λ h. refl)
range_once p start (suc n) = (
  ground (arith, range_once p (start + 1) n),
  λ h. ground (arith, (range_once p (start + 1) n).1),
)
