-- ===== src/Scheduler.antt =====
-- The GPU-aware scheduler (src/scheduler/scheduler.py, with src/models/pod.py and
-- src/models/gpu.py).
pub mod Types
pub mod Validator
pub mod Scorer
pub mod Reservation
pub mod Preemption
pub mod Placement
pub mod Queue
