-- ===== src/Sessions.antt =====
-- The session manager of src/services/platform.py, on the scheduler, with src/models/session.py and
-- the alerts of src/metrics/alerting.py.
pub mod Types
pub mod Alerts
pub mod Lifecycle
pub mod History
pub mod Destroying
pub mod Expiry
