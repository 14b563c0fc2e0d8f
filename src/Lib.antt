-- ===== src/Lib.antt =====
-- The disposable compute platform: models of its scheduler, sessions, input validation, rate
-- limiter, quotas, storage, network tables, streaming, access tokens
-- and health checks, with proofs about them. Paths are from the repository's root.
--
-- The parts and their files:
-- - Scheduler: src/scheduler/scheduler.py. `Scheduler.Types` has the records of nodes, devices and
--   pods (with src/models/pod.py and src/models/gpu.py), `Scheduler.Validator` is
--   `ConstraintValidator`, `Scheduler.Scorer` is `NodeScorer`, `Scheduler.Reservation` is
--   `ResourceManager` (reserve, release), `Scheduler.Preemption` is `PreemptionManager`, and
--   `Scheduler.Placement` is the class `Scheduler`: register_node, unregister_node, schedule,
--   _try_preemption, unschedule. `schedule` filters the active nodes with the validator, ranks
--   them with the scorer and reserves on the best; without a valid node, a request of high
--   priority evicts pods and reserves again. Scheduler/Placement/Steps is the step relation.
--   `Scheduler.Queue` is `PriorityQueue`, over an interface of `heapq`.
-- - RateLimit: the class `RateLimiter` and `setup_rate_limiting` of
--   src/api/middleware/rate_limit.py.
-- - Quota: `Quota.Usage` is `QuotaManager` and `require_quota` of the same file, `Quota.Resources`
--   is `QuotaManager` of src/optimization/resource_manager.py.
-- - Storage: src/storage/storage_manager.py. `Storage.Volumes` is `VolumeManager` and the clean-up
--   of `StorageManager`, `Storage.Backups` is `SnapshotManager` and `BackupManager`. What the file
--   system and the clock answer, and the random ids, are arguments. A backup's task is two steps,
--   before and after its await.
-- - Network: `Network.Balancer` is `LoadBalancer` of src/networking_advanced/network_manager.py,
--   with MD5 as a parameter, `Network.Probing` its health checks and `Network.Policies` the tables
--   of settings beside it; `Network.Ports` is `NetworkManager` of
--   src/networking/network_manager.py, with the choice of `set.pop` as a parameter.
-- - Sessions: `SessionManager` of src/services/platform.py on the model of the scheduler, with
--   src/models/session.py and `AlertManager` of src/metrics/alerting.py (`Sessions.Alerts`).
--   Creating and destroying a session are two steps each, before and after the wait for the
--   orchestrator; a clean-up of expired sessions is one step, in whose waits nothing else runs.
-- - Validation: src/utils/input_validation.py. `Validation.Addresses` is `is_private_ip`,
--   `Validation.Urls` is `validate_repo_url` (with `urlparse`, `gethostbyname_ex`, `int` and
--   `lower` in a record of parameters), `Validation.Inputs` the other checks,
--   `Validation.Requests` is `validate_create_session_request`, `Validation.Limiter` the
--   simple rate limiter. Regular expressions are written with the combinators of Prelude/Text.
-- - Routing: src/networking/router.py: routes, the Nginx files beside them, and
--   `Routing.Backends`. What the file system lets through is an argument of each call.
-- - Streaming: src/streaming/streaming_server.py: `Streaming` is `StreamServer`,
--   `Streaming.Manager` is `StreamingManager`, `Streaming.Messages` the WebSocket handler, one
--   message at a time.
-- - Security: src/utils/security.py: policies and firewall rules, and `AccessController` in
--   `Security.Tokens`.
-- - Health: src/services/health.py, with the answers of the dependencies as arguments (the checks
--   themselves are in `Health.Probes`).
-- - Prelude: shared lists, dicts, texts, integers and floats; Tests: the examples.
--
-- How the code is modelled. A method is a function from the state to the new state and the result;
-- logging is left out. A dict is an association list in the order of insertion. A float is a value
-- of an abstract interface (Prelude/Float) with the laws that are used, those of IEEE numbers
-- without NaN. Amounts of memory, storage and VRAM on a node, priorities, counts and times are
-- natural numbers; the needs of a preemption, which go below zero, are integers, and the amounts of
-- the resource quotas are Python's numbers, nan included, over an interface in Quota/Resources. Time
-- in the limiters is counted in microseconds; a call that reads the clock twice has both readings
-- as arguments. `math.sqrt` is total in the interface of
-- floats: the distance of two nodes at which rounding takes its argument below zero, where the code
-- raises, is left out. The orchestrator's destroy_pod is a parameter: a function that says for which
-- pods it returns. Between the awaits of a call no other call runs. Loops run over lists, so no
-- fuel is needed.
--
-- Not modelled: the HTTP layer, orchestration of containers and VMs, databases, the collection of
-- metrics, streaming agents, previews and the image registry, which are mostly calls of other systems;
-- the scheduler's status reports, which only render the state; the Redis cache and the events of
-- sessions; GPU topology, which nothing uses.
pub mod Prelude
pub mod Validation
pub mod Routing
pub mod Health
pub mod Streaming
pub mod Security
pub mod Sessions
pub mod Network
pub mod Storage
pub mod Scheduler
pub mod RateLimit
pub mod Quota
mod Tests
