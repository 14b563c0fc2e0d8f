-- ===== src/Health.antt =====
-- src/services/health.py: the checkers of dependencies and the report. What waiting for a
-- dependency gives is an argument; the details and latencies of a check, which nothing reads, are
-- left out.
pub mod Probes
pub mod Worst
use Prim.Native.String.{◌++◌}
use disposable_compute_platf.Prelude.{
  ℕ, suc, ◌-◌, ◌*◌, String, Bool, true, false, Option, none, some, List, [], ◌∷◌, map, ltb, length,
  filter, if◌then◌else◌,
}

pub data HealthStatus : Type 0 where
  healthy degraded unhealthy unknown : HealthStatus

pub record HealthCheck : Type 0 where
  pub name : String
  pub status : HealthStatus
  pub message : String

pub record HealthReport : Type 0 where
  pub status : HealthStatus
  pub timestamp : ℕ
  pub checks : List HealthCheck
  pub uptime : ℕ

pub record DependencyHealthChecker : Type 0 where
  pub name : String
  pub last_check : Option ℕ
  pub last_status : HealthStatus
  pub consecutive_failures : ℕ

abbrev pub new_checker : String → DependencyHealthChecker
new_checker name = record {
  name = name;
  last_check = none;
  last_status = unknown;
  consecutive_failures = 0;
}

-- What waiting for `_check` gives.
pub data Awaited : Type 0 where
  checked : HealthCheck → Awaited
  timed_out : Awaited
  raised : String → Awaited

abbrev count_failure : DependencyHealthChecker → String → DependencyHealthChecker × HealthCheck
count_failure c message = (
  record c { consecutive_failures = suc c.consecutive_failures },
  record { name = c.name; status = unhealthy; message = message },
)

-- The limit of the wait as a text goes into one message.
unfoldable pub check :
    String → ℕ → DependencyHealthChecker → Awaited → DependencyHealthChecker × HealthCheck
check timeout now c (checked result) = (
  record c { last_check = some now; last_status = result.status; consecutive_failures = 0 },
  result,
)
check timeout now c timed_out = count_failure c ("Health check timed out after " ++ timeout ++ "s")
check timeout now c (raised message) = count_failure c message

pub record HealthChecker : Type 0 where
  pub checkers : List DependencyHealthChecker
  pub start_time : ℕ
  pub last_report : Option HealthReport

-- `HealthChecker.__init__`: whether Docker's checker can be made, and which clients are given.
-- None is the exception.
abbrev optional : Bool → String → List DependencyHealthChecker → List DependencyHealthChecker
optional given name rest = if given then new_checker name ∷ rest else rest

unfoldable pub new_health_checker : ℕ → Bool → Bool → Bool → Bool → Option HealthChecker
new_health_checker now docker_works docker_client database redis_client =
    if docker_works
    then some (record {
      checkers =
          new_checker "docker"
          ∷ optional database "database" (
              optional redis_client "redis"
                (new_checker "storage" ∷ new_checker "api" ∷ new_checker "network" ∷ []));
      start_time = now;
      last_report = none;
    })
    else if docker_client
    then none
    else some (record {
      checkers = optional database "database" (
          optional redis_client "redis"
            (new_checker "storage" ∷ new_checker "api" ∷ new_checker "network" ∷ []));
      start_time = now;
      last_report = none;
    })

abbrev pub same_status : HealthStatus → HealthStatus → Bool
same_status healthy healthy = true
same_status degraded degraded = true
same_status unhealthy unhealthy = true
same_status unknown unknown = true
same_status _ _ = false

-- `status in statuses`
unfoldable pub has_status : HealthStatus → List HealthStatus → Bool
has_status s [] = false
has_status s (t ∷ statuses) = if same_status s t then true else has_status s statuses

unfoldable pub overall_status : List HealthStatus → HealthStatus
unfolding has_status
overall_status statuses =
    if has_status unhealthy statuses
    then unhealthy
    else if has_status degraded statuses
    then degraded
    else if has_status unknown statuses
    then unknown
    else healthy

module _ (timeout : String) (now : ℕ) (await : String → Awaited) where
  unfoldable pub check_each :
      List DependencyHealthChecker → List DependencyHealthChecker × List HealthCheck
  unfolding check
  check_each [] = ([], [])
  check_each (c ∷ cs) =
      let (c', result) = check timeout now c (await c.name) in
      let (cs', results) = check_each cs in (c' ∷ cs', result ∷ results)

  -- The checks themselves raise nothing: `check` turns exceptions into results.
  unfoldable pub check_all : HealthChecker → HealthChecker × HealthReport
  unfolding check_each overall_status
  check_all s =
      let (checkers, checks) = check_each s.checkers in
      let report : HealthReport = record {
        status = overall_status (map (λ c. c.status) checks);
        timestamp = now;
        checks = checks;
        uptime = now - s.start_time;
      } in
      (record s { checkers = checkers; last_report = some report }, report)

unfoldable pub is_healthy : HealthChecker → Bool
is_healthy s = elim s.last_report [ none ↦ false | some report ↦ same_status report.status healthy ]

-- The counts of `get_status_summary`: all checks, healthy, degraded and unhealthy ones.
unfoldable pub get_status_summary : HealthChecker → Option (ℕ × ℕ × ℕ × ℕ)
unfolding filter
get_status_summary s = elim s.last_report [
  | none ↦ none
  | some report ↦ some (
    length report.checks,
    length (filter (λ c. same_status c.status healthy) report.checks),
    length (filter (λ c. same_status c.status degraded) report.checks),
    length (filter (λ c. same_status c.status unhealthy) report.checks),
  )
]
