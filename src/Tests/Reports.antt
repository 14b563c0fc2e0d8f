-- ===== src/Tests/Reports.antt =====
-- A health report with one slow dependency.
use disposable_compute_platf.Prelude.{
  String, ◌≡◌, ◌↔◌, true, none, [], ◌∷◌, str_eq, if◌then◌else◌, All,
}
use disposable_compute_platf.Health.{
  healthy, HealthChecker, Awaited, checked, timed_out, new_checker, check_all, is_healthy,
}
use disposable_compute_platf.Health.Probes.{api_check}
use disposable_compute_platf.Health.Worst.{severity, worst, check_all-worst, is_healthy-check_all}

abbrev await : String → Awaited
await name = if str_eq name "network" then timed_out else checked api_check

abbrev checker : HealthChecker
checker = record {
  checkers = new_checker "api" ∷ new_checker "network" ∷ [];
  start_time = 0;
  last_report = none;
}

check_all-worst_example :
    severity (check_all "5.0" 9 await checker).1.status
    ≡ worst (check_all "5.0" 9 await checker).1.checks
check_all-worst_example = check_all-worst "5.0" 9 await checker

is_healthy-check_all_example :
    (is_healthy (check_all "5.0" 9 await checker).0 ≡ true)
    ↔ All (λ c. c.status ≡ healthy) (check_all "5.0" 9 await checker).1.checks
is_healthy-check_all_example = is_healthy-check_all "5.0" 9 await checker
