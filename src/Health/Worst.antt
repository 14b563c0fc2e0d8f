-- ===== src/Health/Worst.antt =====
-- The overall status of a report of src/services/health.py.
use disposable_compute_platf.Prelude.{
  ℕ, max, String, ◌≡◌, ◌↔◌, refl, sym, ap, ◌∙◌, true, List, [], ◌∷◌, map, arith, All,
}
use disposable_compute_platf.Health.{
  HealthStatus, healthy, degraded, unhealthy, unknown, HealthCheck, Awaited, HealthChecker,
  same_status, overall_status, check_each, check_all, is_healthy,
}

abbrev pub severity : HealthStatus → ℕ
severity healthy = 0
severity unknown = 1
severity degraded = 2
severity unhealthy = 3

unfoldable pub worst : List HealthCheck → ℕ
worst [] = 0
worst (c ∷ cs) = max (severity c.status) (worst cs)

overall_status_cons :
    (s : HealthStatus) (ss : List HealthStatus)
    → severity (overall_status (s ∷ ss)) ≡ max (severity s) (severity (overall_status ss))
unfolding overall_status
overall_status_cons s ss = ground arith

overall-worst :
    (cs : List HealthCheck) → severity (overall_status (map (λ c. c.status) cs)) ≡ worst cs
unfolding worst
overall-worst [] = unfold overall_status in refl
overall-worst (c ∷ cs) =
    overall_status_cons c.status (map (λ c. c.status) cs)
    ∙ ap (max (severity c.status)) (overall-worst cs)

severity-zero : (s : HealthStatus) → severity s ≡ 0 → s ≡ healthy
severity-zero healthy h = refl
severity-zero unknown h = absurd (omega arith)
severity-zero degraded h = absurd (omega arith)
severity-zero unhealthy h = absurd (omega arith)

worst-zero : (cs : List HealthCheck) → (worst cs ≡ 0) ↔ All (λ c. c.status ≡ healthy) cs
unfolding worst
worst-zero [] = (λ h. tt, λ h. refl)
worst-zero (c ∷ cs) =
    let (to, from) = worst-zero cs in
    (
      λ h. (severity-zero c.status (omega arith), to (omega arith)),
      λ h. omega (arith, ap severity h.0, from h.1),
    )

same_status_healthy : (s : HealthStatus) → (same_status s healthy ≡ true) ↔ (severity s ≡ 0)
same_status_healthy s = (λ h. ground arith, λ h. ground arith)

module _ (timeout : String) (now : ℕ) (await : String → Awaited) (s : HealthChecker) where
  pub check_all-worst :
      severity (check_all timeout now await s).1.status
      ≡ worst (check_all timeout now await s).1.checks
  unfolding check_all
  check_all-worst = overall-worst (check_each timeout now await s.checkers).1

  -- After `check_all`, whatever the dependencies answer, `is_healthy` is true exactly when every
  -- check of the report has the status healthy.
  pub is_healthy-check_all :
      (is_healthy (check_all timeout now await s).0 ≡ true)
      ↔ All (λ c. c.status ≡ healthy) (check_all timeout now await s).1.checks
  unfolding check_all is_healthy
  is_healthy-check_all =
      let checks = (check_each timeout now await s.checkers).1 in
      let (to, from) = same_status_healthy (overall_status (map (λ c. c.status) checks)) in
      let (all, none_worse) = worst-zero checks in
      (
        λ h. all (sym (overall-worst checks) ∙ to h),
        λ h. from (overall-worst checks ∙ none_worse h),
      )
