-- ===== src/RateLimit/Blocks.antt =====
-- The branch of `is_allowed` that blocks an identifier, in src/api/middleware/rate_limit.py.
use disposable_compute_platf.Prelude.{
  ℕ, ◌*◌, ◌≤◌, ◌<◌, String, ◌≡◌, refl, sym, ◌∙◌, none, List, [], ◌∷◌, leb, str_eq, str_eq→eq,
  length, arith, Bool-cases, inl, inr, length-append, length-filter-le,
}
use mathlib.Core.Path.{subst}
use disposable_compute_platf.Prelude.Dict.{get}
use disposable_compute_platf.RateLimit.Identifier.{Request, get_identifier}
use disposable_compute_platf.RateLimit.{
  RateLimitConfig, RateLimiter, second, recorded, is_live, over_limit, check_window, check,
  is_allowed, get_config, clean_old_requests,
}
use disposable_compute_platf.RateLimit.Window.{
  check-Effect, config-check, check_window_full, check_window_free, is_accepted, live, cleaned,
}

-- The limiter after a history of requests.
unfoldable pub run : RateLimiter → List (ℕ × ℕ × Request) → RateLimiter
run s [] = s
run s ((now, later, request) ∷ rest) = run (is_allowed now later s request).0 rest

module _ (c : RateLimitConfig) (positive : 0 < c.max_requests) where
  pub record IsCalm (s : RateLimiter) : Type 0 where
    pub config : (path : String) → get_config s path ≡ c
    pub unblocked : s.blocked ≡ []
    pub few : (i : String) → length (recorded s i) ≤ c.max_requests

  over_limit-blocked :
      (now : ℕ) (s : RateLimiter) (i : String) (ts : List ℕ)
      → length ts ≤ c.max_requests
      → (over_limit now s i c ts).0.blocked ≡ s.blocked
  unfolding over_limit
  over_limit-blocked now s i [] h = refl
  over_limit-blocked now s i (t ∷ ts) h = ground arith

  module _ (now later : ℕ) (s : RateLimiter) (i : String) (k : IsCalm s) where
    few_live : length (live later s i c) ≤ c.max_requests
    few_live = omega (
      arith,
      k.few i,
      length-filter-le (is_live (c.window_seconds * second) later) (recorded s i),
    )

    check_window-blocked : (check_window now later s i c).0.blocked ≡ s.blocked
    check_window-blocked = elim (Bool-cases (leb c.max_requests (length (live later s i c)))) [
      | inl full ↦ rw (check_window_full now later s i c full) (
          over_limit-blocked now (cleaned later s i c) i (live later s i c) few_live
          ∙ unfold clean_old_requests in refl)
      | inr free ↦ rw (check_window_free now later s i c free) (unfold clean_old_requests in refl)
    ]

    check-blocked : (check now later s i c).0.blocked ≡ []
    unfolding check
    check-blocked =
        let e : get i s.blocked ≡ none = rw k.unblocked (unfold get in refl) in
        rw (e, check) (check_window-blocked ∙ k.unblocked)

    few_after : (j : String) → length (recorded (check now later s i c).0 j) ≤ c.max_requests
    few_after j = elim (Bool-cases (str_eq i j)) [
      | inl same ↦
          let e = check-Effect now later s i c in
          subst (λ j. length (recorded (check now later s i c).0 j) ≤ c.max_requests)
            (str_eq→eq i j same)
            (elim (Bool-cases (is_accepted (check now later s i c).1)) [
              | inl got ↦
                  rw (e.accepts got).1
                    (omega (arith, (e.accepts got).0, length-append (live later s i c) (now ∷ [])))
              | inr refused ↦ elim (e.rejects refused) [
                | inl cleaned' ↦ rw cleaned' few_live
                | inr same' ↦ rw same' (k.few i)
              ]
            ])
      | inr other ↦ rw ((check-Effect now later s i c).others j other) (k.few j)
    ]

    check-IsCalm : IsCalm (check now later s i c).0
    check-IsCalm = record {
      config = λ path. config-check now later s i c path ∙ k.config path;
      unblocked = check-blocked;
      few = few_after;
    }

  pub is_allowed-IsCalm :
      (now later : ℕ) (s : RateLimiter) (request : Request)
      → IsCalm s
      → IsCalm (is_allowed now later s request).0
  unfolding is_allowed
  is_allowed-IsCalm now later s request k =
      let i = get_identifier request in
      subst (λ d. IsCalm (check now later s i d).0) (sym (k.config request.path))
        (check-IsCalm now later s i k)

  -- With one configuration for every path and a limit of at least 1, from a limiter without blocks
  -- and with no more timestamps of any identifier than the limit, every sequence of requests, at
  -- any times and with any second readings of the clock, leaves no identifier blocked and none
  -- with more timestamps than the limit.
  pub run-IsCalm :
      (s : RateLimiter) (events : List (ℕ × ℕ × Request)) → IsCalm s → IsCalm (run s events)
  unfolding run
  run-IsCalm s [] k = k
  run-IsCalm s ((now, later, request) ∷ rest) k =
      run-IsCalm (is_allowed now later s request).0 rest (is_allowed-IsCalm now later s request k)
