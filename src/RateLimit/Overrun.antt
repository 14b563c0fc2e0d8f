-- ===== src/RateLimit/Overrun.antt =====
-- The two readings of the clock in `is_allowed` of src/api/middleware/rate_limit.py, and what they
-- let through.
use disposable_compute_platf.Prelude.{
  ℕ, ◌+◌, ◌-◌, ◌*◌, ◌<◌, String, ◌≡◌, refl, true, false, none, [], ◌∷◌, leb, length, filter, arith,
  eq_iff,
}
use disposable_compute_platf.Prelude.Dict.{get}
use disposable_compute_platf.RateLimit.Identifier.{Request, get_identifier}
use disposable_compute_platf.RateLimit.{
  RateLimitConfig, RateLimiter, second, recorded, check_window, check, is_allowed,
}
use disposable_compute_platf.RateLimit.Window.{
  check_window-Effect, check_window_free, is_accepted, live,
}
use disposable_compute_platf.RateLimit.Sliding.{accepted, in_window}
use disposable_compute_platf.RateLimit.Blocks.{IsCalm, is_allowed-IsCalm}

module _ (c : RateLimitConfig) (one : c.max_requests ≡ 1) (request : Request) where
  abbrev pub w : ℕ
  w = c.window_seconds * second

  abbrev pub i : String
  i = get_identifier request

  pub positive : 0 < c.max_requests
  positive = omega (arith, one)

  module _ (now later : ℕ) (s : RateLimiter) (calm : IsCalm c positive s)
      (clear : live later s i c ≡ []) where
    is_allowed-check_window : is_allowed now later s request ≡ check_window now later s i c
    unfolding is_allowed check
    is_allowed-check_window =
        let free : get i s.blocked ≡ none = rw calm.unblocked (unfold get in refl) in
        rw (calm.config request.path) (rw (free, check) refl)

    first-is_accepted : is_accepted (is_allowed now later s request).1 ≡ true
    first-is_accepted =
        let room : leb c.max_requests (length (live later s i c)) ≡ false = rw (clear, one) refl in
        rw is_allowed-check_window (rw (check_window_free now later s i c room) refl)

    recorded-first : recorded (is_allowed now later s request).0 i ≡ now ∷ []
    recorded-first =
        let room : leb c.max_requests (length (live later s i c)) ≡ false = rw (clear, one) refl in
        let got : is_accepted (check_window now later s i c).1 ≡ true =
          rw (check_window_free now later s i c room) refl in
        let kept : recorded (check_window now later s i c).0 i ≡ now ∷ [] =
          rw clear at (((check_window-Effect now later s i c).accepts got).1) in
        rw is_allowed-check_window kept

  -- When every path has one configuration with a limit of 1 and a window of at least a second,
  -- then from a limiter without blocks and timestamps, a request at any time t and a second one of
  -- the same identifier, whose first reading of the clock comes a microsecond before the end of
  -- the window and whose second reading at its end, are both accepted: the window that ends at the
  -- second one's recorded time holds two.
  pub overrun :
      (t : ℕ) (s : RateLimiter)
      → 0 < c.window_seconds
      → IsCalm c positive s
      → s.requests ≡ []
      → length (
          filter
            (in_window w (t + w - 1))
            (accepted i s ((t, t, request) ∷ (t + w - 1, t + w, request) ∷ [])))
        ≡ 2
  unfolding accepted
  overrun t s long calm fresh =
      let s1 = (is_allowed t t s request).0 in
      let clear : live t s i c ≡ [] = rw fresh (unfold get filter in refl) in
      let calm' : IsCalm c positive s1 = is_allowed-IsCalm c positive t t s request calm in
      let clear' : live (t + w) s1 i c ≡ [] =
        rw (recorded-first t t s calm clear) (unfold filter in ground arith) in
      rw
        (
          (eq_iff i i).1 refl,
          first-is_accepted t t s calm clear,
          first-is_accepted (t + w - 1) (t + w) s1 calm' clear',
        )
        (unfold filter in ground arith)
