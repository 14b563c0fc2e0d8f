-- ===== src/RateLimit/Retry.antt =====
-- The waiting time that `is_allowed` of src/api/middleware/rate_limit.py answers.
use disposable_compute_platf.Prelude.{
  ℕ, ◌+◌, ◌-◌, ◌*◌, ◌/◌, ◌≤◌, ◌<◌, min, String, ◌≡◌, sym, ap, ◌∙◌, true, false, List, [], ◌∷◌, leb,
  leb→le, length, filter, length-filter_mono, All-any, arith, Bool-cases, inl, inr,
}
use disposable_compute_platf.Prelude.Dict.{Dict, get}
use disposable_compute_platf.RateLimit.{
  RateLimitConfig, RateLimiter, Reply, denied, second, recorded, or_empty, is_live, min_of,
  over_limit, check_window,
}
use disposable_compute_platf.RateLimit.Window.{
  check_window_full, check_window_free, is_accepted, live_later, live, cleaned, recorded-clean_self,
  recorded-over_limit,
}

-- When the oldest timestamp has left the window, there is one less.
oldest_leaves :
    (w t x : ℕ) (xs : List ℕ)
    → is_live w t (min_of x xs) ≡ false
    → length (filter (is_live w t) (x ∷ xs)) < length (x ∷ xs)
unfolding filter min_of
oldest_leaves w t x [] h = ground arith
oldest_leaves w t x (y ∷ ys) h = elim (Bool-cases (leb x y)) [
  | inl le ↦
      let e : min x y ≡ x = omega (arith, leb→le x y le) in
      let ih : length (filter (is_live w t) (x ∷ ys)) < length (x ∷ ys) =
        rw e at (oldest_leaves w t (min x y) ys h) in
      ground arith
  | inr gt ↦
      let e : min x y ≡ y = ground arith in
      let ih : length (filter (is_live w t) (y ∷ ys)) < length (y ∷ ys) =
        rw e at (oldest_leaves w t (min x y) ys h) in
      ground arith
]

-- A number of seconds, rounded down and one more, is longer than the wait.
waited : (d : ℕ) → d < (d / second + 1) * second
waited d = omega arith

module _ (now later : ℕ) (s : RateLimiter) (i : String) (c : RateLimitConfig)
    (positive : 0 < c.max_requests) where
  abbrev w : ℕ
  w = c.window_seconds * second

  wait_over :
      (s' : RateLimiter) (ts : List ℕ) (r : ℕ)
      → length ts ≤ c.max_requests
      → (over_limit now s' i c ts).1 ≡ denied r
      → length (filter (is_live w (now + r * second)) ts) < c.max_requests
  unfolding over_limit
  wait_over s' [] r few h = cc
  wait_over s' (x ∷ xs) r few h =
      let oldest = min_of x xs in
      let d = oldest + w - now in
      let e : r ≡ d / second + 1 = ground arith in
      let gone : is_live w (now + r * second) oldest ≡ false = ground (arith, waited d) in
      omega (arith, oldest_leaves w (now + r * second) x xs gone)

  -- With a limit of at least 1 and no more timestamps of the identifier in the window than the
  -- limit, when the window check, whose second reading of the clock is not before its first,
  -- denies a request with a waiting time, the same check on the resulting state accepts a request
  -- exactly that many seconds after the first reading, at whatever time from then on it reads the
  -- clock again.
  pub retry_succeeds :
      (r again : ℕ)
      → now ≤ later
      → now + r * second ≤ again
      → length (live later s i c) ≤ c.max_requests
      → (check_window now later s i c).1 ≡ denied r
      → is_accepted (check_window (now + r * second) again (check_window now later s i c).0 i c).1
        ≡ true
  retry_succeeds r again clock wait few h =
      elim (Bool-cases (leb c.max_requests (length (live later s i c)))) [
        | inr free ↦ cc (h, check_window_free now later s i c free)
        | inl full ↦
            let ts = live later s i c in
            let cl = cleaned later s i c in
            let s1 = (check_window now later s i c).0 in
            let e = check_window_full now later s i c full in
            let kept : recorded s1 i ≡ ts =
              ap (λ (p : RateLimiter × Reply). recorded p.0 i) e
              ∙ ap (λ (d : Dict (List ℕ)). or_empty (get i d))
                  (recorded-over_limit now later s i c cl ts)
              ∙ recorded-clean_self later s i c in
            let room = wait_over cl ts r few (sym (ap (λ (p : RateLimiter × Reply). p.1) e) ∙ h) in
            let room' : length (filter (is_live w (now + r * second)) (recorded s1 i))
                < c.max_requests =
              rw kept room in
            let fewer =
              length-filter_mono (is_live w again) (is_live w (now + r * second)) (recorded s1 i)
                (All-any (λ x. live_later w (now + r * second) again x wait) (recorded s1 i)) in
            let free : leb c.max_requests (length (live again s1 i c)) ≡ false = ground arith in
            rw (check_window_free (now + r * second) again s1 i c free)
      ]
