-- ===== src/Validation/Limiter/Same.antt =====
-- `RateLimiter` of src/utils/input_validation.py beside the window check of
-- src/api/middleware/rate_limit.py.
use disposable_compute_platf.Prelude.{
  ℕ, String, ◌≡◌, ◌↔◌, refl, sym, ap, ◌∙◌, true, List, [], ◌∷◌, ◌++◌, leb, length, arith,
  Bool-cases, inl, inr,
}
use disposable_compute_platf.Prelude.Dict.{put, put-put}
use disposable_compute_platf.RateLimit.{
  RateLimitConfig, RateLimiter, Reply, value_error, over_limit, clean_old_requests, check_window,
}
use disposable_compute_platf.RateLimit.Window.{
  is_accepted, live, cleaned, check_window_full, check_window_free, recorded-over_limit,
  rejects-over_limit,
}
use disposable_compute_platf.Validation.Limiter.{SimpleLimiter, is_request_allowed}

-- What is left of a limiter without its blocks, under one configuration.
abbrev pub without_blocks : RateLimitConfig → RateLimiter → SimpleLimiter
without_blocks c r = record {
  max_requests = c.max_requests;
  window_seconds = c.window_seconds;
  requests = r.requests;
}

module _ (c : RateLimitConfig) (now later : ℕ) (i : String) (r : RateLimiter) where
  requests-cleaned : (cleaned later r i c).requests ≡ put i (live later r i c) r.requests
  unfolding clean_old_requests
  requests-cleaned = refl

  -- Both limiters, when what is left in the window is the same at both readings of the clock.
  same_answer :
      live later r i c ≡ live now r i c
      → is_request_allowed now (without_blocks c r) i ≡ (
        without_blocks c (check_window now later r i c).0,
        is_accepted (check_window now later r i c).1,
      )
  unfolding is_request_allowed
  same_answer still = elim (Bool-cases (leb c.max_requests (length (live later r i c)))) [
    | inl full ↦
        let kept = recorded-over_limit now later r i c (cleaned later r i c) (live later r i c) in
        let refused = rejects-over_limit now later r i c (cleaned later r i c) (live later r i c) in
        rw (check_window_full now later r i c full)
          (rw (← still) (rw (full, refused, kept, requests-cleaned) refl))
    | inr free ↦
        let once = put-put i (live later r i c ++ now ∷ []) (live later r i c) r.requests in
        rw (check_window_free now later r i c free)
          (rw (← still) (rw free (rw (requests-cleaned, once) refl)))
  ]

  error-over_limit :
      (s : RateLimiter) (ts : List ℕ) → (over_limit now s i c ts).1 ≡ value_error → ts ≡ []
  unfolding over_limit
  error-over_limit s [] h = refl
  error-over_limit s (t ∷ ts) h = ground arith

  raises→no_limit :
      (check_window now later r i c).1 ≡ value_error
      → (c.max_requests ≡ 0) × (live later r i c ≡ [])
  raises→no_limit h = elim (Bool-cases (leb c.max_requests (length (live later r i c)))) [
    | inl full ↦
        let none_left : live later r i c ≡ [] =
          error-over_limit (cleaned later r i c) (live later r i c) (
            sym (ap (λ (x : RateLimiter × Reply). x.1) (check_window_full now later r i c full))
            ∙ h) in
        let empty : length (live later r i c) ≡ 0 = ap length none_left in (ground arith, none_left)
    | inr free ↦ cc (h, check_window_free now later r i c free)
  ]

  no_limit→raises :
      (c.max_requests ≡ 0) × (live later r i c ≡ [])
      → (check_window now later r i c).1 ≡ value_error
  no_limit→raises (zero_limit, none_left) =
      let full : leb c.max_requests (length (live later r i c)) ≡ true = ground arith in
      rw (check_window_full now later r i c full) (rw none_left (unfold over_limit in refl))

  -- The simple limiter reads the clock once, the window check of the API's limiter twice. On the
  -- timestamps of any limiter and with the limits of any configuration, when as many timestamps of
  -- the identifier, the same ones, are in the window at both readings, the simple limiter answers
  -- whether the window check accepts, and leaves the same timestamps; and the window check raises
  -- ValueError, where the simple limiter answers false, exactly when the limit is 0 and no
  -- timestamp is in the window.
  pub is_request_allowed-check_window :
      live later r i c ≡ live now r i c
      → (is_request_allowed now (without_blocks c r) i ≡ (
        without_blocks c (check_window now later r i c).0,
        is_accepted (check_window now later r i c).1,
      ))
        × ((check_window now later r i c).1 ≡ value_error
            ↔ (c.max_requests ≡ 0) × (live later r i c ≡ []))
  is_request_allowed-check_window still = (same_answer still, (raises→no_limit, no_limit→raises))
