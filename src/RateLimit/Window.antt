-- ===== src/RateLimit/Window.antt =====
-- The branches of the window check in `is_allowed` of src/api/middleware/rate_limit.py, and what
-- each does to the timestamps.
use disposable_compute_platf.Prelude.{
  ℕ, ◌*◌, ◌≤◌, ◌<◌, String, ◌≡◌, refl, ap, ◌∙◌, Bool, true, false, List, [], ◌∷◌, ◌++◌, leb, ltb,
  str_eq, eq_iff, length, filter, arith, Bool-cases, Option-cases, inl, inr, ◌⊎◌, if◌then◌else◌,
}
use disposable_compute_platf.Prelude.Dict.{Dict, get, put, del, get-put}
use disposable_compute_platf.RateLimit.{
  RateLimitConfig, RateLimiter, Reply, allowed, second, recorded, or_empty, is_live,
  clean_old_requests, over_limit, check_window, check, get_config,
}

abbrev pub is_accepted : Reply → Bool
is_accepted allowed = true
is_accepted _ = false

pub live_later : (w now t ts : ℕ) → now ≤ t → is_live w t ts ≡ true → is_live w now ts ≡ true
live_later w now t ts h k = ground arith

module _ (later : ℕ) (s : RateLimiter) (i : String) (c : RateLimitConfig) where
  abbrev pub window : ℕ
  window = c.window_seconds * second

  abbrev pub live : List ℕ
  live = filter (is_live window later) (recorded s i)

  recorded-clean :
      (j : String)
      → recorded (clean_old_requests later s i c.window_seconds) j
        ≡ (if str_eq i j then live else recorded s j)
  unfolding clean_old_requests
  recorded-clean j = ground (arith, get-put i j live s.requests)

  abbrev pub cleaned : RateLimiter
  cleaned = clean_old_requests later s i c.window_seconds

  pub recorded-clean_self : recorded cleaned i ≡ live
  recorded-clean_self = ground (arith, recorded-clean i, eq_iff i i)

module _ (now later : ℕ) (s : RateLimiter) (i : String) (c : RateLimitConfig) where
  pub recorded-over_limit :
      (s' : RateLimiter) (ts : List ℕ) → (over_limit now s' i c ts).0.requests ≡ s'.requests
  unfolding over_limit
  recorded-over_limit s' [] = refl
  recorded-over_limit s' (t ∷ ts) = ground arith

  pub rejects-over_limit :
      (s' : RateLimiter) (ts : List ℕ) → is_accepted (over_limit now s' i c ts).1 ≡ false
  unfolding over_limit
  rejects-over_limit s' [] = refl
  rejects-over_limit s' (t ∷ ts) = ground arith

  -- At the limit, and below it.
  pub check_window_full :
      leb c.max_requests (length (live later s i c)) ≡ true
      → check_window now later s i c ≡ over_limit now (cleaned later s i c) i c (live later s i c)
  unfolding check_window
  check_window_full h = ground (arith, recorded-clean_self later s i c)

  pub check_window_free :
      leb c.max_requests (length (live later s i c)) ≡ false
      → check_window now later s i c ≡ (
        record (cleaned later s i c) {
          requests = put i ((live later s i c) ++ now ∷ []) (cleaned later s i c).requests;
        },
        allowed,
      )
  unfolding check_window
  check_window_free h = ground (arith, recorded-clean_self later s i c)

  -- What one check does to the timestamps of the identifiers: an accepted request is one more,
  -- below the limit; otherwise none is added, and only timestamps out of the window go.
  pub record Effect (s' : RateLimiter) (r : Reply) : Type 0 where
    pub accepts :
        is_accepted r ≡ true
        → (length (live later s i c) < c.max_requests)
          × (recorded s' i ≡ (live later s i c) ++ now ∷ [])
    pub rejects :
        is_accepted r ≡ false → (recorded s' i ≡ live later s i c) ⊎ (recorded s' i ≡ recorded s i)
    pub others : (j : String) → str_eq i j ≡ false → recorded s' j ≡ recorded s j

  pub check_window-Effect : Effect (check_window now later s i c).0 (check_window now later s i c).1
  check_window-Effect = elim (Bool-cases (leb c.max_requests (length (live later s i c)))) [
    | inl full ↦
        let kept = recorded-over_limit (cleaned later s i c) (live later s i c) in
        let no' = rejects-over_limit (cleaned later s i c) (live later s i c) in
        rw (check_window_full full) (record {
          accepts = λ h. cc;
          rejects = λ h. inl (
              ap (λ (d : Dict (List ℕ)). or_empty (get i d)) kept
              ∙ recorded-clean_self later s i c);
          others = λ j h.
              ap (λ (d : Dict (List ℕ)). or_empty (get j d)) kept
              ∙ ground (arith, recorded-clean later s i c j);
        })
    | inr free ↦ rw (check_window_free free) (record {
      accepts = λ h. (
        ground arith,
        ground (
          arith,
          get-put i i ((live later s i c) ++ now ∷ []) (cleaned later s i c).requests,
          eq_iff i i,
        ),
      );
      rejects = λ h. cc;
      others = λ j h. ground (
        arith,
        recorded-clean later s i c j,
        get-put i j ((live later s i c) ++ now ∷ []) (cleaned later s i c).requests,
      );
    })
  ]

module _ (now later : ℕ) (s : RateLimiter) (i : String) (c : RateLimitConfig) where
  pub check-Effect : Effect now later s i c (check now later s i c).0 (check now later s i c).1
  unfolding check
  check-Effect = elim (Option-cases (get i s.blocked)) [
    | inl e ↦ rw (e, check) (check_window-Effect now later s i c)
    | inr (until, e) ↦ elim (Bool-cases (ltb now until)) [
      | inl b ↦
          rw (e, b, check)
            (record { accepts = λ h. cc; rejects = λ h. inr refl; others = λ j h. refl })
      | inr b ↦
          let k = check_window-Effect now later (record s { blocked = del i s.blocked }) i c in
          rw (e, b, check) (record { accepts = k.accepts; rejects = k.rejects; others = k.others })
    ]
  ]

  config-over_limit :
      (s' : RateLimiter) (ts : List ℕ) (path : String)
      → get_config (over_limit now s' i c ts).0 path ≡ get_config s' path
  unfolding over_limit get_config
  config-over_limit s' [] path = refl
  config-over_limit s' (t ∷ ts) path = ground arith

  config-check_window :
      (s' : RateLimiter) (path : String)
      → get_config (check_window now later s' i c).0 path ≡ get_config s' path
  config-check_window s' path =
      elim (Bool-cases (leb c.max_requests (length (live later s' i c)))) [
        | inl full ↦ rw (check_window_full now later s' i c full) (
            config-over_limit (cleaned later s' i c) (live later s' i c) path
            ∙ unfold clean_old_requests get_config in refl)
        | inr free ↦
            rw (check_window_free now later s' i c free)
              (unfold clean_old_requests get_config in refl)
      ]

  -- No check changes the configuration.
  pub config-check : (path : String) → get_config (check now later s i c).0 path ≡ get_config s path
  unfolding check get_config
  config-check path = ground (
    arith,
    config-check_window s path,
    config-check_window (record s { blocked = del i s.blocked }) path,
  )
