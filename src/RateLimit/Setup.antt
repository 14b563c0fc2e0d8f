-- ===== src/RateLimit/Setup.antt =====
-- `RATE_LIMITS` and `setup_rate_limiting` of src/api/middleware/rate_limit.py.
use disposable_compute_platf.Prelude.{
  ℕ, String, ◌≡◌, refl, Bool, true, false, [], ◌∷◌, str_eq, eq_iff, ◌≢◌, ◌∙◌, All, arith,
  if◌then◌else◌,
}
use disposable_compute_platf.Prelude.Dict.{Dict, get-put}
use disposable_compute_platf.RateLimit.{
  RateLimitConfig, RateLimiter, configure_endpoint, get_config,
}

-- `RateLimitConfig(max_requests=n, window_seconds=60)`
abbrev per_minute : ℕ → RateLimitConfig
per_minute n = record { max_requests = n; window_seconds = 60; block_duration_seconds = 300 }

abbrev pub rate_limits : Dict RateLimitConfig
rate_limits =
    ("POST /sessions", per_minute 10)
    ∷ ("GET /sessions", per_minute 60)
    ∷ ("GET /sessions/{session_id}", per_minute 100)
    ∷ ("POST /auth/login", per_minute 5)
    ∷ ("POST /auth/register", per_minute 3)
    ∷ ("POST /auth/refresh", per_minute 10)
    ∷ ("GET /sessions/{session_id}/logs", per_minute 30)
    ∷ ("WS /ws/logs/{session_id}", per_minute 20)
    ∷ ("GET /health", per_minute 300)
    ∷ ("default", per_minute 100)
    ∷ []

unfoldable pub configure_all : RateLimiter → Dict RateLimitConfig → RateLimiter
unfolding configure_endpoint
configure_all s [] = s
configure_all s ((endpoint, config) ∷ rest) =
    configure_all (if str_eq endpoint "default" then s else configure_endpoint s endpoint config)
      rest

unfoldable pub setup_rate_limiting : RateLimiter → RateLimiter
unfolding configure_all
setup_rate_limiting s = configure_all s rate_limits

configure_endpoint_other :
    (s : RateLimiter) (endpoint path : String) (config : RateLimitConfig)
    → str_eq endpoint path ≡ false
    → get_config (configure_endpoint s endpoint config) path ≡ get_config s path
unfolding configure_endpoint get_config
configure_endpoint_other s endpoint path config h =
    ground (arith, get-put endpoint path config s.endpoint_configs)

configure_all_other :
    (s : RateLimiter) (d : Dict RateLimitConfig) (path : String)
    → All (λ e. str_eq e.0 path ≡ false) d
    → get_config (configure_all s d) path ≡ get_config s path
unfolding configure_all
configure_all_other s [] path h = refl
configure_all_other s ((k, c) ∷ d) path h =
    configure_all_other (if str_eq k "default" then s else configure_endpoint s k c) d path h.1
    ∙ one (str_eq k "default")
  where
    one :
        (b : Bool) → get_config (if b then s else configure_endpoint s k c) path ≡ get_config s path
    one true = refl
    one false = configure_endpoint_other s k path c h.0

differs : (k path : String) → k ≢ path → str_eq k path ≡ false
differs k path h = ground (arith, eq_iff k path)

-- The keys of the configured limits name a method and a path, but the limiter looks up the path of
-- the request alone: for every path that begins with a slash, the configuration after
-- `setup_rate_limiting` is the one before it.
pub setup_has_no_effect :
    (s : RateLimiter) (rest : String)
    → get_config (setup_rate_limiting s) (String.◌∷◌ "/" rest) ≡ get_config s (String.◌∷◌ "/" rest)
unfolding setup_rate_limiting
setup_has_no_effect s rest =
    let path : String = String.◌∷◌ "/" rest in
    configure_all_other s rate_limits path (
      differs "POST /sessions" path (λ e. cc),
      (
        differs "GET /sessions" path (λ e. cc),
        (
          differs "GET /sessions/{session_id}" path (λ e. cc),
          (
            differs "POST /auth/login" path (λ e. cc),
            (
              differs "POST /auth/register" path (λ e. cc),
              (
                differs "POST /auth/refresh" path (λ e. cc),
                (
                  differs "GET /sessions/{session_id}/logs" path (λ e. cc),
                  (
                    differs "WS /ws/logs/{session_id}" path (λ e. cc),
                    (differs "GET /health" path (λ e. cc), (differs "default" path (λ e. cc), tt)),
                  ),
                ),
              ),
            ),
          ),
        ),
      ),
    )
