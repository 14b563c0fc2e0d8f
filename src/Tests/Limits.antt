-- ===== src/Tests/Limits.antt =====
-- Requests to the rate limiter.
use disposable_compute_platf.Prelude.{
  ℕ, ◌+◌, ◌-◌, ◌*◌, ◌≤◌, ◌≡◌, refl, true, none, some, List, [], ◌∷◌, length, filter, arith,
}
use disposable_compute_platf.Prelude.Dict.{get, put}
use disposable_compute_platf.RateLimit.{
  RateLimitConfig, RateLimiter, second, get_config, check_window, over_limit, min_of,
}
use disposable_compute_platf.RateLimit.Identifier.{Request, get_identifier}
use disposable_compute_platf.RateLimit.Window.{is_accepted}
use disposable_compute_platf.RateLimit.Sliding.{accepted, in_window, accepted_within_limit}
use disposable_compute_platf.RateLimit.Blocks.{run, IsCalm, run-IsCalm}
use disposable_compute_platf.RateLimit.Retry.{retry_succeeds}
use disposable_compute_platf.RateLimit.Overrun.{positive, overrun}
use disposable_compute_platf.RateLimit.Setup.{setup_rate_limiting, setup_has_no_effect}

-- Two requests in ten seconds.
abbrev config : RateLimitConfig
config = record { max_requests = 2; window_seconds = 10; block_duration_seconds = 300 }

abbrev fresh : RateLimiter
fresh = record { default_config = config; requests = []; blocked = []; endpoint_configs = [] }

abbrev request : Request
request = record { user_id = some "u1"; client_host = none; forwarded_for = none; path = "/pods" }

-- Each request's second reading of the clock comes up to two microseconds later.
abbrev events : List (ℕ × ℕ × Request)
events =
    (0, 1, request)
    ∷ (3 * second, 3 * second, request)
    ∷ (4 * second, 4 * second + 2, request)
    ∷ (11 * second, 11 * second + 1, request)
    ∷ []

accepted_within_limit_example :
    length (filter (in_window (10 * second - 2) (12 * second)) (accepted "user:u1" fresh events))
    ≤ 2
unfolding get_config get
accepted_within_limit_example =
    accepted_within_limit 2 config "user:u1" fresh events (12 * second) (λ path. refl) refl
      (omega arith)

fresh-IsCalm : IsCalm config (omega arith) fresh
unfolding get_config get
fresh-IsCalm = record { config = λ path. refl; unblocked = refl; few = λ i. omega arith }

run-IsCalm_example : IsCalm config (omega arith) (run fresh events)
run-IsCalm_example = run-IsCalm config (omega arith) fresh events fresh-IsCalm

-- A limiter that has used up the limit of "a".
abbrev full : RateLimiter
full = record fresh { requests = ("a", 1000000 ∷ 2000000 ∷ []) ∷ [] }

retry_succeeds_example :
    is_accepted
      (check_window
        (5 * second + 7 * second)
        (12 * second + 9)
        (check_window (5 * second) (5 * second + 4) full "a" config).0
        "a"
        config).1
    ≡ true
unfolding get filter check_window over_limit min_of put
retry_succeeds_example =
    retry_succeeds (5 * second) (5 * second + 4) full "a" config (omega arith) 7 (12 * second + 9)
      (omega arith) (omega arith) (omega arith) refl

setup_has_no_effect_example :
    get_config (setup_rate_limiting fresh) "/sessions" ≡ get_config fresh "/sessions"
setup_has_no_effect_example = setup_has_no_effect fresh "sessions"

-- One request in ten seconds.
abbrev strict : RateLimitConfig
strict = record { max_requests = 1; window_seconds = 10; block_duration_seconds = 300 }

abbrev unused : RateLimiter
unused = record { default_config = strict; requests = []; blocked = []; endpoint_configs = [] }

unused-IsCalm : IsCalm strict (positive strict refl request) unused
unfolding get_config get
unused-IsCalm = record { config = λ path. refl; unblocked = refl; few = λ i. omega arith }

overrun_example :
    length (
      filter (in_window (10 * second) (7 + 10 * second - 1)) (
        accepted "user:u1" unused
          ((7, 7, request) ∷ (7 + 10 * second - 1, 7 + 10 * second, request) ∷ [])))
    ≡ 2
unfolding get_identifier
overrun_example = overrun strict refl request 7 unused (omega arith) unused-IsCalm refl
