-- ===== src/RateLimit.antt =====
-- src/api/middleware/rate_limit.py: the sliding-window rate limiter and its configuration.
-- Times are counted in microseconds, the resolution of `time.time()`; a timestamp is kept while
-- now - window < ts, which is written without the subtraction (that of ℕ stops at 0). `is_allowed`
-- and `get_rate_limit_headers` read the clock more than once: `now` is the reading that is recorded,
-- and `later` the one that `_clean_old_requests` takes.
pub mod Identifier
pub mod Window
pub mod Sliding
pub mod Blocks
pub mod Retry
pub mod Setup
pub mod Overrun
use disposable_compute_platf.Prelude.{
  ℕ, ◌+◌, ◌-◌, ◌*◌, ◌/◌, min, String, Bool, true, false, Option, none, some, List, [], ◌∷◌, ◌++◌,
  leb, ltb, length, filter, if◌then◌else◌,
}
use disposable_compute_platf.Prelude.Dict.{Dict, get, put, del}
use disposable_compute_platf.RateLimit.Identifier.{Request, get_identifier}

pub record RateLimitConfig : Type 0 where
  pub max_requests : ℕ
  pub window_seconds : ℕ
  pub block_duration_seconds : ℕ

pub record RateLimiter : Type 0 where
  pub default_config : RateLimitConfig
  pub requests : Dict (List ℕ)
  pub blocked : Dict ℕ
  pub endpoint_configs : Dict RateLimitConfig

-- What `is_allowed` returns, and the exception that `min` of an empty list raises.
pub data Reply : Type 0 where
  allowed : Reply
  denied : ℕ → Reply
  value_error : Reply

-- A second in microseconds.
abbrev pub second : ℕ
second = 1000000

-- `defaultdict(list)`
abbrev pub or_empty : Option (List ℕ) → List ℕ
or_empty none = []
or_empty (some ts) = ts

abbrev pub recorded : RateLimiter → String → List ℕ
recorded s identifier = or_empty (get identifier s.requests)

unfoldable pub configure_endpoint : RateLimiter → String → RateLimitConfig → RateLimiter
configure_endpoint s endpoint config = record s {
  endpoint_configs = put endpoint config s.endpoint_configs;
}

abbrev or_default : RateLimitConfig → Option RateLimitConfig → RateLimitConfig
or_default d none = d
or_default d (some c) = c

unfoldable pub get_config : RateLimiter → String → RateLimitConfig
get_config s endpoint = or_default s.default_config (get endpoint s.endpoint_configs)

-- Is the timestamp in the window of so many microseconds that ends now?
abbrev pub is_live : ℕ → ℕ → ℕ → Bool
is_live window now ts = ltb now (ts + window)

unfoldable pub clean_old_requests : ℕ → RateLimiter → String → ℕ → RateLimiter
clean_old_requests now s identifier window_seconds = record s {
  requests =
      put identifier (filter (is_live (window_seconds * second) now) (recorded s identifier))
        s.requests;
}

unfoldable pub min_of : ℕ → List ℕ → ℕ
min_of x [] = x
min_of x (y ∷ ys) = min_of (min x y) ys

-- The branch of `is_allowed` over the limit. The list is the identifier's, already cleaned.
unfoldable pub over_limit :
    ℕ → RateLimiter → String → RateLimitConfig → List ℕ → RateLimiter × Reply
unfolding min_of
over_limit now s identifier config [] = (s, value_error)
over_limit now s identifier config (ts ∷ more) =
    let oldest = min_of ts more in
    let retry_after = (oldest + config.window_seconds * second - now) / second + 1 in
    if leb (config.max_requests * 3) (length (ts ∷ more))
    then (
      record s {
        blocked = put identifier (now + config.block_duration_seconds * second) s.blocked;
      },
      denied config.block_duration_seconds,
    )
    else (s, denied retry_after)

-- `is_allowed` once the identifier is known not to be blocked.
unfoldable pub check_window : ℕ → ℕ → RateLimiter → String → RateLimitConfig → RateLimiter × Reply
unfolding clean_old_requests over_limit
check_window now later s identifier config =
    let s' = clean_old_requests later s identifier config.window_seconds in
    let current = recorded s' identifier in
    if leb config.max_requests (length current)
    then over_limit now s' identifier config current
    else (record s' { requests = put identifier (current ++ now ∷ []) s'.requests }, allowed)

unfoldable pub check : ℕ → ℕ → RateLimiter → String → RateLimitConfig → RateLimiter × Reply
unfolding check_window
check now later s identifier config = elim (get identifier s.blocked) [
  | none ↦ check_window now later s identifier config
  | some block_until ↦
      if ltb now block_until
      then (s, denied ((block_until - now) / second))
      else check_window now later (record s { blocked = del identifier s.blocked }) identifier
          config
]

unfoldable pub is_allowed : ℕ → ℕ → RateLimiter → Request → RateLimiter × Reply
unfolding get_config
is_allowed now later s request =
    check now later s (get_identifier request) (get_config s request.path)

-- The numbers of `get_rate_limit_headers`, whose clean-up reads the clock before the reset time
-- does.
pub record Headers : Type 0 where
  pub limit : ℕ
  pub remaining : ℕ
  pub reset : ℕ

unfoldable pub reset_time : ℕ → ℕ → List ℕ → ℕ
unfolding min_of
reset_time now window_seconds [] = (now + window_seconds * second) / second
reset_time now window_seconds (ts ∷ more) = (min_of ts more + window_seconds * second) / second

unfoldable pub get_rate_limit_headers : ℕ → ℕ → RateLimiter → Request → RateLimiter × Headers
unfolding clean_old_requests get_config reset_time
get_rate_limit_headers cleaned now s request =
    let identifier = get_identifier request in
    let config = get_config s request.path in
    let s' = clean_old_requests cleaned s identifier config.window_seconds in
    let current = recorded s' identifier in
    (
      s',
      record {
        limit = config.max_requests;
        remaining = config.max_requests - length current;
        reset = reset_time now config.window_seconds current;
      },
    )

-- `cleanup`: old timestamps, identifiers with none left, and blocks that have expired.
abbrev max_window : ℕ → Dict RateLimitConfig → ℕ
max_window m [] = m
max_window m ((k, c) ∷ d) = max_window (if ltb m c.window_seconds then c.window_seconds else m) d

unfoldable pub clean_requests : ℕ → ℕ → Dict (List ℕ) → Dict (List ℕ)
clean_requests window now [] = []
clean_requests window now ((k, ts) ∷ d) =
    let rest = clean_requests window now d in
    elim (filter (is_live window now) ts) [ [] ↦ rest | t ∷ more ↦ (k, t ∷ more) ∷ rest ]

unfoldable pub clean_blocks : ℕ → Dict ℕ → Dict ℕ
clean_blocks now [] = []
clean_blocks now ((k, until) ∷ d) =
    let rest = clean_blocks now d in if leb until now then rest else (k, until) ∷ rest

unfoldable pub cleanup : ℕ → RateLimiter → RateLimiter
unfolding clean_requests clean_blocks
cleanup now s =
    let window = max_window s.default_config.window_seconds s.endpoint_configs * 2 * second in
    record s {
      requests = clean_requests window now s.requests;
      blocked = clean_blocks now s.blocked;
    }
