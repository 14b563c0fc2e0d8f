-- ===== src/Validation/Limiter.antt =====
-- `RateLimiter` of src/utils/input_validation.py. Times are microseconds; `get_retry_after` rounds
-- down to whole seconds, and a difference below zero is 0.
pub mod Same
use disposable_compute_platf.Prelude.{
  ℕ, ◌+◌, ◌-◌, ◌*◌, ◌/◌, String, Bool, true, false, Option, none, some, List, [], ◌∷◌, ◌++◌, ltb,
  leb, length, filter, if◌then◌else◌,
}
use disposable_compute_platf.Prelude.Dict.{Dict, get, put}
use disposable_compute_platf.RateLimit.{or_empty, min_of}

pub record SimpleLimiter : Type 0 where
  pub max_requests : ℕ
  pub window_seconds : ℕ
  pub requests : Dict (List ℕ)

-- `ts > now - window_seconds`
abbrev pub is_recent : ℕ → ℕ → ℕ → Bool
is_recent window_seconds now ts = ltb now (ts + window_seconds * 1000000)

unfoldable pub is_request_allowed : ℕ → SimpleLimiter → String → SimpleLimiter × Bool
is_request_allowed now s identifier =
    let recent = filter (is_recent s.window_seconds now) (or_empty (get identifier s.requests)) in
    if leb s.max_requests (length recent)
    then (record s { requests = put identifier recent s.requests }, false)
    else (record s { requests = put identifier (recent ++ now ∷ []) s.requests }, true)

unfoldable pub get_retry_after : ℕ → SimpleLimiter → String → Option ℕ
unfolding min_of
get_retry_after now s identifier = elim (get identifier s.requests) [
  | none ↦ none
  | some [] ↦ none
  | some (ts ∷ more) ↦ some ((min_of ts more + s.window_seconds * 1000000 - now) / 1000000)
]
