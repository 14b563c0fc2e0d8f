-- ===== src/Quota/Usage.antt =====
-- `QuotaManager` of src/api/middleware/rate_limit.py: how often a user of a tier may do what.
pub mod Limits
use disposable_compute_platf.Prelude.{
  ℕ, ◌+◌, ◌-◌, ◌≤◌, String, ◌≡◌, Bool, Option, none, some, List, [], ◌∷◌, leb, ltb, str_eq, eq_iff,
  arith, if◌then◌else◌,
}
use disposable_compute_platf.Prelude.Dict.{Dict, get, put, get-put}

abbrev tier_quotas : ℕ → ℕ → ℕ → ℕ → ℕ → ℕ → ℕ → Dict ℕ
tier_quotas per_hour per_day ttl concurrent cpu memory storage =
    ("sessions_per_hour", per_hour)
    ∷ ("sessions_per_day", per_day)
    ∷ ("max_session_ttl", ttl)
    ∷ ("max_concurrent_sessions", concurrent)
    ∷ ("cpu_cores", cpu)
    ∷ ("memory_mb", memory)
    ∷ ("storage_gb", storage)
    ∷ []

abbrev pub free_quotas : Dict ℕ
free_quotas = tier_quotas 5 20 60 3 2 2048 10

abbrev pub quotas : Dict (Dict ℕ)
quotas =
    ("free", free_quotas)
    ∷ ("pro", tier_quotas 20 100 480 10 8 16384 50)
    ∷ ("enterprise", tier_quotas 100 500 1440 50 32 65536 200)
    ∷ []

abbrev or_zero : Option ℕ → ℕ
or_zero none = 0
or_zero (some n) = n

abbrev or_free : Option (Dict ℕ) → Dict ℕ
or_free none = free_quotas
or_free (some d) = d

abbrev or_new : Option (Dict ℕ) → Dict ℕ
or_new none = []
or_new (some d) = d

unfoldable pub get_quota : String → String → ℕ
get_quota user_tier metric = or_zero (get metric (or_free (get user_tier quotas)))

-- `_usage`, a `defaultdict` of `defaultdict`s of numbers.
abbrev pub Usage : Type 0
Usage = Dict (Dict ℕ)

-- `self._usage[user_id][metric]`
unfoldable pub usage_of : Usage → String → String → ℕ
usage_of u user_id metric = or_zero (get metric (or_new (get user_id u)))

-- `self._usage[user_id][metric] = n`
unfoldable pub set_usage : Usage → String → String → ℕ → Usage
set_usage u user_id metric n = put user_id (put metric n (or_new (get user_id u))) u

-- The read of a `defaultdict` stores the default that it returns.
unfoldable pub check_quota : Usage → String → String → String → ℕ → Usage × Bool × ℕ
unfolding usage_of set_usage get_quota
check_quota u user_id user_tier metric required =
    let limit = get_quota user_tier metric in
    let current = usage_of u user_id metric in
    (set_usage u user_id metric current, leb (current + required) limit, limit - current)

unfoldable pub increment_usage : Usage → String → String → ℕ → Usage
unfolding usage_of set_usage
increment_usage u user_id metric amount =
    set_usage u user_id metric (usage_of u user_id metric + amount)

-- `if metric:` is false for `None` and for an empty text.
unfoldable pub reset_usage : Usage → String → Option String → Usage
unfolding set_usage
reset_usage u user_id none = put user_id [] u
reset_usage u user_id (some String.[]) = put user_id [] u
reset_usage u user_id (some (String.◌∷◌ c m)) = set_usage u user_id (String.◌∷◌ c m) 0

-- The loop over the users, and `cleanup_old_usage`.
unfoldable pub cleanup_loop : Usage → List String → Usage
unfolding set_usage
cleanup_loop u [] = u
cleanup_loop u (user_id ∷ rest) = cleanup_loop (set_usage u user_id "sessions_per_hour" 0) rest

abbrev user_ids : Usage → List String
user_ids [] = []
user_ids ((k, d) ∷ u) = k ∷ user_ids u

unfoldable pub cleanup_old_usage : Usage → Usage
unfolding cleanup_loop
cleanup_old_usage u = cleanup_loop u (user_ids u)

-- The user of a request, if there is one.
pub record User : Type 0 where
  pub id : String
  pub tier : String

-- What `require_quota` does before the endpoint: let the call pass, or raise with the limit.
pub data Access : Type 0 where
  passes : Access
  exceeded : ℕ → Access

unfoldable pub require_quota : String → Usage → Option User → Usage × Access
unfolding check_quota increment_usage
require_quota metric u none = (u, passes)
require_quota metric u (some user) =
    let (u', has_quota, remaining) = check_quota u user.id user.tier metric 1 in
    if has_quota
    then (increment_usage u' user.id metric 1, passes)
    else (u', exceeded (get_quota user.tier metric))
