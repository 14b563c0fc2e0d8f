-- ===== src/Quota/Usage/Limits.antt =====
-- The usage quotas of src/api/middleware/rate_limit.py against the limits of the tiers.
use disposable_compute_platf.Prelude.{
  ℕ, ◌+◌, ◌≤◌, String, ◌≡◌, Option, none, some, List, [], ◌∷◌, ltb, str_eq, eq_iff, arith,
  if◌then◌else◌,
}
use disposable_compute_platf.Prelude.Dict.{get, put, get-put}
use disposable_compute_platf.Quota.Usage.{
  get_quota, or_new, Usage, usage_of, set_usage, check_quota, increment_usage, reset_usage,
  cleanup_loop, user_ids, cleanup_old_usage, User, passes, exceeded, require_quota,
}

-- Reading after a write.
usage_of-set_usage :
    (u : Usage) (i m j k : String) (n : ℕ)
    → usage_of (set_usage u i m n) j k
      ≡ (if str_eq i j then (if str_eq m k then n else usage_of u j k) else usage_of u j k)
unfolding usage_of set_usage
usage_of-set_usage u i m j k n = ground (
  arith,
  get-put i j (put m n (or_new (get i u))) u,
  get-put m k n (or_new (get i u)),
  eq_iff i j,
)

usage_of-check_quota :
    (u : Usage) (i t m j k : String) (r : ℕ)
    → usage_of (check_quota u i t m r).0 j k ≡ usage_of u j k
unfolding check_quota
usage_of-check_quota u i t m j k r =
    ground (arith, usage_of-set_usage u i m j k (usage_of u i m), eq_iff i j, eq_iff m k)

usage_of-increment_usage :
    (u : Usage) (i m j k : String) (n : ℕ)
    → usage_of (increment_usage u i m n) j k ≡ (
        if str_eq i j
        then (if str_eq m k then usage_of u j k + n else usage_of u j k)
        else usage_of u j k)
unfolding increment_usage
usage_of-increment_usage u i m j k n =
    ground (arith, usage_of-set_usage u i m j k (usage_of u i m + n), eq_iff i j, eq_iff m k)

-- `require_quota` lets a user's call pass exactly when the usage of the metric is below the limit
-- of the tier, and raises with the limit otherwise; a call that passes adds 1 to that user's usage
-- of that metric, and no other usage ever changes.
pub require_quota_lem :
    (metric : String) (u : Usage) (user : User) (j k : String)
    → ((require_quota metric u (some user)).1 ≡ (
        if ltb (usage_of u user.id metric) (get_quota user.tier metric)
        then passes
        else exceeded (get_quota user.tier metric)))
      × (usage_of (require_quota metric u (some user)).0 j k ≡ (
          if ltb (usage_of u user.id metric) (get_quota user.tier metric)
          then (if str_eq user.id j
              then (if str_eq metric k then usage_of u j k + 1 else usage_of u j k)
              else usage_of u j k)
          else usage_of u j k))
unfolding require_quota check_quota
require_quota_lem metric u user j k =
    let u' = set_usage u user.id metric (usage_of u user.id metric) in
    (
      ground arith,
      ground (
        arith,
        usage_of-set_usage u user.id metric j k (usage_of u user.id metric),
        usage_of-increment_usage u' user.id metric j k 1,
        eq_iff user.id j,
        eq_iff metric k,
      ),
    )

-- What happens to the usage counters.
pub data Call : Type 0 where
  guarded : String → Option User → Call
  reset : String → Option String → Call
  hourly : Call

unfoldable pub call : Usage → Call → Usage
unfolding require_quota reset_usage cleanup_old_usage
call u (guarded metric user) = (require_quota metric u user).0
call u (reset user_id metric) = reset_usage u user_id metric
call u hourly = cleanup_old_usage u

unfoldable pub calls : Usage → List Call → Usage
unfolding call
calls u [] = u
calls u (c ∷ cs) = calls (call u c) cs

module _ (tier_of : String → String) where
  -- Every user is within the limits of the tier.
  abbrev pub IsWithin : Usage → Type 0
  IsWithin u = (i m : String) → usage_of u i m ≤ get_quota (tier_of i) m

  -- The users that call have the tiers that they are said to have.
  abbrev pub HasTier : Call → Type 0
  HasTier (guarded metric none) = Unit
  HasTier (guarded metric (some user)) = user.tier ≡ tier_of user.id
  HasTier _ = Unit

  abbrev pub AllHaveTier : List Call → Type 0
  AllHaveTier [] = Unit
  AllHaveTier (c ∷ cs) = HasTier c × AllHaveTier cs

  set_zero-IsWithin : (u : Usage) (i m : String) → IsWithin u → IsWithin (set_usage u i m 0)
  set_zero-IsWithin u i m h = λ j k. ground (arith, usage_of-set_usage u i m j k 0, h j k)

  cleanup_loop-IsWithin : (u : Usage) (is : List String) → IsWithin u → IsWithin (cleanup_loop u is)
  unfolding cleanup_loop
  cleanup_loop-IsWithin u [] h = h
  cleanup_loop-IsWithin u (i ∷ is) h =
      cleanup_loop-IsWithin (set_usage u i "sessions_per_hour" 0) is
        (set_zero-IsWithin u i "sessions_per_hour" h)

  clear-IsWithin : (u : Usage) (i : String) → IsWithin u → IsWithin (put i [] u)
  unfolding usage_of get
  clear-IsWithin u i h = λ j k. ground (arith, get-put i j [] u, h j k)

  reset-IsWithin :
      (u : Usage) (i : String) (m : Option String) → IsWithin u → IsWithin (reset_usage u i m)
  unfolding reset_usage
  reset-IsWithin u i none h = clear-IsWithin u i h
  reset-IsWithin u i (some String.[]) h = clear-IsWithin u i h
  reset-IsWithin u i (some (String.◌∷◌ c m)) h = set_zero-IsWithin u i (String.◌∷◌ c m) h

  require-IsWithin :
      (u : Usage) (metric : String) (user : User)
      → user.tier ≡ tier_of user.id
      → IsWithin u
      → IsWithin (require_quota metric u (some user)).0
  require-IsWithin u metric user e h = λ j k.
      ground (
        arith,
        (require_quota_lem metric u user j k).1,
        h j k,
        eq_iff user.id j,
        eq_iff metric k,
        e,
      )

  call-IsWithin : (u : Usage) (c : Call) → HasTier c → IsWithin u → IsWithin (call u c)
  unfolding call
  call-IsWithin u (guarded metric none) t h = unfold require_quota in h
  call-IsWithin u (guarded metric (some user)) t h = require-IsWithin u metric user t h
  call-IsWithin u (reset i m) t h = reset-IsWithin u i m h
  call-IsWithin u hourly t h = unfold cleanup_old_usage in cleanup_loop-IsWithin u (user_ids u) h

  -- When every user's usage is within the limits of the tier and every call comes from a user with
  -- the tier stated for it, every sequence of guarded calls, resets and hourly clean-ups leaves
  -- every user's usage within the limits.
  pub calls-IsWithin :
      (u : Usage) (cs : List Call) → AllHaveTier cs → IsWithin u → IsWithin (calls u cs)
  unfolding calls
  calls-IsWithin u [] t h = h
  calls-IsWithin u (c ∷ cs) t h = calls-IsWithin (call u c) cs t.1 (call-IsWithin u c t.0 h)
