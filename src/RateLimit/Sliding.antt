-- ===== src/RateLimit/Sliding.antt =====
-- Histories of requests to `is_allowed` of src/api/middleware/rate_limit.py, and the windows
-- in which it accepts them.
use disposable_compute_platf.Prelude.{
  ℕ, ◌+◌, ◌-◌, ◌*◌, ◌≤◌, ◌<◌, String, ◌≡◌, refl, sym, ap, ◌∙◌, Bool, true, false, List, [], ◌∷◌,
  ◌++◌, leb, ltb, str_eq, str_eq→eq, ◌&&◌, length, filter, arith, All, All-imp, All-append,
  Bool-cases, inl, inr, ◌⊎◌, filter-append, filter-filter, length-filter_mono, length-append,
  if◌then◌else◌,
}
use mathlib.Core.Path.{subst}
use mathlib.Core.List.{append_assoc, append-nil}
use disposable_compute_platf.Prelude.Dict.{get}
use disposable_compute_platf.RateLimit.Identifier.{Request, get_identifier}
use disposable_compute_platf.RateLimit.{
  RateLimitConfig, RateLimiter, second, recorded, is_live, check, is_allowed, get_config,
}
use disposable_compute_platf.RateLimit.Window.{
  Effect, check-Effect, config-check, is_accepted, live_later,
}

-- The times at which requests of the identifier were accepted.
unfoldable pub accepted : String → RateLimiter → List (ℕ × ℕ × Request) → List ℕ
accepted i s [] = []
accepted i s ((now, later, request) ∷ rest) =
    let (s', reply) = is_allowed now later s request in
    let later = accepted i s' rest in
    if str_eq (get_identifier request) i && is_accepted reply then now ∷ later else later

-- The window of so many microseconds that ends at a time.
abbrev pub in_window : ℕ → ℕ → ℕ → Bool
in_window w t ts = leb ts t && ltb t (ts + w)

-- The clock never goes back, and at most so much time passes between a request's two readings.
abbrev pub InOrder : ℕ → ℕ → List (ℕ × ℕ × Request) → Type 0
InOrder gap now [] = Unit
InOrder gap now ((t, later, request) ∷ rest) =
    (now ≤ t) × (t ≤ later) × (later ≤ t + gap) × InOrder gap later rest

module _ (gap : ℕ) (c : RateLimitConfig) (i : String) where
  abbrev w : ℕ
  w = c.window_seconds * second

  -- What is left of the window when the readings are so far apart.
  abbrev v : ℕ
  v = w - gap

  -- The recorded timestamps agree with the history as far as the window reaches, and the history
  -- keeps the limit.
  record Tracks (now : ℕ) (s : RateLimiter) (past : List ℕ) : Type 0 where
    config : (path : String) → get_config s path ≡ c
    agree : (t : ℕ) → now ≤ t → filter (is_live w t) (recorded s i) ≡ filter (is_live w t) past
    before : All (λ ts. ts ≤ now) past
    bound : (t : ℕ) → length (filter (in_window v t) past) ≤ c.max_requests

  live_again :
      (now t : ℕ) (xs : List ℕ)
      → now ≤ t
      → filter (is_live w t) (filter (is_live w now) xs) ≡ filter (is_live w t) xs
  live_again now t xs h =
      filter-filter (is_live w t) (is_live w now) xs (λ ts. live_later w now t ts h)

  in_window→is_live :
      (t now later ts : ℕ)
      → now ≤ t
      → later ≤ now + gap
      → in_window v t ts ≡ true
      → is_live w later ts ≡ true
  in_window→is_live t now later ts h g k = ground arith

  -- One more accepted time, below the limit.
  add_bound :
      (now later t : ℕ) (past : List ℕ)
      → later ≤ now + gap
      → length (filter (is_live w later) past) < c.max_requests
      → length (filter (in_window v t) past) ≤ c.max_requests
      → All (λ ts. ts ≤ now) past
      → length (filter (in_window v t) (past ++ now ∷ [])) ≤ c.max_requests
  unfolding filter
  add_bound now later t past g room bound before = elim (Bool-cases (leb now t)) [
    | inl le ↦
        let mono =
          length-filter_mono (in_window v t) (is_live w later) past
            (All-imp past (λ ts _ k. in_window→is_live t now later ts (ground arith) g k) before) in
        ground (
          arith,
          filter-append (in_window v t) past (now ∷ []),
          length-append (filter (in_window v t) past) (filter (in_window v t) (now ∷ [])),
        )
    | inr gt ↦ ground (
      arith,
      filter-append (in_window v t) past (now ∷ []),
      length-append (filter (in_window v t) past) (filter (in_window v t) (now ∷ [])),
    )
  ]

  module _ (now t1 t2 : ℕ) (s : RateLimiter) (request : Request) (past : List ℕ) (order : now ≤ t1)
      (after : t1 ≤ t2) (near : t2 ≤ t1 + gap) (k : Tracks now s past) where
    abbrev s' : RateLimiter
    s' = (is_allowed t1 t2 s request).0

    is_allowed-check : is_allowed t1 t2 s request ≡ check t1 t2 s (get_identifier request) c
    unfolding is_allowed
    is_allowed-check = ap (check t1 t2 s (get_identifier request)) (k.config request.path)

    effect : Effect t1 t2 s (get_identifier request) c s' (is_allowed t1 t2 s request).1
    effect =
        subst (λ r. Effect t1 t2 s (get_identifier request) c r.0 r.1) (sym is_allowed-check)
          (check-Effect t1 t2 s (get_identifier request) c)

    config_kept : (path : String) → get_config s' path ≡ c
    config_kept path =
        subst (λ r. get_config r.0 path ≡ c) (sym is_allowed-check)
          (config-check t1 t2 s (get_identifier request) c path ∙ k.config path)

    -- A request that is not one more of `i`.
    not_one_more :
        (recorded s' i ≡ filter (is_live w t2) (recorded s i)) ⊎ (recorded s' i ≡ recorded s i)
        → Tracks t2 s' past
    not_one_more e = record {
      config = config_kept;
      agree = λ t h. agree e t h;
      before = All-imp past (λ ts b. omega arith) k.before;
      bound = k.bound;
    }
      where
        agree :
            (recorded s' i ≡ filter (is_live w t2) (recorded s i)) ⊎ (recorded s' i ≡ recorded s i)
            → (t : ℕ) → t2 ≤ t
            → filter (is_live w t) (recorded s' i) ≡ filter (is_live w t) past
        agree (inl e) t h = rw e (live_again t2 t (recorded s i) h ∙ k.agree t (omega arith))
        agree (inr e) t h = rw e (k.agree t (omega arith))

    one_more :
        recorded s' i ≡ filter (is_live w t2) (recorded s i) ++ t1 ∷ []
        → length (filter (is_live w t2) (recorded s i)) < c.max_requests
        → Tracks t2 s' (past ++ t1 ∷ [])
    one_more e room =
        let before' : All (λ ts. ts ≤ t2) past = All-imp past (λ ts b. omega arith) k.before in
        let room' : length (filter (is_live w t2) past) < c.max_requests =
          rw (k.agree t2 (omega arith)) at room in
        record {
          config = config_kept;
          agree = λ t h.
              rw
                (
                  e,
                  filter-append,
                  filter-append,
                  live_again t2 t (recorded s i) h,
                  k.agree t (omega arith),
                )
                refl;
          before = All-append (λ ts. ts ≤ t2) past (t1 ∷ []) before' (omega arith, tt);
          bound = λ t.
              add_bound t1 t2 t past near room' (k.bound t)
                (All-imp past (λ ts b. omega arith) k.before);
        }

    Effect-at_i :
        str_eq (get_identifier request) i ≡ true
        → Effect t1 t2 s i c s' (is_allowed t1 t2 s request).1
    Effect-at_i same =
        subst (λ j. Effect t1 t2 s j c s' (is_allowed t1 t2 s request).1)
          (str_eq→eq (get_identifier request) i same) effect

    -- The history after the request.
    step : Tracks t2 s' (
        if str_eq (get_identifier request) i && is_accepted (is_allowed t1 t2 s request).1
        then past ++ t1 ∷ []
        else past)
    step = elim (Bool-cases (str_eq (get_identifier request) i)) [
      | inl same ↦
          let e = Effect-at_i same in
          elim (Bool-cases (is_accepted (is_allowed t1 t2 s request).1)) [
            | inl got ↦ rw (same, got) (one_more (e.accepts got).1 (e.accepts got).0)
            | inr refused ↦ rw (same, refused) (not_one_more (e.rejects refused))
          ]
      | inr other ↦ rw other (not_one_more (inr (effect.others i other)))
    ]

  regroup :
      (b : Bool) (x : ℕ) (past later : List ℕ)
      → (if b then past ++ x ∷ [] else past) ++ later ≡ past ++ (if b then x ∷ later else later)
  regroup true x past later = append_assoc past (x ∷ []) later
  regroup false x past later = refl

  history :
      (now : ℕ) (s : RateLimiter) (past : List ℕ) (events : List (ℕ × ℕ × Request))
      → InOrder gap now events
      → Tracks now s past
      → (t : ℕ) → length (filter (in_window v t) (past ++ accepted i s events)) ≤ c.max_requests
  unfolding accepted
  history now s past [] o k t = rw append-nil (k.bound t)
  history now s past ((t1, t2, request) ∷ events) o k t =
      let b = str_eq (get_identifier request) i && is_accepted (is_allowed t1 t2 s request).1 in
      let s' = (is_allowed t1 t2 s request).0 in
      subst (λ xs. length (filter (in_window v t) xs) ≤ c.max_requests)
        (regroup b t1 past (accepted i s' events))
        (history t2 s' (if b then past ++ t1 ∷ [] else past) events o.3
          (step now t1 t2 s request past o.0 o.1 o.2 k) t)

-- When every path has the same configuration, no timestamps are recorded at the start, the clock
-- never goes back, and at most `gap` microseconds pass between the two readings of the clock that
-- a request takes, then at every time t, of the requests of one identifier that `is_allowed`
-- accepts, at most `max_requests` have recorded times in the window that ends at t and is `gap`
-- shorter than `window_seconds`; with a gap of 0 that is the whole window. Blocked and refused
-- requests are part of the history.
pub accepted_within_limit :
    (gap : ℕ) (c : RateLimitConfig) (i : String) (s : RateLimiter) (events : List (ℕ × ℕ × Request))
    (t : ℕ)
    → ((path : String) → get_config s path ≡ c)
    → s.requests ≡ []
    → InOrder gap 0 events
    → length (filter (in_window (c.window_seconds * second - gap) t) (accepted i s events))
      ≤ c.max_requests
accepted_within_limit gap c i s events t uniform fresh o =
    history gap c i 0 s [] events o
      (record {
        config = uniform;
        agree = λ t h. rw fresh (unfold get filter in refl);
        before = tt;
        bound = λ t. unfold filter in omega arith;
      })
      t
