-- ===== src/Streaming/Bounds.antt =====
-- What the queues and the history of src/streaming/streaming_server.py hold.
use mathlib.Core.Path.{subst}
use mathlib.Core.Bool.{true≢false}
use disposable_compute_platf.Prelude.{
  ℕ, ◌-◌, ◌*◌, ◌^◌, ◌≤◌, ◌==◌, String, ◌≡◌, refl, sym, ◌∙◌, true, false, Option, none, some, List,
  [], ◌∷◌, ◌++◌, leb, length, length-append, length-drop, All, All-append, contains, arith,
  Bool-cases, Option-cases, inl, inr,
}
use disposable_compute_platf.Prelude.Dict.{Dict, get, put, del, put-cases, del-cases}
use disposable_compute_platf.Prelude.Int.{ℤ, pos, negsuc}
use disposable_compute_platf.Streaming.{
  StreamMetrics, Json, number, real, not_a_number, infinity, minus_infinity, boolean, other,
  InputEvent, StreamServer, put_nowait, keep_last,
}
use disposable_compute_platf.Streaming.Messages.{
  event_types, clamp, clamp_real, clamped, has_coordinates, with_coordinates, sanitize_event,
}

module _ {V : Type 0} (P : V → Type 0) where
  abbrev pub AllValues : Dict V → Type 0
  AllValues d = (i : String) (v : V) → get i d ≡ some v → P v

  pub put-AllValues : (k : String) (v : V) (d : Dict V) → P v → AllValues d → AllValues (put k v d)
  put-AllValues k v d p h i w e = elim (put-cases k i v w d e) [
    | inl same ↦ subst P same.1 p
    | inr old ↦ h i w old.1
  ]

  pub del-AllValues : (k : String) (d : Dict V) → AllValues d → AllValues (del k d)
  del-AllValues k d h i w e = h i w (del-cases k i w d e).1

-- A number from 0 to 10000; the bool is `True`, which is 1.
abbrev pub IsOnScreen : Json → Type 0
IsOnScreen (number (pos n)) = n ≤ 10000
IsOnScreen (number (negsuc n)) = ⊥
IsOnScreen (real (pos m) k) = m ≤ 10000 * 2 ^ k
IsOnScreen (real (negsuc m) k) = ⊥
IsOnScreen not_a_number = ⊥
IsOnScreen infinity = ⊥
IsOnScreen minus_infinity = ⊥
IsOnScreen (boolean b) = Unit
IsOnScreen other = ⊥

abbrev pub OnScreen : Option Json → Type 0
OnScreen none = ⊥
OnScreen (some v) = IsOnScreen v

-- An event of one of the four types, with coordinates on the screen where it has to have them.
pub record IsClean (event : InputEvent) : Type 0 where
  pub type : String
  pub has_type : event.type ≡ some type
  pub is_known : contains event_types type ≡ true
  pub on_screen : has_coordinates type ≡ true → OnScreen event.x × OnScreen event.y

abbrev pub IsGoodQueue : List InputEvent → Type 0
IsGoodQueue events = (length events ≤ 100) × All IsClean events

pub record IsBounded (s : StreamServer) : Type 0 where
  pub queues : AllValues IsGoodQueue s.input_queues
  pub metrics : AllValues (λ (ms : List StreamMetrics). length ms ≤ 100) s.metrics_history

clamp-IsOnScreen : (x : ℤ) → IsOnScreen (number (clamp x))
clamp-IsOnScreen (pos n) = elim (Bool-cases (leb n 10000)) [
  | inl small ↦ let e : clamp (pos n) ≡ pos n = ground arith in rw e (ground arith)
  | inr big ↦ let e : clamp (pos n) ≡ pos 10000 = ground arith in rw e (omega arith)
]
clamp-IsOnScreen (negsuc n) = let e : clamp (negsuc n) ≡ pos 0 = ground arith in rw e (omega arith)

clamp_real-IsOnScreen : (m : ℤ) (k : ℕ) → IsOnScreen (clamp_real m k)
clamp_real-IsOnScreen (negsuc m) k = omega arith
clamp_real-IsOnScreen (pos m) k = elim (Bool-cases (leb (10000 * 2 ^ k) m)) [
  | inl big ↦ rw big (omega arith)
  | inr small ↦ rw small (elim (Bool-cases (m == 0)) [
    | inl zero_pixels ↦ rw zero_pixels (omega arith)
    | inr more ↦ rw more (ground arith)
  ])
]

clamped-OnScreen : (c : Option Json) (x : Json) → clamped c ≡ some x → OnScreen (some x)
clamped-OnScreen c x h = subst OnScreen h (at c h)
  where
    at : (c : Option Json) → clamped c ≡ some x → OnScreen (clamped c)
    at none h = omega arith
    at (some (number y)) h = clamp-IsOnScreen y
    at (some (real m k)) h = clamp_real-IsOnScreen m k
    at (some not_a_number) h = omega arith
    at (some infinity) h = omega arith
    at (some minus_infinity) h = omega arith
    at (some (boolean true)) h = tt
    at (some (boolean false)) h = omega arith
    at (some other) h = cc

some_eq : {a b : InputEvent} → some a ≡ some b → a ≡ b
some_eq h = cc

coordinates-IsClean :
    (e e' : InputEvent) (t : String) (x y : Option Json)
    → e.type ≡ some t
    → contains event_types t ≡ true
    → clamped e.x ≡ x
    → clamped e.y ≡ y
    → with_coordinates e x y ≡ some e'
    → IsClean e'
coordinates-IsClean e e' t none y h k p q r = cc
coordinates-IsClean e e' t (some x) none h k p q r = cc
coordinates-IsClean e e' t (some x) (some y) h k p q r =
    let clean : IsClean (record e { x = some x; y = some y }) = record {
      type = t;
      has_type = h;
      is_known = k;
      on_screen = λ c. (clamped-OnScreen e.x x p, clamped-OnScreen e.y y q);
    } in
    subst IsClean (some_eq r) clean

pub sanitize_event-IsClean : (e e' : InputEvent) → sanitize_event e ≡ some e' → IsClean e'
unfolding sanitize_event
sanitize_event-IsClean e e' h = elim (Option-cases e.type) [
  | inl n ↦ ground arith
  | inr (t, n) ↦ elim (Bool-cases (contains event_types t)) [
    | inl k ↦ elim (Bool-cases (has_coordinates t)) [
      | inl c ↦
          coordinates-IsClean e e' t (clamped e.x) (clamped e.y) n k refl refl
            (rw (n, k, c, sanitize_event) at h)
      | inr c ↦
          let clean : IsClean e = record {
            type = t;
            has_type = n;
            is_known = k;
            on_screen = λ d. absurd (true≢false (sym d ∙ c));
          } in
          subst IsClean (some_eq (rw (n, k, c, sanitize_event) at h)) clean
    ]
    | inr k ↦ ground arith
  ]
]

short :
    (events : List InputEvent) (e : InputEvent)
    → leb 100 (length events) ≡ false
    → length (events ++ e ∷ []) ≤ 100
short events e h = ground (arith, length-append events (e ∷ []))

pub put_nowait-IsGoodQueue :
    (events : List InputEvent) (e : InputEvent)
    → IsClean e
    → IsGoodQueue events
    → IsGoodQueue (put_nowait events e)
put_nowait-IsGoodQueue events e c h = elim (Bool-cases (leb 100 (length events))) [
  | inl full ↦ rw full h
  | inr free ↦ rw free (short events e free, All-append IsClean events (e ∷ []) h.1 (c, tt))
]

pub keep_last-short : (ms : List StreamMetrics) → length (keep_last ms) ≤ 100
keep_last-short ms = ground (arith, length-drop (length ms - 100) ms)
