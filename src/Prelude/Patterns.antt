-- ===== src/Prelude/Patterns.antt =====
-- The regular expressions of Prelude/Text.antt, beside the texts that they match.
use Prim.Native.Char.{Char, code}
use Prim.Native.String.{◌++◌}
use text.Mathlib.TextLemmas.{nil-append, cons-append}
use text.Mathlib.TextEquality.{Char-path}
use disposable_compute_platf.Prelude.{
  ℕ, String, ◌≡◌, refl, sym, ◌∙◌, Bool, true, false, List, [], ◌∷◌, ◌&&◌, ◌||◌, ◌==◌, arith,
  Bool-cases, inl, inr, contains, eq_iff, str_eq,
}
use disposable_compute_platf.Prelude.Text.{literal, some_of, maybe, one_of, has_char}

-- Every character passes; and there is one.
abbrev pub all_chars : (ℕ → Bool) → String → Bool
all_chars test String.[] = true
all_chars test (String.◌∷◌ c s) = test (code c) && all_chars test s

abbrev pub some_chars : (ℕ → Bool) → String → Bool
some_chars test String.[] = false
some_chars test (String.◌∷◌ c s) = test (code c) && all_chars test s

pub some_chars-all_chars :
    (test : ℕ → Bool) (p : String) → some_chars test p ≡ true → all_chars test p ≡ true
some_chars-all_chars test String.[] h = refl
some_chars-all_chars test (String.◌∷◌ c s) h = h

-- A text splits into a part that passes a test and a rest that goes on.
abbrev pub Splits : (String → Bool) → (String → Bool) → String → Type 0
Splits test k s = (p : String) × (r : String) × (test p ≡ true) × (s ≡ p ++ r) × (k r ≡ true)

same_char : (c d : Char) → (code c == code d) ≡ true → c ≡ d
same_char c d h = Char-path c d (ground arith)

module _ (k : String → Bool) where
  pub literal-append : (p r : String) → literal p k (p ++ r) ≡ k r
  unfolding literal
  literal-append String.[] r = rw (nil-append r) refl
  literal-append (String.◌∷◌ c p) r = rw (cons-append c p r) (ground (arith, literal-append p r))

  pub literal-splits :
      (p s : String) → literal p k s ≡ true → (r : String) × (s ≡ p ++ r) × (k r ≡ true)
  unfolding literal
  literal-splits String.[] s h = (s, rw (nil-append s) refl, h)
  literal-splits (String.◌∷◌ c p) String.[] h = cc
  literal-splits (String.◌∷◌ c p) (String.◌∷◌ d s) h = elim (Bool-cases (code c == code d)) [
    | inl e ↦
        let more = literal-splits p s (ground arith) in
        (more.0, rw (cons-append c p more.0, same_char c d e, more.1) refl, more.2)
    | inr e ↦ cc
  ]

  module _ (test : ℕ → Bool) where
    pub some_of-append :
        (p r : String) → some_chars test p ≡ true → k r ≡ true → some_of test k (p ++ r) ≡ true
    unfolding some_of
    some_of-append String.[] r h e = cc
    some_of-append (String.◌∷◌ c String.[]) r h e =
        rw (cons-append c String.[] r, nil-append r) (ground arith)
    some_of-append (String.◌∷◌ c (String.◌∷◌ d p)) r h e =
        rw (cons-append c (String.◌∷◌ d p) r) (ground (arith, some_of-append (String.◌∷◌ d p) r))

    pub some_of-Splits : (s : String) → some_of test k s ≡ true → Splits (some_chars test) k s
    unfolding some_of
    some_of-Splits String.[] h = cc
    some_of-Splits (String.◌∷◌ c s) h = elim (Bool-cases (some_of test k s)) [
      | inl e ↦
          let (p, r, t, q, g) = some_of-Splits s e in
          (
            String.◌∷◌ c p,
            r,
            ground (arith, some_chars-all_chars test p t),
            rw (cons-append c p r, q) refl,
            g,
          )
      | inr e ↦ (
        String.◌∷◌ c String.[],
        s,
        ground arith,
        rw (cons-append c String.[] s, nil-append s) refl,
        ground arith,
      )
    ]

  pub one_of-append :
      (ps : List String) (p r : String)
      → contains ps p ≡ true
      → k r ≡ true
      → one_of ps k (p ++ r) ≡ true
  unfolding contains
  one_of-append [] p r h e = cc
  one_of-append (q ∷ ps) p r h e = elim (Bool-cases (str_eq q p)) [
    | inl s ↦ rw ((eq_iff q p).0 s) (ground (arith, literal-append p r))
    | inr s ↦ ground (arith, one_of-append ps p r)
  ]

  pub one_of-Splits :
      (ps : List String) (s : String) → one_of ps k s ≡ true → Splits (contains ps) k s
  unfolding contains
  one_of-Splits [] s h = cc
  one_of-Splits (q ∷ ps) s h = elim (Bool-cases (literal q k s)) [
    | inl e ↦ let (r, x, g) = literal-splits q s e in (q, r, ground (arith, eq_iff q q), x, g)
    | inr e ↦ let (p, r, t, x, g) = one_of-Splits ps s (ground arith) in (p, r, ground arith, x, g)
  ]

  -- `(p)?`, as the choice of `p` or nothing.
  maybe_lem : (p s : String) → maybe (literal p) k s ≡ one_of (p ∷ "" ∷ []) k s
  unfolding literal
  maybe_lem p s = ground arith

  pub maybe-append :
      (p q r : String)
      → contains (p ∷ "" ∷ []) q ≡ true
      → k r ≡ true
      → maybe (literal p) k (q ++ r) ≡ true
  maybe-append p q r h e = maybe_lem p (q ++ r) ∙ one_of-append (p ∷ "" ∷ []) q r h e

  pub maybe-Splits :
      (p s : String) → maybe (literal p) k s ≡ true → Splits (contains (p ∷ "" ∷ [])) k s
  maybe-Splits p s h = one_of-Splits (p ∷ "" ∷ []) s (sym (maybe_lem p s) ∙ h)

pub has_char-append : (n : ℕ) (p r : String) → has_char n (p ++ r) ≡ (has_char n p || has_char n r)
unfolding has_char
has_char-append n String.[] r = rw (nil-append r) refl
has_char-append n (String.◌∷◌ c p) r =
    rw (cons-append c p r) (ground (arith, has_char-append n p r))
