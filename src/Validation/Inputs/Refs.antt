-- ===== src/Validation/Inputs/Refs.antt =====
-- The reference names that `validate_ref_name` of src/utils/input_validation.py accepts.
use Prim.Native.Char.{Char}
use text.Mathlib.TextEquality.{Char-path}
use Prim.Native.String.{◌++◌}
use disposable_compute_platf.Prelude.{
  ℕ, ◌≤◌, String, ◌≡◌, ◌↔◌, ◌⊎◌, inl, inr, refl, ap, ◌∙◌, Bool, true, false, ◌||◌, ◌==◌, arith,
}
use disposable_compute_platf.Prelude.Text.{str_length, has_prefix, has_part, some_of, at_end}
use disposable_compute_platf.Prelude.Patterns.{
  all_chars, some_chars, some_of-append, some_of-Splits,
}
use disposable_compute_platf.Validation.Urls.{valid}
use disposable_compute_platf.Validation.Inputs.{
  is_ref_char, ref_name_pattern, dangerous_patterns, check_patterns, validate_ref_name,
}

abbrev or_feed : (ℕ → Bool) → ℕ → Bool
or_feed test n = test n || n == 10

module _ (test : ℕ → Bool) where
  all_chars-has_prefix :
      (p s : String) → has_prefix p s ≡ true → all_chars test s ≡ true → all_chars test p ≡ true
  unfolding has_prefix
  all_chars-has_prefix String.[] s h a = refl
  all_chars-has_prefix (String.◌∷◌ c p) String.[] h a = cc
  all_chars-has_prefix (String.◌∷◌ c p) (String.◌∷◌ d s) h a =
      ground (arith, all_chars-has_prefix p s)

  -- A part has no character that the whole has not.
  all_chars-has_part :
      (p s : String) → has_part p s ≡ true → all_chars test s ≡ true → all_chars test p ≡ true
  unfolding has_part
  all_chars-has_part p String.[] h a = all_chars-has_prefix p String.[] h a
  all_chars-has_part p (String.◌∷◌ c s) h a =
      ground (arith, all_chars-has_prefix p (String.◌∷◌ c s), all_chars-has_part p s)

  all_chars-or_feed : (s : String) → all_chars test s ≡ true → all_chars (or_feed test) s ≡ true
  all_chars-or_feed String.[] h = refl
  all_chars-or_feed (String.◌∷◌ c s) h = ground (arith, all_chars-or_feed s)

  pattern_chars : (s : String) → some_of test at_end s ≡ true → all_chars (or_feed test) s ≡ true
  unfolding some_of
  pattern_chars String.[] h = refl
  pattern_chars (String.◌∷◌ c String.[]) h = ground arith
  pattern_chars (String.◌∷◌ c (String.◌∷◌ d String.[])) h = ground arith
  pattern_chars (String.◌∷◌ c (String.◌∷◌ d (String.◌∷◌ e s))) h =
      ground (arith, pattern_chars (String.◌∷◌ d (String.◌∷◌ e s)))

not_a_part :
    (p s : String)
    → some_of is_ref_char at_end s ≡ true
    → all_chars (or_feed is_ref_char) p ≡ false
    → has_part p s ≡ false
not_a_part p s h bad =
    ground (arith, all_chars-has_part (or_feed is_ref_char) p s, pattern_chars is_ref_char s)

-- Of the patterns, only the first can still stand in a text of permitted characters.
check_patterns_lem :
    (s : String)
    → some_of is_ref_char at_end s ≡ true
    → (check_patterns dangerous_patterns s ≡ valid) ↔ (has_part "../" s ≡ false)
unfolding check_patterns
check_patterns_lem s h =
    let e1 = not_a_part "..\\" s h refl in
    let e2 = not_a_part "~" s h refl in
    let e3 = not_a_part "^" s h refl in
    let e4 = not_a_part ":" s h refl in
    let e5 = not_a_part "?" s h refl in
    let e6 = not_a_part "*" s h refl in
    let e7 = not_a_part "[" s h refl in
    (λ v. ground arith, λ v. rw (v, e1, e2, e3, e4, e5, e6, e7) refl)

pub record IsRefName (ref : String) : Type 0 where
  pub name : String
  pub end : String
  pub is_short : str_length ref ≤ 256
  pub name_chars : some_chars is_ref_char name ≡ true
  pub line_feed_or_not : (end ≡ "") ⊎ (end ≡ "\n")
  pub parts : ref ≡ name ++ end
  pub no_parent : has_part "../" ref ≡ false

pub at_end→ : (s : String) → at_end s ≡ true → (s ≡ "") ⊎ (s ≡ "\n")
at_end→ String.[] h = inl refl
at_end→ (String.◌∷◌ c String.[]) h =
    inr (ap (λ (d : Char). String.◌∷◌ d String.[]) (Char-path c "\n" (ground arith)))
at_end→ (String.◌∷◌ c (String.◌∷◌ d s)) h = cc

→at_end : (s : String) → (s ≡ "") ⊎ (s ≡ "\n") → at_end s ≡ true
→at_end s (inl e) = ap at_end e
→at_end s (inr e) = ap at_end e

abbrev Checks : String → Type 0
Checks ref =
    (str_length ref ≤ 256)
    × (ref_name_pattern ref ≡ true)
    × (check_patterns dangerous_patterns ref ≡ valid)

validate_ref_name→ : (ref : String) → validate_ref_name ref ≡ valid → (ref ≡ "") ⊎ Checks ref
unfolding validate_ref_name
validate_ref_name→ String.[] h = inl refl
validate_ref_name→ (String.◌∷◌ c s) h = inr (ground arith, ground arith, ground arith)

→validate_ref_name : (ref : String) → Checks ref → validate_ref_name ref ≡ valid
unfolding validate_ref_name
→validate_ref_name String.[] h = refl
→validate_ref_name (String.◌∷◌ c s) h = ground arith

Checks→ : (ref : String) → Checks ref → IsRefName ref
Checks→ ref (short, matched, clean) =
    let (name, end, t, e, f) = some_of-Splits at_end is_ref_char ref matched in
    record {
      name = name;
      end = end;
      is_short = short;
      name_chars = t;
      line_feed_or_not = at_end→ end f;
      parts = e;
      no_parent = (check_patterns_lem ref matched).0 clean;
    }

→Checks : (ref : String) → IsRefName ref → Checks ref
→Checks ref r =
    let matched =
      ap ref_name_pattern r.parts
      ∙ some_of-append at_end is_ref_char r.name r.end r.name_chars
          (→at_end r.end r.line_feed_or_not) in
    (r.is_short, matched, (check_patterns_lem ref matched).1 r.no_parent)

-- `validate_ref_name` accepts exactly the empty text and the texts of at most 256 characters
-- without "../" that are one or more permitted characters, followed by nothing or by one line
-- feed.
pub validate_ref_name_lem :
    (ref : String) → (validate_ref_name ref ≡ valid) ↔ ((ref ≡ "") ⊎ IsRefName ref)
unfolding validate_ref_name
validate_ref_name_lem ref = (
  λ h. elim (validate_ref_name→ ref h) [ inl e ↦ inl e | inr k ↦ inr (Checks→ ref k) ],
  λ r. elim r [ inl e ↦ ap validate_ref_name e | inr k ↦ →validate_ref_name ref (→Checks ref k) ],
)
