-- ===== src/Validation/Inputs/Metadata.antt =====
-- What `validate_metadata` of src/utils/input_validation.py keeps.
use Prim.Native.String.{◌++◌}
use mathlib.Core.Bool.{true≢false}
use mathlib.Core.Path.{subst}
use text.Mathlib.TextLemmas.{append-nil}
use disposable_compute_platf.Prelude.{
  ℕ, ◌≤◌, String, ◌≡◌, inl, inr, refl, sym, ap, ◌∙◌, true, false, Option, none, some, [], ◌∷◌, ltb,
  arith, Bool-cases, if◌then◌else◌, All, str_eq, eq_iff,
}
use disposable_compute_platf.Prelude.Dict.{Dict, put}
use disposable_compute_platf.Prelude.Text.{str_length, prefix, remove_char, has_char, at_end}
use disposable_compute_platf.Prelude.Stripping.{
  remove_char-IsLess, strip-IsLess, remove_char-has_char, length-prefix-le, last_is_ink, last-strip,
  last-feed,
}
use disposable_compute_platf.Prelude.Patterns.{some_chars, some_of-Splits}
use disposable_compute_platf.Validation.Inputs.{
  sanitize_string, is_key_char, key_pattern, sanitize_entries, validate_metadata,
}
use disposable_compute_platf.Validation.Inputs.Refs.{at_end→}

abbrev cut : ℕ → String → String
cut n s = if ltb n (str_length s) then prefix n s else s

length-cut-le : (n : ℕ) (s : String) → str_length (cut n s) ≤ n
length-cut-le n s = ground (arith, length-prefix-le n s)

-- What every sanitized text is: short, without null characters, and with no white space last.
record IsSanitized (max_length : ℕ) (s : String) : Type 0 where
  is_short : str_length s ≤ max_length
  no_null : has_char 0 s ≡ false
  ends_in_ink : last_is_ink s ≡ true

sanitize_string-IsSanitized :
    (s : String) (max_length : ℕ) → IsSanitized max_length (sanitize_string s max_length)
unfolding sanitize_string
sanitize_string-IsSanitized String.[] n = record {
  is_short = unfold str_length in omega arith;
  no_null = unfold has_char in refl;
  ends_in_ink = unfold last_is_ink in refl;
}
sanitize_string-IsSanitized (String.◌∷◌ c t) n =
    let s = String.◌∷◌ c t in
    let stripped = strip-IsLess (remove_char 0 (cut n s)) in
    let removed = remove_char-IsLess 0 (cut n s) in
    record {
      is_short = omega (arith, stripped.is_short, removed.is_short, length-cut-le n s);
      no_null = stripped.no_new 0 (remove_char-has_char 0 (cut n s));
      ends_in_ink = last-strip (remove_char 0 (cut n s));
    }

pub record IsCleanEntry (e : String × String) : Type 0 where
  pub key_chars : some_chars is_key_char e.0 ≡ true
  pub key_is_short : str_length e.0 ≤ 256
  pub value_is_short : str_length e.1 ≤ 4096
  pub value_has_no_null : has_char 0 e.1 ≡ false

-- A key that the pattern takes has no line feed at its end, since the white space is gone.
key_pattern_lem :
    (k : String) → key_pattern k ≡ true → last_is_ink k ≡ true → some_chars is_key_char k ≡ true
key_pattern_lem k h ink =
    let (p, r, t, e, f) = some_of-Splits at_end is_key_char k h in
    elim (at_end→ r f) [
      | inl x ↦ ap (some_chars is_key_char) (e ∙ ap (λ (s : String). p ++ s) x ∙ append-nil p) ∙ t
      | inr x ↦
          absurd (
            true≢false (sym ink ∙ ap last_is_ink (e ∙ ap (λ (s : String). p ++ s) x) ∙ last-feed p))
    ]

put-All :
    (P : String × String → Type 0) (k v : String) (d : Dict String)
    → P (k, v)
    → All P d
    → All P (put k v d)
unfolding put
put-All P k v [] h a = (h, tt)
put-All P k v ((j, w) ∷ d) h a = elim (Bool-cases (str_eq j k)) [
  | inl e ↦ rw e (subst (λ x. P (x, v)) (sym ((eq_iff j k).0 e)) h, a.1)
  | inr e ↦ rw e (a.0, put-All P k v d h a.1)
]

-- One entry's turn in the loop.
abbrev next : String → String → Dict String → Dict String
next k v acc =
    let key = sanitize_string k 256 in
    if key_pattern key then put key (sanitize_string v 4096) acc else acc

next-clean :
    (k v : String) (acc : Dict String) → All IsCleanEntry acc → All IsCleanEntry (next k v acc)
next-clean k v acc h = elim (Bool-cases (key_pattern (sanitize_string k 256))) [
  | inl e ↦
      let key = sanitize_string-IsSanitized k 256 in
      let value = sanitize_string-IsSanitized v 4096 in
      let clean : IsCleanEntry (sanitize_string k 256, sanitize_string v 4096) = record {
        key_chars = key_pattern_lem (sanitize_string k 256) e key.ends_in_ink;
        key_is_short = key.is_short;
        value_is_short = value.is_short;
        value_has_no_null = value.no_null;
      } in
      rw e (put-All IsCleanEntry (sanitize_string k 256) (sanitize_string v 4096) acc clean h)
  | inr e ↦ rw e h
]

sanitize_entries-clean :
    (d acc : Dict String) → All IsCleanEntry acc → All IsCleanEntry (sanitize_entries d acc)
unfolding sanitize_entries
sanitize_entries-clean [] acc h = h
sanitize_entries-clean ((k, v) ∷ d) acc h =
    sanitize_entries-clean d (next k v acc) (next-clean k v acc h)

pub validate_metadata-clean :
    (metadata : Option (Dict String)) → All IsCleanEntry (validate_metadata metadata)
unfolding validate_metadata
validate_metadata-clean none = tt
validate_metadata-clean (some d) = sanitize_entries-clean d [] tt
