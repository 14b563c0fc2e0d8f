-- ===== src/Prelude/Stripping.antt =====
-- What the slices, removals and `strip` of Prelude/Text.antt leave of a text.
use Prim.Native.Char.{Char, code}
use Prim.Native.String.{◌++◌}
use text.Mathlib.TextLemmas.{cons-append}
use disposable_compute_platf.Prelude.Text.{
  str_length, prefix, remove_char, has_char, is_space, strip_left, strip_cons, strip_right, strip,
}
use disposable_compute_platf.Prelude.{
  ℕ, suc, zero, ◌≤◌, String, ◌≡◌, inl, inr, refl, Bool, true, false, arith, Bool-cases, not,
}

-- A part of a text: no longer, and with no other characters.
pub record IsLess (s t : String) : Type 0 where
  pub is_short : str_length s ≤ str_length t
  pub no_new : (n : ℕ) → has_char n t ≡ false → has_char n s ≡ false

pub prefix-IsLess : (n : ℕ) (s : String) → IsLess (prefix n s) s
unfolding prefix str_length has_char
prefix-IsLess zero s = record { is_short = omega arith; no_new = λ m h. refl }
prefix-IsLess (suc n) String.[] = record { is_short = omega arith; no_new = λ m h. refl }
prefix-IsLess (suc n) (String.◌∷◌ c s) =
    let ih = prefix-IsLess n s in
    record { is_short = omega (arith, ih.is_short); no_new = λ m h. ground (arith, ih.no_new m) }

pub remove_char-IsLess : (n : ℕ) (s : String) → IsLess (remove_char n s) s
unfolding remove_char str_length has_char
remove_char-IsLess n String.[] = record { is_short = omega arith; no_new = λ m h. refl }
remove_char-IsLess n (String.◌∷◌ c s) =
    let ih = remove_char-IsLess n s in
    record { is_short = ground (arith, ih.is_short); no_new = λ m h. ground (arith, ih.no_new m) }

strip_left-IsLess : (s : String) → IsLess (strip_left s) s
unfolding strip_left str_length has_char
strip_left-IsLess String.[] = record { is_short = omega arith; no_new = λ m h. refl }
strip_left-IsLess (String.◌∷◌ c s) =
    let ih = strip_left-IsLess s in
    record { is_short = ground (arith, ih.is_short); no_new = λ m h. ground (arith, ih.no_new m) }

strip_cons-IsLess : (c : Char) (s : String) → IsLess (strip_cons c s) (String.◌∷◌ c s)
unfolding strip_cons str_length has_char
strip_cons-IsLess c String.[] = elim (Bool-cases (is_space (code c))) [
  | inl e ↦ record { is_short = rw e (omega arith); no_new = λ m h. rw e refl }
  | inr e ↦ record { is_short = rw e (omega arith); no_new = λ m h. rw e h }
]
strip_cons-IsLess c (String.◌∷◌ d s) = record { is_short = omega arith; no_new = λ m h. h }

strip_right-IsLess : (s : String) → IsLess (strip_right s) s
unfolding strip_right str_length has_char
strip_right-IsLess String.[] = record { is_short = omega arith; no_new = λ m h. refl }
strip_right-IsLess (String.◌∷◌ c s) =
    let ih = strip_right-IsLess s in
    let k = strip_cons-IsLess c (strip_right s) in
    record {
      is_short = omega (arith, ih.is_short, k.is_short);
      no_new = λ m h. ground (arith, ih.no_new m, k.no_new m);
    }

pub strip-IsLess : (s : String) → IsLess (strip s) s
unfolding strip
strip-IsLess s =
    let l = strip_left-IsLess s in
    let r = strip_right-IsLess (strip_left s) in
    record {
      is_short = omega (arith, l.is_short, r.is_short);
      no_new = λ m h. ground (arith, l.no_new m, r.no_new m);
    }

pub remove_char-has_char : (n : ℕ) (s : String) → has_char n (remove_char n s) ≡ false
unfolding remove_char has_char
remove_char-has_char n String.[] = refl
remove_char-has_char n (String.◌∷◌ c s) = ground (arith, remove_char-has_char n s)

pub length-prefix-le : (n : ℕ) (s : String) → str_length (prefix n s) ≤ n
unfolding prefix str_length
length-prefix-le zero s = omega arith
length-prefix-le (suc n) String.[] = omega arith
length-prefix-le (suc n) (String.◌∷◌ c s) = omega (arith, length-prefix-le n s)

-- Is the last character, if there is one, no white space?
unfoldable pub last_is_ink : String → Bool
last_is_ink String.[] = true
last_is_ink (String.◌∷◌ c String.[]) = not (is_space (code c))
last_is_ink (String.◌∷◌ c (String.◌∷◌ d s)) = last_is_ink (String.◌∷◌ d s)

last-strip_cons :
    (c : Char) (s : String) → last_is_ink s ≡ true → last_is_ink (strip_cons c s) ≡ true
unfolding strip_cons last_is_ink
last-strip_cons c String.[] h = elim (Bool-cases (is_space (code c))) [
  | inl e ↦ rw e refl
  | inr e ↦ rw e (rw e refl)
]
last-strip_cons c (String.◌∷◌ d s) h = h

last-strip_right : (s : String) → last_is_ink (strip_right s) ≡ true
unfolding strip_right last_is_ink
last-strip_right String.[] = refl
last-strip_right (String.◌∷◌ c s) = last-strip_cons c (strip_right s) (last-strip_right s)

pub last-strip : (s : String) → last_is_ink (strip s) ≡ true
unfolding strip
last-strip s = last-strip_right (strip_left s)

pub last-feed : (p : String) → last_is_ink (p ++ "\n") ≡ false
unfolding last_is_ink
last-feed String.[] = refl
last-feed (String.◌∷◌ c String.[]) = rw (cons-append c String.[] "\n") refl
last-feed (String.◌∷◌ c (String.◌∷◌ d p)) =
    rw (cons-append c (String.◌∷◌ d p) "\n", cons-append d p "\n")
      (rw (cons-append d p "\n") at (last-feed (String.◌∷◌ d p)))
