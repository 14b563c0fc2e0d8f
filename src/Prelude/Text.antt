-- ===== src/Prelude/Text.antt =====
-- Python's `str`: slices, membership, `replace` by nothing, and matching by regular expressions.
use Prim.Native.Nat.{ℕ, zero, suc}
use Prim.Native.Char.{Char, code}
use Prim.Native.String.{String}
use mathlib.Core.Bool.{Bool, true, false, ◌&&◌, ◌||◌}
use mathlib.Core.List.{List, [], ◌∷◌}
use disposable_compute_platf.Prelude.Tests.{leb, ◌==◌, if◌then◌else◌}

unfoldable pub str_length : String → ℕ
str_length String.[] = 0
str_length (String.◌∷◌ c s) = suc (str_length s)

-- `s[:n]`
unfoldable pub prefix : ℕ → String → String
prefix zero s = ""
prefix (suc n) String.[] = String.[]
prefix (suc n) (String.◌∷◌ c s) = String.◌∷◌ c (prefix n s)

-- `s.replace(c, '')`, of a character by its code.
unfoldable pub remove_char : ℕ → String → String
remove_char n String.[] = String.[]
remove_char n (String.◌∷◌ c s) =
    let rest = remove_char n s in if code c == n then rest else String.◌∷◌ c rest

-- `c in s`
unfoldable pub has_char : ℕ → String → Bool
has_char n String.[] = false
has_char n (String.◌∷◌ c s) = let rest = has_char n s in if code c == n then true else rest

-- `s.startswith(p)`
unfoldable pub has_prefix : String → String → Bool
has_prefix String.[] s = true
has_prefix (String.◌∷◌ c p) String.[] = false
has_prefix (String.◌∷◌ c p) (String.◌∷◌ d s) =
    let rest = has_prefix p s in if code c == code d then rest else false

-- `p in s`
unfoldable pub has_part : String → String → Bool
unfolding has_prefix
has_part p String.[] = has_prefix p String.[]
has_part p (String.◌∷◌ c s) =
    let rest = has_part p s in if has_prefix p (String.◌∷◌ c s) then true else rest

-- A regular expression matches a text from its start, and passes the rest on.
abbrev pub Pattern : Type 0
Pattern = (String → Bool) → String → Bool

-- The text itself.
unfoldable pub literal : String → Pattern
literal String.[] k s = k s
literal (String.◌∷◌ c p) k String.[] = false
literal (String.◌∷◌ c p) k (String.◌∷◌ d s) =
    let rest = literal p k s in if code c == code d then rest else false

-- `[...]+`
unfoldable pub some_of : (ℕ → Bool) → Pattern
some_of test k String.[] = false
some_of test k (String.◌∷◌ c s) =
    let more = some_of test k s in if test (code c) then more || k s else false

-- `(...)?`, and `(...|...)` of several.
abbrev pub maybe : Pattern → Pattern
maybe r k s = r k s || k s

abbrev pub one_of : List String → Pattern
one_of [] k s = false
one_of (p ∷ ps) k s = literal p k s || one_of ps k s

-- `$`: at the end, or before a line feed at the end.
abbrev pub at_end : String → Bool
at_end String.[] = true
at_end (String.◌∷◌ c String.[]) = code c == 10
at_end (String.◌∷◌ c (String.◌∷◌ d s)) = false

abbrev pub between : ℕ → ℕ → ℕ → Bool
between low high n = leb low n && leb n high

abbrev pub is_alphanumeric : ℕ → Bool
is_alphanumeric n = between b'a' b'z' n || between b'A' b'Z' n || between b'0' b'9' n

-- `s.strip()`, of the white space of ASCII.
abbrev pub is_space : ℕ → Bool
is_space c = c == b' ' || (leb 9 c && leb c 13) || (leb 28 c && leb c 31)

unfoldable pub strip_left : String → String
strip_left String.[] = String.[]
strip_left (String.◌∷◌ c s) =
    let rest = strip_left s in if is_space (code c) then rest else String.◌∷◌ c s

unfoldable pub strip_cons : Char → String → String
strip_cons c String.[] = if is_space (code c) then String.[] else String.◌∷◌ c String.[]
strip_cons c (String.◌∷◌ d s) = String.◌∷◌ c (String.◌∷◌ d s)

unfoldable pub strip_right : String → String
unfolding strip_cons
strip_right String.[] = String.[]
strip_right (String.◌∷◌ c s) = strip_cons c (strip_right s)

unfoldable pub strip : String → String
unfolding strip_left strip_right
strip s = strip_right (strip_left s)
