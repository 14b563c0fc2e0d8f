-- ===== src/Validation/Inputs.antt =====
-- The checks of a session request in src/utils/input_validation.py. `int` is an
-- argument, with none for its ValueError and TypeError. What only a log reads is left out.
pub mod Refs
pub mod Bounds
pub mod Metadata
use Prim.Native.String.{◌++◌}
use disposable_compute_platf.Prelude.{
  ℕ, String, Bool, true, false, Option, none, some, List, [], ◌∷◌, ltb, ◌==◌, ◌||◌, not, contains,
  if◌then◌else◌,
}
use disposable_compute_platf.Prelude.Int.{ℤ, pos, negsuc, ltb_ℤ}
use disposable_compute_platf.Prelude.Dict.{Dict, put}
use disposable_compute_platf.Prelude.Text.{
  str_length, prefix, remove_char, has_part, some_of, at_end, is_alphanumeric, strip,
}
use disposable_compute_platf.Validation.Urls.{Verdict, valid, invalid}

abbrev pub is_ref_char : ℕ → Bool
is_ref_char n = is_alphanumeric n || n == b'_' || n == b'.' || n == b'/' || n == b'-'

-- `REF_NAME_PATTERN`
abbrev pub ref_name_pattern : String → Bool
ref_name_pattern = some_of is_ref_char at_end

abbrev pub dangerous_patterns : List String
dangerous_patterns = "../" ∷ "..\\" ∷ "~" ∷ "^" ∷ ":" ∷ "?" ∷ "*" ∷ "[" ∷ []

unfoldable pub check_patterns : List String → String → Verdict
unfolding has_part
check_patterns [] ref = valid
check_patterns (pattern ∷ patterns) ref =
    if has_part pattern ref
    then invalid ("Reference name contains invalid character: " ++ pattern)
    else check_patterns patterns ref

unfoldable pub validate_ref_name : String → Verdict
unfolding str_length some_of check_patterns
validate_ref_name String.[] = valid
validate_ref_name (String.◌∷◌ c s) =
    let ref = String.◌∷◌ c s in
    if ltb 256 (str_length ref)
    then invalid "Reference name too long (max 256 characters)"
    else if not (ref_name_pattern ref)
    then invalid "Invalid reference name format"
    else check_patterns dangerous_patterns ref

-- What a caller gives for a number: an integer; another value, by a text that stands for it, which
-- `int` reads or refuses (with ValueError or TypeError); or an infinite float, at which `int` raises
-- OverflowError.
pub data Raw : Type 0 where
  integer : ℤ → Raw
  text : String → Raw
  infinite : Raw

module _ (int : String → Option ℤ) where
  abbrev clamp_ttl : ℤ → ℤ × String
  clamp_ttl n =
      if ltb_ℤ n (pos 5)
      then (pos 5, "TTL too short, minimum is 5 minutes")
      else if ltb_ℤ (pos 1440) n
      then (pos 1440, "TTL too long, maximum is 1440 minutes")
      else (n, "Valid")

  -- None is the OverflowError, which is not caught.
  unfoldable pub validate_ttl : Option Raw → Option (ℤ × String)
  validate_ttl none = some (pos 30, "Using default TTL")
  validate_ttl (some infinite) = none
  validate_ttl (some (integer n)) = some (clamp_ttl n)
  validate_ttl (some (text s)) = elim (int s) [
    | none ↦ some (pos 30, "Invalid TTL format, using default")
    | some n ↦ some (clamp_ttl n)
  ]

  abbrev check_pr_number : ℤ → Option ℤ × String
  check_pr_number n =
      if ltb_ℤ n (pos 1)
      then (none, "PR number must be positive")
      else if ltb_ℤ (pos 1000000) n
      then (none, "PR number seems unrealistic")
      else (some n, "Valid")

  unfoldable pub validate_pr_number : Option Raw → Option (Option ℤ × String)
  validate_pr_number none = some (none, "Optional PR number not provided")
  validate_pr_number (some infinite) = none
  validate_pr_number (some (integer n)) = some (check_pr_number n)
  validate_pr_number (some (text s)) = elim (int s) [
    | none ↦ some (none, "Invalid PR number format")
    | some n ↦ some (check_pr_number n)
  ]

unfoldable pub validate_session_type : String → Verdict
unfolding contains
validate_session_type String.[] = invalid "Session type is required"
validate_session_type (String.◌∷◌ c s) =
    if contains ("preview" ∷ "run_repo" ∷ "fork_gui" ∷ []) (String.◌∷◌ c s)
    then valid
    else invalid "Invalid session type. Allowed: preview, run_repo, fork_gui"

unfoldable pub sanitize_string : String → ℕ → String
unfolding prefix remove_char strip
sanitize_string String.[] max_length = ""
sanitize_string (String.◌∷◌ c s) max_length =
    let value = String.◌∷◌ c s in
    let cut = if ltb max_length (str_length value) then prefix max_length value else value in
    strip (remove_char 0 cut)

abbrev pub is_key_char : ℕ → Bool
is_key_char n = is_alphanumeric n || n == b'_' || n == b'-'

abbrev pub key_pattern : String → Bool
key_pattern = some_of is_key_char at_end

unfoldable pub sanitize_entries : Dict String → Dict String → Dict String
unfolding sanitize_string some_of
sanitize_entries [] sanitized = sanitized
sanitize_entries ((k, value) ∷ metadata) sanitized =
    let key = sanitize_string k 256 in
    sanitize_entries metadata
      (if key_pattern key then put key (sanitize_string value 4096) sanitized else sanitized)

unfoldable pub validate_metadata : Option (Dict String) → Dict String
unfolding sanitize_entries
validate_metadata none = []
validate_metadata (some metadata) = sanitize_entries metadata []
