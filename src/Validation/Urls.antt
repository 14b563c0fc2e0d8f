-- ===== src/Validation/Urls.antt =====
-- `validate_repo_url` of src/utils/input_validation.py. The standard library's `urlparse` and
-- `gethostbyname_ex`, `int` and `lower` are fields of `Library`; the text of an exception of
-- `urlparse` is the left of its result.
pub mod Shape
pub mod Safety
use disposable_compute_platf.Prelude.{
  ℕ, String, Bool, true, false, Option, none, some, List, [], ◌∷◌, ◌==◌, ◌||◌, not, map, ◌⊎◌, inl,
  inr, contains, if◌then◌else◌,
}
use Prim.Native.String.{◌++◌}
use disposable_compute_platf.Prelude.Text.{
  Pattern, has_char, has_prefix, literal, some_of, maybe, one_of, at_end, is_alphanumeric,
}
use disposable_compute_platf.Validation.Addresses.{is_private_ip}

pub record Parsed : Type 0 where
  pub scheme : String
  pub hostname : Option String

pub record Library : Type 0 where
  pub urlparse : String → String ⊎ Parsed
  -- None is an exception.
  pub gethostbyname_ex : String → Option (List String)
  pub int : String → Option ℕ
  pub lower : String → String

pub data Verdict : Type 0 where
  valid : Verdict
  invalid : String → Verdict

abbrev pub allowed_repo_hosts : List String
allowed_repo_hosts =
    "github.com" ∷ "gitlab.com" ∷ "bitbucket.org" ∷ "gitea.com" ∷ "gist.github.com" ∷ []

abbrev pub is_owner_char : ℕ → Bool
is_owner_char n = is_alphanumeric n || n == b'_' || n == b'-'

abbrev pub is_repo_char : ℕ → Bool
is_repo_char n = is_alphanumeric n || n == b'_' || n == b'.' || n == b'-'

-- `REPO_URL_PATTERN`, from its end.
abbrev pub after_repo : String → Bool
after_repo = maybe (literal ".git") (maybe (literal "/") at_end)

abbrev pub after_host : String → Bool
after_host = literal "/" (some_of is_owner_char (literal "/" (some_of is_repo_char after_repo)))

unfoldable pub repo_url_pattern : String → Bool
repo_url_pattern =
    literal "http" (maybe (literal "s") (literal "://" (one_of allowed_repo_hosts after_host)))

-- `dangerous_chars`, by their codes.
abbrev pub dangerous_chars : List ℕ
dangerous_chars = b';' ∷ b'&' ∷ b'|' ∷ b'>' ∷ b'<' ∷ b'$' ∷ b'(' ∷ b')' ∷ b'`' ∷ 10 ∷ 13 ∷ []

unfoldable pub is_dangerous : List ℕ → String → Bool
unfolding has_char
is_dangerous [] url = false
is_dangerous (c ∷ cs) url = if has_char c url then true else is_dangerous cs url

module _ (library : Library) where
  unfoldable pub has_private : List String → Bool
  unfolding is_private_ip
  has_private [] = false
  has_private (ip ∷ ips) = if is_private_ip library.int ip then true else has_private ips

  -- The exceptions of the resolver let the URL through.
  abbrev pub resolves_privately : Option (List String) → Bool
  resolves_privately none = false
  resolves_privately (some ips) = has_private ips

  -- From the resolution of the host on.
  unfoldable pub check_host : String → String → Verdict
  unfolding repo_url_pattern has_private
  check_host url hostname =
      if not (contains (map library.lower allowed_repo_hosts) (library.lower hostname))
      then invalid
          "Repository host not allowed. Allowed hosts: github.com, gitlab.com, bitbucket.org, gitea.com, gist.github.com"
      else if resolves_privately (library.gethostbyname_ex hostname)
      then invalid "Repository URL resolves to private network"
      else if not (repo_url_pattern url)
      then invalid "Invalid repository URL format"
      else valid

  -- From the validation of the scheme on. A missing host name and an empty one are both false.
  unfoldable pub check_parsed : String → Parsed → Verdict
  unfolding check_host
  check_parsed url parsed =
      if not (contains ("http" ∷ "https" ∷ []) parsed.scheme)
      then invalid "Only HTTP and HTTPS URLs are allowed"
      else elim parsed.hostname [
        | none ↦ invalid "Invalid URL: missing hostname"
        | some String.[] ↦ invalid "Invalid URL: missing hostname"
        | some (String.◌∷◌ c s) ↦ check_host url (String.◌∷◌ c s)
      ]

  unfoldable pub validate_repo_url : String → Verdict
  unfolding has_prefix is_dangerous check_parsed
  validate_repo_url String.[] = invalid "Repository URL is required"
  validate_repo_url (String.◌∷◌ c s) =
      let url = String.◌∷◌ c s in
      if not (has_prefix "http://" url || has_prefix "https://" url)
      then invalid "URL must start with http:// or https://"
      else if is_dangerous dangerous_chars url
      then invalid "URL contains dangerous characters"
      else elim (library.urlparse url) [
        | inl e ↦ invalid ("Invalid URL format: " ++ e)
        | inr parsed ↦ check_parsed url parsed
      ]
