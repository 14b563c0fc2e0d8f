-- ===== src/Tests/Inputs.antt =====
-- Inputs of a request for a session.
use Prim.Native.Char.{code}
use disposable_compute_platf.Prelude.{
  ℕ, ◌+◌, ◌-◌, ◌*◌, String, ◌≡◌, ◌↔◌, ◌⊎◌, inr, refl, Option, none, some, [], ◌∷◌, All, contains,
  filter,
}
use disposable_compute_platf.Prelude.Dict.{Dict, get}
use disposable_compute_platf.Prelude.Int.{ℤ, pos}
use disposable_compute_platf.Prelude.Text.{
  str_length, has_char, has_prefix, has_part, literal, some_of,
}
use disposable_compute_platf.RateLimit.{RateLimitConfig, RateLimiter, value_error, check_window}
use disposable_compute_platf.RateLimit.Window.{is_accepted, live}
use disposable_compute_platf.Validation.Addresses.{split_dots, ip_to_int, is_private_ip}
use disposable_compute_platf.Validation.Urls.{
  Library, valid, validate_repo_url, repo_url_pattern, is_dangerous, has_private, check_host,
  check_parsed,
}
use disposable_compute_platf.Validation.Urls.Safety.{IsSafe, validate_repo_url-IsSafe}
use disposable_compute_platf.Validation.Inputs.{
  integer, validate_ref_name, check_patterns, validate_ttl, validate_pr_number, validate_metadata,
  validate_session_type,
}
use disposable_compute_platf.Validation.Inputs.Refs.{IsRefName, validate_ref_name_lem}
use disposable_compute_platf.Validation.Inputs.Metadata.{IsCleanEntry, validate_metadata-clean}
use disposable_compute_platf.Validation.Requests.{
  SessionRequest, Sanitized, sanitized_of, request_errors, validate_create_session_request,
}
use disposable_compute_platf.Validation.Requests.Acceptance.{
  IsAccepted, validate_create_session_request-IsAccepted,
}
use disposable_compute_platf.Validation.Limiter.{is_request_allowed}
use disposable_compute_platf.Validation.Limiter.Same.{
  without_blocks, is_request_allowed-check_window,
}

-- The decimal number of digits.
abbrev digits : String → ℕ → Option ℕ
digits String.[] n = some n
digits (String.◌∷◌ c s) n = digits s (n * 10 + (code c - b'0'))

abbrev int : String → Option ℕ
int s = digits s 0

abbrev integer_of : String → Option ℤ
integer_of s = elim (int s) [ none ↦ none | some n ↦ some (pos n) ]

abbrev url : String
url = "https://github.com/a/b.git"

-- A library that parses every text to the one host, and resolves it to a public address.
abbrev library : Library
library = record {
  urlparse = λ s. inr (record { scheme = "https"; hostname = some "github.com" });
  gethostbyname_ex = λ s. some ("140.82.121.4" ∷ []);
  int = int;
  lower = λ s. s;
}

validate_repo_url-IsSafe_example : IsSafe library url
unfolding validate_repo_url has_prefix has_char is_dangerous check_parsed check_host has_private
    is_private_ip ip_to_int split_dots repo_url_pattern literal some_of contains
validate_repo_url-IsSafe_example = validate_repo_url-IsSafe library url refl

-- The line feed at the end passes.
validate_ref_name_lem_example :
    (validate_ref_name "main\n" ≡ valid) ↔ ((◌≡◌ {A = String} "main\n" "") ⊎ IsRefName "main\n")
validate_ref_name_lem_example = validate_ref_name_lem "main\n"

abbrev metadata : Option (Dict String)
metadata = some (("team ", "core") ∷ ("bad key", "x") ∷ [])

validate_metadata-clean_example : All IsCleanEntry (validate_metadata metadata)
validate_metadata-clean_example = validate_metadata-clean metadata

abbrev request : SessionRequest
request = record {
  session_type = "preview";
  repo_url = url;
  repo_ref = some "main";
  pr_number = some (integer (pos 12));
  ttl_minutes = some (integer (pos 2));
  metadata = metadata;
}

abbrev accepted : Sanitized
accepted = record {
  session_type = "preview";
  repo_url = url;
  repo_ref = some "main";
  pr_number = some (some (pos 12));
  ttl_minutes = pos 5;
  metadata = validate_metadata metadata;
}

validate_create_session_request-IsAccepted_example : IsAccepted library integer_of accepted
unfolding validate_create_session_request request_errors sanitized_of validate_ttl
    validate_pr_number validate_session_type validate_ref_name check_patterns has_part str_length
    validate_repo_url has_prefix has_char is_dangerous check_parsed check_host has_private
    is_private_ip ip_to_int split_dots repo_url_pattern literal some_of contains
validate_create_session_request-IsAccepted_example =
    validate_create_session_request-IsAccepted library integer_of request accepted refl

abbrev config : RateLimitConfig
config = record { max_requests = 1; window_seconds = 60; block_duration_seconds = 300 }

abbrev limiter : RateLimiter
limiter = record {
  default_config = config;
  requests = ("u", 1000000 ∷ []) ∷ [];
  blocked = [];
  endpoint_configs = [];
}

is_request_allowed-check_window_example :
    (is_request_allowed 2000000 (without_blocks config limiter) "u" ≡ (
      without_blocks config (check_window 2000000 2000005 limiter "u" config).0,
      is_accepted (check_window 2000000 2000005 limiter "u" config).1,
    ))
    × ((check_window 2000000 2000005 limiter "u" config).1 ≡ value_error
        ↔ (config.max_requests ≡ 0) × (live 2000005 limiter "u" config ≡ []))
unfolding get filter
is_request_allowed-check_window_example =
    is_request_allowed-check_window config 2000000 2000005 "u" limiter refl
