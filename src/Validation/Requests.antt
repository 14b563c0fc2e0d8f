-- ===== src/Validation/Requests.antt =====
-- `InputValidator.validate_create_session_request` of src/utils/input_validation.py.
pub mod Acceptance
use Prim.Native.String.{◌++◌}
use disposable_compute_platf.Prelude.{String, Option, none, some, List, [], ◌∷◌, ◌⊎◌, inl, inr}
use disposable_compute_platf.Prelude.Int.{ℤ}
use disposable_compute_platf.Prelude.Dict.{Dict}
use disposable_compute_platf.Validation.Urls.{Library, Verdict, valid, invalid, validate_repo_url}
use disposable_compute_platf.Validation.Inputs.{
  Raw, validate_session_type, validate_ref_name, validate_ttl, validate_pr_number,
  validate_metadata,
}

-- The dict of sanitized inputs. Each optional key is an option; a number that was given and is
-- refused stands there as none.
pub record Sanitized : Type 0 where
  pub session_type : String
  pub repo_url : String
  pub repo_ref : Option String
  pub pr_number : Option (Option ℤ)
  pub ttl_minutes : ℤ
  pub metadata : Dict String

pub record SessionRequest : Type 0 where
  pub session_type : String
  pub repo_url : String
  pub repo_ref : Option String
  pub pr_number : Option Raw
  pub ttl_minutes : Option Raw
  pub metadata : Option (Dict String)

abbrev pub add_error : String → Verdict → List String → List String
add_error label valid errors = errors
add_error label (invalid message) errors = (label ++ message) ∷ errors

-- A missing or empty reference is not looked at.
abbrev pub given_ref : Option String → Option String
given_ref none = none
given_ref (some String.[]) = none
given_ref (some (String.◌∷◌ c s)) = some (String.◌∷◌ c s)

abbrev pub ref_errors : Option String → List String
ref_errors none = []
ref_errors (some ref) = add_error "Repository ref: " (validate_ref_name ref) []

-- `"; ".join(errors)`
unfoldable pub join_errors : List String → String
join_errors [] = ""
join_errors (e ∷ []) = e
join_errors (e ∷ f ∷ errors) = e ++ "; " ++ join_errors (f ∷ errors)

module _ (library : Library) (int : String → Option ℤ) where
  abbrev pub sanitized_pr : Option Raw → Option (Option (Option ℤ))
  sanitized_pr none = some none
  sanitized_pr (some raw) = elim (validate_pr_number int (some raw)) [
    | none ↦ none
    | some (n, message) ↦ some (some n)
  ]

  unfoldable pub request_errors : SessionRequest → List String
  unfolding validate_session_type validate_repo_url validate_ref_name
  request_errors request = add_error "Session type: " (validate_session_type request.session_type) (
      add_error "Repository URL: " (validate_repo_url library request.repo_url)
        (ref_errors (given_ref request.repo_ref)))

  abbrev pub sanitized_with :
      SessionRequest → Option (Option (Option ℤ)) → Option (ℤ × String) → Option Sanitized
  sanitized_with request (some pr_number) (some (ttl_minutes, warning)) = some (record {
    session_type = request.session_type;
    repo_url = request.repo_url;
    repo_ref = given_ref request.repo_ref;
    pr_number = pr_number;
    ttl_minutes = ttl_minutes;
    metadata = validate_metadata request.metadata;
  })
  sanitized_with request _ _ = none

  -- None is the exception of a number.
  unfoldable pub sanitized_of : SessionRequest → Option Sanitized
  unfolding validate_ttl validate_pr_number validate_metadata
  sanitized_of request =
      sanitized_with request (sanitized_pr request.pr_number) (validate_ttl int request.ttl_minutes)

  abbrev pub answer_of : List String → Sanitized → String ⊎ Sanitized
  answer_of [] sanitized = inr sanitized
  answer_of (e ∷ errors) sanitized = inl (join_errors (e ∷ errors))

  -- None is an exception, which comes also when there are errors.
  unfoldable pub validate_create_session_request : SessionRequest → Option (String ⊎ Sanitized)
  unfolding request_errors sanitized_of join_errors
  validate_create_session_request request = elim (sanitized_of request) [
    | none ↦ none
    | some sanitized ↦ some (answer_of (request_errors request) sanitized)
  ]
