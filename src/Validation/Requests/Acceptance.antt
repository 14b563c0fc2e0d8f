-- ===== src/Validation/Requests/Acceptance.antt =====
-- What `validate_create_session_request` of src/utils/input_validation.py lets through.
use mathlib.Core.Path.{subst}
use text.Mathlib.TextLemmas.{cons-ne-nil}
use disposable_compute_platf.Prelude.{
  String, ◌≡◌, ◌∙◌, ap, List, Option-cases, inl, inr, refl, true, Option, none, some, [], ◌∷◌,
  arith, All, contains,
}
use disposable_compute_platf.Prelude.Int.{ℤ, pos, ◌≤ℤ◌}
use disposable_compute_platf.Validation.Urls.{Library, Verdict, valid, invalid, validate_repo_url}
use disposable_compute_platf.Validation.Urls.Safety.{IsSafe, validate_repo_url-IsSafe}
use disposable_compute_platf.Validation.Inputs.{
  validate_session_type, validate_ref_name, validate_ttl, validate_metadata,
}
use disposable_compute_platf.Validation.Inputs.Refs.{IsRefName, validate_ref_name_lem}
use disposable_compute_platf.Validation.Inputs.Bounds.{validate_ttl_bounds}
use disposable_compute_platf.Validation.Inputs.Metadata.{IsCleanEntry, validate_metadata-clean}
use disposable_compute_platf.Validation.Requests.{
  Sanitized, SessionRequest, given_ref, add_error, ref_errors, request_errors, sanitized_of,
  sanitized_with, sanitized_pr, answer_of, validate_create_session_request,
}

abbrev IsRefOrNone : Option String → Type 0
IsRefOrNone none = Unit
IsRefOrNone (some ref) = IsRefName ref

known_type :
    (s : String)
    → validate_session_type s ≡ valid
    → contains ("preview" ∷ "run_repo" ∷ "fork_gui" ∷ []) s ≡ true
unfolding validate_session_type
known_type String.[] h = cc
known_type (String.◌∷◌ c s) h = ground arith

no_error : (v : Verdict) → add_error "Repository ref: " v [] ≡ [] → v ≡ valid
no_error valid h = refl
no_error (invalid message) h = cc

valid_ref : (o : Option String) → ref_errors (given_ref o) ≡ [] → IsRefOrNone (given_ref o)
valid_ref none h = tt
valid_ref (some String.[]) h = tt
valid_ref (some (String.◌∷◌ c s)) h =
    let ref = String.◌∷◌ c s in
    elim ((validate_ref_name_lem ref).0 (no_error (validate_ref_name ref) h)) [
      | inl e ↦ absurd (cons-ne-nil c s e)
      | inr r ↦ r
    ]

module _ (library : Library) (int : String → Option ℤ) where
  pub record IsAccepted (s : Sanitized) : Type 0 where
    pub type_is_known : contains ("preview" ∷ "run_repo" ∷ "fork_gui" ∷ []) s.session_type ≡ true
    pub url_is_safe : IsSafe library s.repo_url
    pub ref_is_name : IsRefOrNone s.repo_ref
    pub ttl_is_long : pos 5 ≤ℤ s.ttl_minutes
    pub ttl_is_short : s.ttl_minutes ≤ℤ pos 1440
    pub metadata_is_clean : All IsCleanEntry s.metadata

  no_errors→ :
      (request : SessionRequest)
      → request_errors library int request ≡ []
      → (validate_session_type request.session_type ≡ valid)
        × (validate_repo_url library request.repo_url ≡ valid)
        × (ref_errors (given_ref request.repo_ref) ≡ [])
  unfolding request_errors
  no_errors→ request h = (ground arith, ground arith, ground arith)

  answer→ :
      (errors : List String) (sanitized s : Sanitized)
      → answer_of library int errors sanitized ≡ inr s
      → (errors ≡ []) × (sanitized ≡ s)
  answer→ [] sanitized s h = (refl, cc)
  answer→ (e ∷ errors) sanitized s h = absurd (ground arith)

  accepted→ :
      (request : SessionRequest) (s : Sanitized)
      → validate_create_session_request library int request ≡ some (inr s)
      → (request_errors library int request ≡ []) × (sanitized_of library int request ≡ some s)
  unfolding validate_create_session_request
  accepted→ request s h = elim (Option-cases (sanitized_of library int request)) [
    | inl e ↦ cc
    | inr (sanitized, e) ↦
        let (clean, same) =
          answer→ (request_errors library int request) sanitized s (ground arith) in
        (clean, e ∙ ap some same)
  ]

  sanitized_with-IsAccepted :
      (request : SessionRequest) (s : Sanitized) (pr : Option (Option (Option ℤ)))
      (ttl : Option (ℤ × String))
      → request_errors library int request ≡ []
      → validate_ttl int request.ttl_minutes ≡ ttl
      → sanitized_with library int request pr ttl ≡ some s
      → IsAccepted s
  sanitized_with-IsAccepted request s none none h t e = cc
  sanitized_with-IsAccepted request s none (some n) h t e = cc
  sanitized_with-IsAccepted request s (some pr) none h t e = cc
  sanitized_with-IsAccepted request s (some pr) (some (n, message)) h t e =
      let (known, safe, named) = no_errors→ request h in
      let (low, high) = validate_ttl_bounds int request.ttl_minutes n message t in
      let accepted : IsAccepted (record {
        session_type = request.session_type;
        repo_url = request.repo_url;
        repo_ref = given_ref request.repo_ref;
        pr_number = pr;
        ttl_minutes = n;
        metadata = validate_metadata request.metadata;
      }) =
        record {
          type_is_known = known_type request.session_type known;
          url_is_safe = validate_repo_url-IsSafe library request.repo_url safe;
          ref_is_name = valid_ref request.repo_ref named;
          ttl_is_long = low;
          ttl_is_short = high;
          metadata_is_clean = validate_metadata-clean request.metadata;
        } in
      subst IsAccepted (cc) accepted

  -- When `validate_create_session_request` returns sanitized inputs, the session type is one of
  -- the three, the URL is safe in the sense of `IsSafe`, the reference, if any, is one that
  -- `IsRefName` describes, the time to live is from 5 to 1440 minutes, and every metadata entry
  -- has a key of 1 to 256 permitted characters and a value of at most 4096 characters without null
  -- characters.
  pub validate_create_session_request-IsAccepted :
      (request : SessionRequest) (s : Sanitized)
      → validate_create_session_request library int request ≡ some (inr s)
      → IsAccepted s
  validate_create_session_request-IsAccepted request s h =
      let (clean, e) = accepted→ request s h in
      sanitized_with-IsAccepted request s (sanitized_pr library int request.pr_number)
        (validate_ttl int request.ttl_minutes) clean refl (unfold sanitized_of in e)
