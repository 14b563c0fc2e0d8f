-- ===== src/Tests/Tokens.antt =====
-- A token and its session.
use disposable_compute_platf.Prelude.{ℕ, ◌≤◌, ◌≡◌, refl, some}
use disposable_compute_platf.Prelude.Dict.{get, put}
use disposable_compute_platf.Security.Tokens.{
  AccessController, new_controller, generate_access_token, validate_access_token,
}
use disposable_compute_platf.Security.Tokens.Granting.{
  Reaches, here, next, generate, validate_access_token-Reaches,
}

abbrev controller : AccessController
controller = generate_access_token 0 new_controller "s1" 60 "t1"

controller-Reaches : Reaches new_controller controller
unfolding get
controller-Reaches = next here (generate 0 "s1" 60 "t1" refl)

validate_access_token-Reaches_example :
    (get "s1" controller.session_tokens ≡ some "t1")
    × (x : ℕ) × (get "t1" controller.token_expiration ≡ some x)
    × (7 ≤ x)
unfolding validate_access_token generate_access_token get put
validate_access_token-Reaches_example =
    validate_access_token-Reaches 7 "s1" "t1" controller-Reaches refl
