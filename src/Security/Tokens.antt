-- ===== src/Security/Tokens.antt =====
-- `AccessController` of src/utils/security.py, for tokens of ASCII characters. The random token and the time, in microseconds, are
-- arguments.
pub mod Granting
use disposable_compute_platf.Prelude.{
  ℕ, ◌+◌, ◌*◌, String, Bool, true, false, Option, none, some, [], ltb, str_eq, not, if◌then◌else◌,
}
use disposable_compute_platf.Prelude.Dict.{Dict, get, put, del}

pub record AccessController : Type 0 where
  pub session_tokens : Dict String
  pub token_expiration : Dict ℕ

abbrev pub new_controller : AccessController
new_controller = record { session_tokens = []; token_expiration = [] }

unfoldable pub generate_access_token : ℕ → AccessController → String → ℕ → String → AccessController
generate_access_token now c session_id ttl_minutes token = record {
  session_tokens = put session_id token c.session_tokens;
  token_expiration = put token (now + ttl_minutes * 60000000) c.token_expiration;
}

-- After the comparison with the stored token.
abbrev pub check_expiration :
    ℕ → AccessController → String → String → Option ℕ → AccessController × Bool
check_expiration now c session_id token none = (c, true)
check_expiration now c session_id token (some expiration) =
    if ltb expiration now
    then (
      record {
        session_tokens = del session_id c.session_tokens;
        token_expiration = del token c.token_expiration;
      },
      false,
    )
    else (c, true)

unfoldable pub validate_access_token :
    ℕ → AccessController → String → String → AccessController × Bool
validate_access_token now c session_id token = elim (get session_id c.session_tokens) [
  | none ↦ (c, false)
  | some stored_token ↦
      if not (str_eq token stored_token)
      then (c, false)
      else check_expiration now c session_id token (get token c.token_expiration)
]

-- Deleting a key that is not there does nothing.
unfoldable pub revoke_access_token : AccessController → String → AccessController
revoke_access_token c session_id = elim (get session_id c.session_tokens) [
  | none ↦ c
  | some token ↦ record {
    session_tokens = del session_id c.session_tokens;
    token_expiration = del token c.token_expiration;
  }
]
