-- ===== src/RateLimit/Identifier.antt =====
-- `_get_identifier` of src/api/middleware/rate_limit.py: the user, or else the client's address.
use Prim.Native.Char.{code}
use Prim.Native.String.{◌++◌}
use disposable_compute_platf.Prelude.{String, Option, none, some, ◌==◌, if◌then◌else◌}
use disposable_compute_platf.Prelude.Text.{strip}

pub record Request : Type 0 where
  pub user_id : Option String
  pub client_host : Option String
  pub forwarded_for : Option String
  pub path : String

-- A text that is missing or empty is false in Python.
abbrev truthy : Option String → Option String
truthy none = none
truthy (some String.[]) = none
truthy (some (String.◌∷◌ c s)) = some (String.◌∷◌ c s)

-- `s.split(",")[0]`
unfoldable pub before_comma : String → String
before_comma String.[] = String.[]
before_comma (String.◌∷◌ c s) =
    let rest = before_comma s in if code c == b',' then String.[] else String.◌∷◌ c rest

abbrev host_or_unknown : Option String → String
host_or_unknown none = "unknown"
host_or_unknown (some h) = h

unfoldable pub client_ip : Request → String
unfolding before_comma strip
client_ip request = elim (truthy request.forwarded_for) [
  | none ↦ host_or_unknown request.client_host
  | some forwarded_for ↦ strip (before_comma forwarded_for)
]

unfoldable pub get_identifier : Request → String
unfolding client_ip
get_identifier request = elim (truthy request.user_id) [
  | none ↦ "ip:" ++ client_ip request
  | some user_id ↦ "user:" ++ user_id
]
