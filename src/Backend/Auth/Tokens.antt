-- ===== src/Backend/Auth/Tokens.antt =====
-- The tokens of a session: what service.go of backend/internal/auth signs, and what jwt.go and
-- middleware.go make of a token. RS256 is an external package.
use qr_domofon.Base.{
  ℕ, ◌+◌, ◌*◌, ◌/◌, String, Bool, Option, none, some, List, str_eq, if◌then◌else◌,
}
use qr_domofon.Base.Time.{second, minute, hour}
use qr_domofon.Backend.Httpx.{ApiError, new_error, unauthorized, forbidden, Result, ok, err}
use qr_domofon.Backend.Auth.Claims.{ApartmentRole, Claims, is_resident, is_admin, is_system_admin}
use qr_domofon.Backend.Auth.Accounts.{Env}

abbrev pub access_ttl : ℕ
access_ttl = 15 * minute

abbrev pub refresh_ttl : ℕ
refresh_ttl = 30 * (24 * hour)

abbrev pub access_claims : Env → String → String → List ApartmentRole → String → Claims
access_claims e user_id kind roles mc_id = record {
  subject = user_id;
  kind = kind;
  roles = roles;
  mc_id = mc_id;
  jti = e.access_jti;
  issued_at = e.now / second;
  expires_at = (e.now + access_ttl) / second;
  type = "access";
}

abbrev pub refresh_claims : Env → String → String → List ApartmentRole → String → Claims
refresh_claims e user_id kind roles mc_id = record {
  subject = user_id;
  kind = kind;
  roles = roles;
  mc_id = mc_id;
  jti = e.refresh_jti;
  issued_at = e.now / second;
  expires_at = (e.now + refresh_ttl) / second;
  type = "refresh";
}

-- The access and the refresh token; the id of the latter is the fresh one.
unfoldable pub sign_pair :
    Env → String → String → List ApartmentRole → String → Option (String × String)
sign_pair e user_id kind roles mc_id = elim (e.sign (access_claims e user_id kind roles mc_id)) [
  | none ↦ none
  | some access ↦ elim (e.sign (refresh_claims e user_id kind roles mc_id)) [
    | none ↦ none
    | some refresh ↦ some (access, refresh)
  ]
]

-- RSAVerifier.VerifyAccess.
unfoldable pub verify_access : Env → String → Option Claims
verify_access e token = elim (e.parse token) [
  | none ↦ none
  | some c ↦ if str_eq c.type "access" then some c else none
]

-- Authenticator, for the token of a request: the claims of its context.
unfoldable pub authenticator : Env → String → Result Claims
unfolding verify_access
authenticator e token =
    if str_eq token ""
    then err (new_error unauthorized "missing access token")
    else elim (verify_access e token) [
      | none ↦ err (new_error unauthorized "invalid access token")
      | some c ↦ ok c
    ]

-- A gate of the middleware on the claims in the context.
abbrev require : (String → Bool) → String → Option Claims → Option ApiError
require test message none = some (new_error forbidden message)
require test message (some c) = if test c.kind then none else some (new_error forbidden message)

abbrev pub require_resident : Option Claims → Option ApiError
require_resident c = require is_resident "resident role required" c

abbrev pub require_admin : Option Claims → Option ApiError
require_admin c = require is_admin "admin role required" c

abbrev pub require_system_admin : Option Claims → Option ApiError
require_system_admin c = require is_system_admin "system admin role required" c
