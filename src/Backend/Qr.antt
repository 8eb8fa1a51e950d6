-- ===== src/Backend/Qr.antt =====
-- backend/internal/qr: the signature of a QR code (qr.go), and the handler that validates one and says
-- what it leads to (handler.go). HMAC-SHA256 in base64url is external, and so is the reading of the
-- body of a request, which is `none` when it is no JSON.
pub mod Signature
use Prim.Native.String.{◌++◌, slice}
use qr_domofon.Base.{String, Bool, true, false, ◌||◌, Option, none, some, str_eq, if◌then◌else◌}
use qr_domofon.Backend.Httpx.{new_error, validation_error, invalid_qr, internal, Result, ok, err}

pub data VerifyError : Type 0 where
  err_invalid_signature err_unknown_kid : VerifyError

pub data Resolution (A : Type 0) : Type 0 where
  resolved : A → Resolution A
  property_not_found resolution_failed : Resolution A

pub record ResolvedProperty : Type 0 where
  pub access_point_public_id : String
  pub access_point_label : String
  pub apartment_id : String
  pub apartment_number : String
  pub device_id : String

-- base64url(HMAC-SHA256(message, secret)) by the secret and the message; the keyring; the property
-- of an aid; and the check of a device, which can fail.
pub record Env : Type 0 where
  pub mac : String → String → String
  pub keyring : String → Option String
  pub resolve_by_public_id : String → Resolution ResolvedProperty
  pub is_online : String → Option Bool

abbrev pub message : String → String → String → String
message aid v kid = aid ++ (":" ++ (v ++ (":" ++ kid)))

-- Slicing counts bytes, and base64url has 43 of them for the 32 bytes of the mac.
unfoldable pub sign : Env → String → String → String → String → String
sign e aid v kid secret = slice (e.mac secret (message aid v kid)) 0 32

-- `none` is a signature that is right.
unfoldable pub verify : Env → String → String → String → String → Option VerifyError
verify e aid v kid sig = elim (e.keyring kid) [
  | none ↦ some err_unknown_kid
  | some secret ↦ if str_eq (sign e aid v kid secret) sig then none else some err_invalid_signature
]

pub record ValidateRequest : Type 0 where
  pub aid : String
  pub v : String
  pub kid : String
  pub sig : String

pub record ValidateResponse : Type 0 where
  pub access_point_public_id : String
  pub access_point_label : String
  pub apartment_id : String
  pub apartment_number : String
  pub device_status : String
  pub warning : String

abbrev pub offline_warning : String
offline_warning =
    "Устройство временно недоступно. Вы можете позвонить жильцу — он откроет дверь, когда связь восстановится."

abbrev pub status_string : Bool → String
status_string online = if online then "online" else "offline"

-- An answer that failed counts as offline.
abbrev pub online_or : Option Bool → Bool
online_or none = false
online_or (some online) = online

abbrev pub response : ResolvedProperty → Bool → ValidateResponse
response prop online = record {
  access_point_public_id = prop.access_point_public_id;
  access_point_label = prop.access_point_label;
  apartment_id = prop.apartment_id;
  apartment_number = prop.apartment_number;
  device_status = status_string online;
  warning = if online then "" else offline_warning;
}

-- Validate, for a property that was looked up.
unfoldable pub answer : Env → Resolution ResolvedProperty → Result ValidateResponse
answer e property_not_found = err (new_error invalid_qr "QR is invalid")
answer e resolution_failed = err (new_error internal "Internal server error")
answer e (resolved prop) = ok (response prop (online_or (e.is_online prop.device_id)))

unfoldable pub validate : Env → Option ValidateRequest → Result ValidateResponse
unfolding verify answer
validate e none = err (new_error validation_error "Invalid request body")
validate e (some req) =
    if str_eq req.aid "" || str_eq req.v "" || str_eq req.kid "" || str_eq req.sig ""
    then err (new_error validation_error "Fields aid, v, kid, sig are required")
    else elim (verify e req.aid req.v req.kid req.sig) [
      | some _ ↦ err (new_error invalid_qr "QR is invalid")
      | none ↦ answer e (e.resolve_by_public_id req.aid)
    ]
