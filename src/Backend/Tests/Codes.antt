-- ===== src/Backend/Tests/Codes.antt =====
-- Runs of the signatures of QR codes, backend/internal/qr.
use qr_domofon.Base.{String, ◌≡◌, ◌↔◌, refl, ◌||◌, false, none, some, str_eq, if◌then◌else◌}
use qr_domofon.Backend.Httpx.{ok}
use qr_domofon.Backend.Qr.{
  Env, sign, verify, ValidateRequest, ResolvedProperty, resolved, property_not_found, response,
  online_or, validate, answer,
}
use qr_domofon.Backend.Qr.Signature.{plain, sign-verify_iff, validate-Signed}

abbrev point : ResolvedProperty
point = record {
  access_point_public_id = "p";
  access_point_label = "entrance";
  apartment_id = "a1";
  apartment_number = "1";
  device_id = "d1";
}

-- A mac that is the message.
abbrev services : Env
services = record {
  mac = λ _ m. m;
  keyring = λ kid. if str_eq kid "k1" then some "secret" else none;
  resolve_by_public_id = λ aid. if str_eq aid "p" then resolved point else property_not_found;
  is_online = λ _. none;
}

abbrev one_aid : String
one_aid = "p"

abbrev other_aid : String
other_aid = "q"

abbrev version : String
version = "1"

sign-verify_iff_example :
    (verify services other_aid version "k1" (sign services one_aid version "k1" "secret") ≡ none)
    ↔ (other_aid ≡ one_aid) × (version ≡ version)
unfolding sign plain
sign-verify_iff_example =
    sign-verify_iff services one_aid version other_aid version "k1" "secret" refl refl refl
      (λ same. same)

abbrev request : ValidateRequest
request = record { aid = "p"; v = "1"; kid = "k1"; sig = "p:1:k1" }

valid_lem : validate services (some request) ≡ ok (response point false)
unfolding validate verify sign answer
valid_lem = refl

validate-Signed_example :
    (req : ValidateRequest) × (some request ≡ some req)
    × ((str_eq req.aid "" || str_eq req.v "" || str_eq req.kid "" || str_eq req.sig "") ≡ false)
    × ((secret : String) × (services.keyring req.kid ≡ some secret)
        × (sign services req.aid req.v req.kid secret ≡ req.sig))
    × ((prop : ResolvedProperty) × (services.resolve_by_public_id req.aid ≡ resolved prop)
        × (response point false ≡ response prop (online_or (services.is_online prop.device_id))))
validate-Signed_example = validate-Signed services (some request) (response point false) valid_lem
