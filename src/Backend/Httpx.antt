-- ===== src/Backend/Httpx.antt =====
-- backend/internal/platform/httpx/errors.go: the error codes of the API. `*Error` is an `ApiError`,
-- and nil its absence.
use qr_domofon.Base.{ℕ, String, ◌≡◌, ◌⊎◌, inl, inr, refl, arith, Bool, true, false}

pub data Code : Type 0 where
  invalid_qr validation_error call_not_found call_not_accepted call_in_progress device_offline :
      Code
  rate_limit unauthorized forbidden internal invite_invalid invite_expired guest_invalid : Code
  guest_expired : Code

pub record ApiError : Type 0 where
  pub code : Code
  pub message : String

abbrev pub new_error : Code → String → ApiError
new_error code message = record { code = code; message = message }

-- A code that is not in the registry cannot be built here; `HTTPStatus` answers 500 to it.
unfoldable pub http_status : Code → ℕ
http_status invalid_qr = 400
http_status validation_error = 400
http_status unauthorized = 401
http_status forbidden = 403
http_status call_not_found = 404
http_status invite_invalid = 404
http_status guest_invalid = 404
http_status invite_expired = 410
http_status guest_expired = 410
http_status call_not_accepted = 409
http_status call_in_progress = 409
http_status rate_limit = 429
http_status device_offline = 503
http_status internal = 500

pub data Result {ℓ} (A : Type ℓ) : Type ℓ where
  ok : A → Result A
  err : ApiError → Result A

-- A chain of results ends at its first error.
infixl 1 ◌>>=◌
abbrev pub ◌>>=◌ {ℓ κ} : {A : Type ℓ} {B : Type κ} → Result A → (A → Result B) → Result B
err e >>= f = err e
ok a >>= f = f a

infixl 1 ◌>>◌
abbrev pub ◌>>◌ {ℓ κ} : {A : Type ℓ} {B : Type κ} → Result A → Result B → Result B
err e >> r = err e
ok _ >> r = r

abbrev pub internal_error : ApiError
internal_error = new_error internal "Internal server error"

-- A call that may fail.
abbrev pub attempt : Bool → Result {0} Unit
attempt true = err internal_error
attempt false = ok tt

pub bind-ok {ℓ κ} :
    {A : Type ℓ} {B : Type κ} (r : Result A) (f : A → Result B) (b : B)
    → (r >>= f) ≡ ok b
    → (a : A) × (r ≡ ok a) × (f a ≡ ok b)
bind-ok (err e) f b h = absurd (err≢ok h)
  where
    err≢ok : err e ≡ ok b → ⊥
    err≢ok k = ground arith
bind-ok (ok a) f b h = (a, refl, h)

pub then-ok {ℓ κ} :
    {A : Type ℓ} {B : Type κ} (r : Result A) (s : Result B) (b : B) → (r >> s) ≡ ok b → s ≡ ok b
then-ok (err e) s b h = absurd (err≢ok h)
  where
    err≢ok : err e ≡ ok b → ⊥
    err≢ok k = ground arith
then-ok (ok a) s b h = h

pub Result-cases {ℓ} :
    {A : Type ℓ} (r : Result A) → ((e : ApiError) × (r ≡ err e)) ⊎ ((a : A) × (r ≡ ok a))
Result-cases (err e) = inl (e, refl)
Result-cases (ok a) = inr (a, refl)
