-- ===== src/Backend/Auth/Claims.antt =====
-- backend/internal/auth/jwt.go, rbac.go, context.go and middleware.go: the claims of a token and
-- the tests on them, and the results of service.go that carry them. The context of a request is the claims that Authenticator put there, if any.
use qr_domofon.Base.{ℕ, String, Bool, false, ◌||◌, Option, none, some, List, [], ◌∷◌, map, str_eq}

pub record ApartmentRole : Type 0 where
  pub apartment_id : String
  pub role : String
  pub can_create_guests : Bool

pub record Claims : Type 0 where
  pub subject : String
  pub kind : String
  pub roles : List ApartmentRole
  pub mc_id : String
  pub jti : String
  pub issued_at : ℕ
  pub expires_at : ℕ
  pub type : String

abbrev pub is_resident : String → Bool
is_resident kind = str_eq kind "resident" || str_eq kind "owner"

abbrev pub is_admin : String → Bool
is_admin kind = str_eq kind "mc_admin"

abbrev pub is_system_admin : String → Bool
is_system_admin kind = str_eq kind "system_admin"

allow_role : List ApartmentRole → String → Bool
allow_role [] apartment_id = false
allow_role (r ∷ rs) apartment_id = str_eq r.apartment_id apartment_id || allow_role rs apartment_id

unfoldable pub allow_apartment : Claims → String → Bool
unfolding allow_role
allow_apartment c apartment_id = allow_role c.roles apartment_id

abbrev pub mc_id_from_context : Option Claims → String
mc_id_from_context none = ""
mc_id_from_context (some c) = c.mc_id

abbrev pub subject_from_context : Option Claims → String
subject_from_context none = ""
subject_from_context (some c) = c.subject

abbrev pub apartments_from_context : Option Claims → List String
apartments_from_context none = []
apartments_from_context (some c) = map (λ (r : ApartmentRole). r.apartment_id) c.roles

abbrev pub allow_apartment_from_context : Option Claims → String → Bool
allow_apartment_from_context none apartment_id = false
allow_apartment_from_context (some c) apartment_id = allow_apartment c apartment_id

pub record ApartmentInfo : Type 0 where
  pub id : String
  pub role : String

pub record UserProfile : Type 0 where
  pub id : String
  pub kind : String
  pub apartments : List ApartmentInfo
  pub mc_id : String

pub record LoginResult : Type 0 where
  pub access_token : String
  pub refresh_token : String
  pub user : UserProfile

pub record RefreshResult : Type 0 where
  pub access_token : String
  pub refresh_token : String
