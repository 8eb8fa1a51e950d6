-- ===== src/Backend/Guests.antt =====
-- backend/internal/guests/guest.go and service.go: a guest's access. The answers of the repository and of
-- the other services are a record, `Env`; what the service does is a list of effects.
pub mod Service
pub mod Window
pub mod Create
pub mod Door
pub mod Offers
pub mod Repo
use Prim.Native.String.{◌++◌}
use qr_domofon.Base.{
  ℕ, ◌-◌, ◌*◌, String, Bool, true, false, not, Option, none, some, List, [], ◌∷◌, map, str_eq, ltb,
  if◌then◌else◌, length, ◌++◌ as append,
}
use qr_domofon.Base.Time.{hour}
use qr_domofon.Base.Text.{trim_space, trim_slashes}
use qr_domofon.Backend.Httpx.{
  ApiError, new_error, forbidden, validation_error, guest_expired, guest_invalid, Result, ok, err,
}
use qr_domofon.Backend.Audit.{Event, number, text, flag, no_event}
use qr_domofon.Backend.Access as Access
use qr_domofon.Backend.Access.{internal_error, online_or_offline, open_resolved}
use qr_domofon.Backend.Auth.Claims.{Claims}

abbrev pub max_guest_duration : ℕ
max_guest_duration = 48 * hour

pub record Guest : Type 0 where
  pub valid_from : ℕ
  pub valid_to : ℕ
  pub revoked_at : Option ℕ

abbrev in_window : Guest → ℕ → Option ApiError
in_window g now =
    if ltb now g.valid_from
    then some (new_error guest_expired "Guest access is not active yet")
    else if not (ltb now g.valid_to)
    then some (new_error guest_expired "Guest access has expired")
    else none

unfoldable pub validate_guest : Guest → ℕ → Option ApiError
validate_guest g now = elim (g.revoked_at) [
  | some _ ↦ some (new_error guest_expired "Guest access has been revoked")
  | none ↦ in_window g now
]

unfoldable pub validate_window : ℕ → ℕ → Option ApiError
validate_window from to =
    if not (ltb from to)
    then some (new_error validation_error "valid_to must be after valid_from")
    else if ltb max_guest_duration (to - from)
    then some (new_error validation_error "Guest access window must not exceed 2 days")
    else none

pub record NewGuest : Type 0 where
  pub token_hash : String
  pub full_name : String
  pub apartment_id : String
  pub mc_id : String
  pub created_by : String
  pub valid_from : ℕ
  pub valid_to : ℕ
  pub point_ids : List String

pub record GuestRow : Type 0 where
  pub id : String
  pub full_name : String
  pub apartment_id : String
  pub mc_id : String
  pub created_by : String
  pub valid_from : ℕ
  pub valid_to : ℕ
  pub revoked_at : Option ℕ

pub record PointOption : Type 0 where
  pub id : String
  pub public_id : String
  pub label : String
  pub type : String

pub record GuestPointView : Type 0 where
  pub public_id : String
  pub label : String
  pub type : String
  pub device_id : String

pub record ResolvedPoint : Type 0 where
  pub device_id : String
  pub access_point_id : String
  pub apartment_id : String
  pub management_company_id : String

pub record GuestSummary : Type 0 where
  pub id : String
  pub full_name : String
  pub valid_from : ℕ
  pub valid_to : ℕ
  pub revoked_at : Option ℕ
  pub points : ℕ

pub record CreateResult : Type 0 where
  pub guest_id : String
  pub token : String
  pub url : String
  pub valid_from : ℕ
  pub valid_to : ℕ

pub record PointView : Type 0 where
  pub public_id : String
  pub label : String
  pub type : String
  pub online : Bool

pub record GuestView : Type 0 where
  pub full_name : String
  pub valid_from : ℕ
  pub valid_to : ℕ
  pub points : List PointView

-- The calls of the repository that write, and of the recorder.
pub data Effect : Type 0 where
  insert_guest : NewGuest → Effect
  revoke_guest : String → String → ℕ → Effect
  set_permission_of : String → String → Bool → Effect
  record_event : Event → Effect

-- A call that fails answers `none`; one that finds nothing, `some none` or `some false`.
pub record Env : Type 0 where
  pub apartment_mc : String → Option (Option String)
  pub is_apartment_member : String → String → Option Bool
  pub can_create_guests : String → String → Option Bool
  pub owns_apartment : String → String → Option Bool
  pub allowed_points : String → String → Option (List PointOption)
  pub create_guest_row : NewGuest → Option String
  pub get_guest_by_token_hash : String → Option (Option GuestRow)
  pub guest_points : String → Option (List GuestPointView)
  pub resolve_guest_open_point : String → String → String → String → Option (Option ResolvedPoint)
  pub list_by_creator : String → Option (List GuestSummary)
  pub revoke_row : String → String → ℕ → Option Bool
  pub set_guest_permission : String → String → Bool → Option Bool
  pub is_online : String → Option Bool
  pub generate_token : Option String
  pub hash_token : String → String
  pub format_time : ℕ → String
  pub base_url : String
  pub now : ℕ

unfoldable pub guest_point_options : Env → Claims → String → Result (List PointOption)
guest_point_options e claims apartment_id =
    elim (e.is_apartment_member claims.subject apartment_id) [
      | none ↦ err internal_error
      | some false ↦ err (new_error forbidden "You are not a member of this apartment")
      | some true ↦ elim (e.allowed_points apartment_id claims.subject) [
        | none ↦ err internal_error
        | some opts ↦ ok opts
      ]
    ]

-- The map `allow`: the last option with a public id is the one that stays in it.
unfoldable pub allow : List PointOption → String → Option String
allow [] pid = none
allow (o ∷ opts) pid = elim (allow opts pid) [
  | some id ↦ some id
  | none ↦ if str_eq o.public_id pid then some o.id else none
]

abbrev pub mem : String → List String → Bool
mem x [] = false
mem x (y ∷ ys) = if str_eq y x then true else mem x ys

-- The loop over the requested points: what was seen, and the ids so far.
unfoldable pub choose_points :
    List PointOption → List String → List String → List String → Result (List String)
choose_points opts seen ids [] = ok ids
choose_points opts seen ids (p ∷ ps) =
    let pid = trim_space p in
    let skip = choose_points opts seen ids ps in
    if str_eq pid "" then skip else if mem pid seen then skip else elim (allow opts pid) [
      | none ↦ err (new_error forbidden "Access point is not available to you")
      | some id ↦ choose_points opts (pid ∷ seen) (append ids (id ∷ [])) ps
    ]
