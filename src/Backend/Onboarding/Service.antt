-- ===== src/Backend/Onboarding/Service.antt =====
-- backend/internal/onboarding/service.go: invitations and grants as their requests see them. An
-- operation answers its result, the database that it leaves, and the events that it records.
pub mod Points
pub mod Scope
pub mod Trip
use Prim.Native.String.{◌++◌}
use qr_domofon.Base.{
  ℕ, ◌+◌, ◌*◌, String, Bool, true, false, not, ◌||◌, Option, none, some, List, [], ◌∷◌, str_eq,
  if◌then◌else◌,
}
use qr_domofon.Base.Time.{hour}
use qr_domofon.Base.Text.{trim_space, trim_slashes}
use qr_domofon.Backend.Httpx.{
  ApiError, new_error, validation_error, forbidden, internal_error, Result, ok, err, ◌>>=◌,
}
use qr_domofon.Backend.Audit.{Event, no_event, text, flag, number}
use qr_domofon.Backend.Auth.Claims.{Claims, LoginResult}
use qr_domofon.Backend.Database.{Apartment, Point, Grant, Database, insert_grant, is_passage}
use qr_domofon.Backend.Onboarding.{normalize_phone, can_invite_to_apartment}
use qr_domofon.Backend.Onboarding.Composite.{normalize_grant_public_ids}
use qr_domofon.Backend.Onboarding.Grants as Grants
use qr_domofon.Backend.Onboarding.Grants.{
  get_access_point, get_apartment, find_user_by_phone_in_mc, attach_access_grant, set_name,
}
use qr_domofon.Backend.Onboarding.Invitations as Invites
use qr_domofon.Backend.Onboarding.Invitations.{NewInvite, create_invite}
use qr_domofon.Backend.Onboarding.Invites.{Accepted, accept_invite_tx}
use qr_domofon.Backend.Onboarding.Recipients.{set_full_name_if_empty}

abbrev pub invite_ttl : ℕ
invite_ttl = 7 * (24 * hour)

-- The repositories' environments, the services around, and the time.
pub record Env : Type 0 where
  pub grants : Grants.Env
  pub invites : Invites.Env
  pub generate_token : Option String
  pub hash_token : String → String
  pub format_time : ℕ → String
  pub issue_for_user : Database → String → Result LoginResult
  pub base_url : String
  pub now : ℕ

pub record InviteResult : Type 0 where
  pub token : String
  pub url : String
  pub expires_at : ℕ

pub record GrantResult : Type 0 where
  pub granted : Bool
  pub user_id : String
  pub public_id : String
  pub invite : Option InviteResult

pub record AcceptResult : Type 0 where
  pub user_id : String
  pub created : Bool
  pub login : Option LoginResult

pub record Reply (A : Type 0) : Type 0 where
  pub result : Result A
  pub db : Database
  pub events : List Event

abbrev pub refuse : {A : Type 0} → Database → ApiError → Reply A
refuse db refused = record { result = err refused; db = db; events = [] }

abbrev pub with_token : Env → NewInvite → String → NewInvite
with_token e new_invite raw = record new_invite {
  token_hash = e.hash_token raw;
  expires_at = e.now + invite_ttl;
}

abbrev created_event : Env → Claims → NewInvite → Event
created_event e claims new_invite = record no_event {
  event_type = "invite_created";
  actor = "user:" ++ claims.subject;
  apartment_id = new_invite.apartment_id;
  access_point_id = new_invite.access_point_id;
  management_company_id = new_invite.mc_id;
  metadata =
      ("target_kind", text new_invite.target_kind)
      ∷ ("role", text new_invite.role)
      ∷ ("expires_at", text (e.format_time new_invite.expires_at))
      ∷ [];
}

-- createInvite, once the token is there.
unfoldable pub store_invite : Env → Database → Claims → NewInvite → String → Reply InviteResult
store_invite e db claims new_invite raw = elim (create_invite e.invites db new_invite) [
  | err _ ↦ refuse db internal_error
  | ok after ↦ record {
    result = ok (record {
      token = raw;
      url = trim_slashes e.base_url ++ "/invite/" ++ raw;
      expires_at = new_invite.expires_at;
    });
    db = after;
    events = created_event e claims new_invite ∷ [];
  }
]

-- createInvite, by what the source of tokens answers.
unfoldable pub invite_with :
    Env → Database → Claims → NewInvite → Option String → Reply InviteResult
unfolding store_invite
invite_with e db claims new_invite none = refuse db internal_error
invite_with e db claims new_invite (some raw) =
    store_invite e db claims (with_token e new_invite raw) raw

unfoldable pub create_invite_of : Env → Database → Claims → NewInvite → Reply InviteResult
unfolding invite_with
create_invite_of e db claims new_invite = invite_with e db claims new_invite e.generate_token

abbrev no_point : ApiError
no_point = new_error validation_error "Access point not found"

-- A gate or a barrier of the company of the claims.
unfoldable pub check_point : Claims → Option (Option Point) → Result Point
check_point claims none = err internal_error
check_point claims (some none) = err no_point
check_point claims (some (some p)) =
    if not (str_eq p.mc_id claims.mc_id)
    then err no_point
    else if not (is_passage p.type)
    then err (new_error validation_error "Access point is not a gate or barrier")
    else ok p

-- The loop of resolveGrantPoints.
unfoldable pub resolve_points : Env → Database → Claims → List String → Result (List String)
unfolding check_point
resolve_points e db claims [] = ok []
resolve_points e db claims (public_id ∷ public_ids) =
    let rest = resolve_points e db claims public_ids in
    check_point claims (get_access_point e.grants db public_id)
    >>= (λ p. rest >>= (λ ids. ok (p.id ∷ ids)))

unfoldable pub resolve_grant_points : Env → Database → Claims → List String → Result (List String)
unfolding resolve_points
resolve_grant_points e db claims public_ids = do
  clean ← normalize_grant_public_ids public_ids
  resolve_points e db claims clean

abbrev no_apartment : ApiError
no_apartment = new_error validation_error "Apartment not found"

-- An apartment that was found, of the company of the claims.
unfoldable pub check_apartment : Claims → Option (Option Apartment) → Result Apartment
check_apartment claims none = err internal_error
check_apartment claims (some none) = err no_apartment
check_apartment claims (some (some a)) =
    if not (str_eq a.mc_id claims.mc_id) then err no_apartment else ok a

abbrev pub check_phone : String → Result String
check_phone raw =
    let phone = normalize_phone raw in
    if str_eq phone "" then err (new_error validation_error "Field phone is invalid") else ok phone

abbrev owner_invite : Claims → String → String → String → List String → String → NewInvite
owner_invite claims apartment_id phone full_name point_ids mc_id = record {
  token_hash = "";
  phone = phone;
  full_name = trim_space full_name;
  target_kind = "apartment_owner";
  apartment_id = apartment_id;
  access_point_id = "";
  role = "owner";
  grant_point_ids = point_ids;
  mc_id = mc_id;
  created_by = claims.subject;
  expires_at = 0;
}

-- The checks of CreateOwnerInvite, and the invitation that they let through.
unfoldable pub check_owner_invite :
    Env → Database → Claims → String → String → String → List String → Result NewInvite
unfolding check_apartment resolve_grant_points
check_owner_invite e db claims apartment_id raw_phone full_name public_ids = do
  phone ← check_phone raw_phone
  a ← check_apartment claims (get_apartment e.grants db apartment_id)
  point_ids ← resolve_grant_points e db claims public_ids
  ok (owner_invite claims apartment_id phone full_name point_ids a.mc_id)

-- An operation that ends in an invitation.
unfoldable pub invite : Env → Database → Claims → Result NewInvite → Reply InviteResult
unfolding create_invite_of
invite e db claims (err refused) = refuse db refused
invite e db claims (ok new_invite) = create_invite_of e db claims new_invite

unfoldable pub create_owner_invite :
    Env → Database → Claims → String → String → String → List String → Reply InviteResult
unfolding check_owner_invite invite
create_owner_invite e db claims apartment_id raw_phone full_name public_ids =
    invite e db claims (check_owner_invite e db claims apartment_id raw_phone full_name public_ids)

abbrev resident_invite : Claims → String → String → String → String → NewInvite
resident_invite claims apartment_id phone full_name mc_id = record {
  token_hash = "";
  phone = phone;
  full_name = trim_space full_name;
  target_kind = "apartment_resident";
  apartment_id = apartment_id;
  access_point_id = "";
  role = "resident";
  grant_point_ids = [];
  mc_id = mc_id;
  created_by = claims.subject;
  expires_at = 0;
}

-- An apartment that was found, of any company.
abbrev found_apartment : Option (Option Apartment) → Result Apartment
found_apartment none = err internal_error
found_apartment (some none) = err no_apartment
found_apartment (some (some a)) = ok a

unfoldable pub check_resident_invite :
    Env → Database → Claims → String → String → String → Result NewInvite
check_resident_invite e db claims apartment_id raw_phone full_name =
    if not (can_invite_to_apartment claims apartment_id)
    then err (new_error forbidden "You are not the owner of this apartment")
    else (check_phone raw_phone >>= (λ phone.
        found_apartment (get_apartment e.grants db apartment_id)
        >>= (λ a. ok (resident_invite claims apartment_id phone full_name a.mc_id))))

unfoldable pub create_resident_invite :
    Env → Database → Claims → String → String → String → Reply InviteResult
unfolding check_resident_invite invite
create_resident_invite e db claims apartment_id raw_phone full_name =
    invite e db claims (check_resident_invite e db claims apartment_id raw_phone full_name)

abbrev grant_invite : Claims → Point → String → String → NewInvite
grant_invite claims p phone full_name = record {
  token_hash = "";
  phone = phone;
  full_name = trim_space full_name;
  target_kind = "access_grant";
  apartment_id = "";
  access_point_id = p.id;
  role = "";
  grant_point_ids = [];
  mc_id = p.mc_id;
  created_by = claims.subject;
  expires_at = 0;
}

-- The name of a user that has none yet; whether the update succeeded.
unfoldable pub fill_user_name : Env → Database → String → String → Bool × Database
fill_user_name e db user_id full_name =
    if str_eq full_name ""
    then (true, db)
    else if e.grants.fails set_name
    then (false, db)
    else (true, record db { users = set_full_name_if_empty db.users user_id full_name })

abbrev granted_event : Claims → Point → String → Event
granted_event claims p user_id = record no_event {
  event_type = "access_grant_created";
  actor = "user:" ++ claims.subject;
  access_point_id = p.id;
  management_company_id = p.mc_id;
  metadata = ("granted_to", text user_id) ∷ ("direct", flag true) ∷ [];
}

-- CreateAccessGrant, for a user of the company.
unfoldable pub grant_directly :
    Env → Database → Claims → Point → String → String → String → Reply GrantResult
unfolding fill_user_name
grant_directly e db claims p user_id full_name public_id =
    let (attached, db₁) = attach_access_grant e.grants db user_id p.id p.mc_id claims.subject in
    let (named, db₂) = fill_user_name e db₁ user_id (trim_space full_name) in
    if not attached
    then refuse db internal_error
    else if not named
    then refuse db₁ internal_error
    else record {
      result =
          ok (record { granted = true; user_id = user_id; public_id = public_id; invite = none });
      db = db₂;
      events = granted_event claims p user_id ∷ [];
    }

abbrev invited : Reply InviteResult → Reply GrantResult
invited r = record {
  result =
      r.result
      >>= (λ inv. ok (record { granted = false; user_id = ""; public_id = ""; invite = some inv }));
  db = r.db;
  events = r.events;
}

-- CreateAccessGrant, for a point of the company.
unfoldable pub grant_or_invite :
    Env → Database → Claims → Point → String → String → String → Reply GrantResult
unfolding create_invite_of grant_directly
grant_or_invite e db claims p phone full_name public_id =
    elim (find_user_by_phone_in_mc e.grants db phone p.mc_id) [
      | none ↦ refuse db internal_error
      | some (some user_id) ↦ grant_directly e db claims p user_id full_name public_id
      | some none ↦ invited (create_invite_of e db claims (grant_invite claims p phone full_name))
    ]

unfoldable pub create_access_grant :
    Env → Database → Claims → String → String → String → Reply GrantResult
unfolding check_point grant_or_invite
create_access_grant e db claims public_id raw_phone full_name = elim (check_phone raw_phone) [
  | err refused ↦ refuse db refused
  | ok phone ↦ elim (check_point claims (get_access_point e.grants db public_id)) [
    | err refused ↦ refuse db refused
    | ok p ↦ grant_or_invite e db claims p phone full_name public_id
  ]
]

abbrev accepted_event : Accepted → Event
accepted_event acc = record no_event {
  event_type = "invite_accepted";
  actor = "user:" ++ acc.user_id;
  apartment_id = acc.apartment_id;
  access_point_id = acc.access_point_id;
  management_company_id = acc.mc_id;
  metadata =
      ("target_kind", text acc.target_kind)
      ∷ ("user_created", flag acc.created)
      ∷ ("granted_points", number acc.granted_points)
      ∷ [];
}

-- AcceptInvite, after the transaction: a session for a user that it created only.
abbrev pub sign_in : Env → Database → Accepted → Result AcceptResult
sign_in e db acc =
    if not acc.created
    then ok (record { user_id = acc.user_id; created = false; login = none })
    else (e.issue_for_user db acc.user_id
        >>= (λ login. ok (record { user_id = acc.user_id; created = true; login = some login })))

unfoldable pub accept_invite : Env → Database → String → Reply AcceptResult
accept_invite e db raw_token =
    if str_eq raw_token ""
    then refuse db (new_error validation_error "Field token is required")
    else let (answer, after) = accept_invite_tx e.invites db (e.hash_token raw_token) e.now in
      elim answer [
        | err refused ↦ refuse after refused
        | ok acc ↦ record {
          result = sign_in e after acc;
          db = after;
          events = accepted_event acc ∷ [];
        }
      ]
