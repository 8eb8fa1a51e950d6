-- ===== src/Backend/Onboarding/Invitations.antt =====
-- What an invitation is: CreateInvite of backend/internal/onboarding/repo.go, and ValidateInvite of its
-- invite.go, with the errors of an acceptance that has not found one.
use qr_domofon.Base.{
  ℕ, String, Bool, true, false, not, ◌&&◌, ◌||◌, Option, none, some, List, [], ◌∷◌, str_eq, ltb,
  any, first, if◌then◌else◌,
}
use qr_domofon.Backend.Httpx.{
  ApiError, new_error, invite_invalid, invite_expired, internal_error, Result, ok, err, ◌>>=◌, ◌>>◌,
  attempt,
}
use qr_domofon.Backend.Database.{User, InviteRow, InvitePoint, Database, null_str}

-- The statements of the two transactions, any of which may fail.
pub data Statement : Type 0 where
  begin insert_invite select_invite select_user insert_user select_user_again promote : Statement
  set_full_name upsert_role attach_grant grant_points mark_used commit : Statement
  insert_invite_point : String → Statement

-- What a transaction is given: the statements that fail, the cast of a text to a uuid, a fresh id, and
-- the user that another transaction commits between the search for a user and the insertion, if any.
pub record Env : Type 0 where
  pub fails : Statement → Bool
  pub cast : String → Option String
  pub new_id : String
  pub rival : Option User

pub record NewInvite : Type 0 where
  pub token_hash : String
  pub phone : String
  pub full_name : String
  pub target_kind : String
  pub apartment_id : String
  pub access_point_id : String
  pub role : String
  pub grant_point_ids : List String
  pub mc_id : String
  pub created_by : String
  pub expires_at : ℕ

abbrev pub invite_row : String → NewInvite → Option String → InviteRow
invite_row id new_invite apartment_id = record {
  id = id;
  token_hash = new_invite.token_hash;
  phone = null_str new_invite.phone;
  full_name = null_str new_invite.full_name;
  target_kind = new_invite.target_kind;
  apartment_id = apartment_id;
  access_point_id = null_str new_invite.access_point_id;
  role = null_str new_invite.role;
  mc_id = new_invite.mc_id;
  created_by = new_invite.created_by;
  expires_at = new_invite.expires_at;
  used_at = none;
  used_by = none;
}

abbrev pub is_null : Option String → Bool
is_null none = true
is_null (some _) = false

-- The constraint invites_shape.
abbrev pub has_shape : InviteRow → Bool
has_shape i =
    ((str_eq i.target_kind "apartment_owner" || str_eq i.target_kind "apartment_resident")
      && not (is_null i.apartment_id)
      && is_null i.access_point_id
      && not (is_null i.role))
    || (str_eq i.target_kind "access_grant"
        && not (is_null i.access_point_id)
        && is_null i.apartment_id
        && is_null i.role)

-- The id of an apartment in a request.
abbrev pub cast_null : Env → String → Result (Option String)
cast_null e s =
    if str_eq s ""
    then ok none
    else elim (e.cast s) [ none ↦ err internal_error | some key ↦ ok (some key) ]

-- UNIQUE on token_hash.
abbrev pub taken : List InviteRow → String → Bool
taken invites token_hash = any (λ (i : InviteRow). str_eq i.token_hash token_hash) invites

-- The loop over the points, `ON CONFLICT (invite_id, access_point_id) DO NOTHING`.
unfoldable pub insert_points :
    Env → String → String → List InvitePoint → List String → Result (List InvitePoint)
insert_points e id mc_id rows [] = ok rows
insert_points e id mc_id rows (p ∷ ps) =
    let row : InvitePoint = record { invite_id = id; access_point_id = p; mc_id = mc_id } in
    let there =
      any (λ (r : InvitePoint). str_eq r.invite_id id && str_eq r.access_point_id p) rows in
    let rest = insert_points e id mc_id (if there then rows else row ∷ rows) ps in
    attempt (e.fails (insert_invite_point p)) >> rest

unfoldable pub create_invite : Env → Database → NewInvite → Result Database
unfolding insert_points
create_invite e db new_invite = do
  attempt (e.fails begin)
  apartment_id ← cast_null e new_invite.apartment_id
  let row = invite_row e.new_id new_invite apartment_id
  attempt (e.fails insert_invite || taken db.invites row.token_hash || not (has_shape row))
  points ← insert_points e e.new_id new_invite.mc_id db.invite_points new_invite.grant_point_ids
  attempt (e.fails commit)
  ok (record db { invites = row ∷ db.invites; invite_points = points })

unfoldable pub validate_invite : InviteRow → ℕ → Option ApiError
validate_invite inv now = elim inv.used_at [
  | some _ ↦ some (new_error invite_invalid "Invite has already been used")
  | none ↦
      if ltb inv.expires_at now then some (new_error invite_expired "Invite has expired") else none
]

abbrev pub not_found : ApiError
not_found = new_error invite_invalid "Invite not found"

abbrev pub has_hash : String → InviteRow → Bool
has_hash token_hash i = str_eq i.token_hash token_hash

abbrev pub find_invite : List InviteRow → String → Option InviteRow
find_invite invites token_hash =
    first (λ (i : InviteRow). if has_hash token_hash i then some i else none) invites

abbrev pub or_not_found : Option InviteRow → Result InviteRow
or_not_found none = err not_found
or_not_found (some inv) = ok inv

abbrev pub unless_refused : Option ApiError → Result {0} Unit
unless_refused none = ok tt
unless_refused (some refused) = err refused

abbrev pub target_phone : Option String → Result String
target_phone none = err (new_error invite_invalid "Invite has no target phone")
target_phone (some phone) =
    if str_eq phone ""
    then err (new_error invite_invalid "Invite has no target phone")
    else ok phone
