-- ===== src/Backend/Onboarding/Invites.antt =====
-- The acceptance of an invitation, AcceptInviteTx of backend/internal/onboarding/repo.go. A transaction is a chain of results: it ends at its first error, and then the deferred
-- Rollback leaves the database as it was.
pub mod Place
pub mod Holder
pub mod Attach
pub mod Attachment
pub mod Accept
pub mod Once
pub mod Session
use qr_domofon.Base.{
  ℕ, suc, String, Bool, true, false, not, ◌&&◌, ◌||◌, Option, none, some, List, [], ◌∷◌, str_eq,
  ltb, any, first, update_rows, if◌then◌else◌,
}
use qr_domofon.Backend.Httpx.{
  ApiError, new_error, invite_invalid, invite_expired, internal, internal_error, Result, ok, err,
  ◌>>=◌, ◌>>◌, attempt,
}
use qr_domofon.Backend.Database.{
  User, RoleRow, Grant, Point, InviteRow, InvitePoint, Database, is_value, null_str, insert_grant,
}
use qr_domofon.Backend.Onboarding.Invitations.{
  Statement, Env, NewInvite, invite_row, is_null, has_shape, cast_null, taken, insert_points,
  create_invite, validate_invite, not_found, has_hash, find_invite, or_not_found, unless_refused,
  target_phone, begin, insert_invite, select_invite, select_user, insert_user, select_user_again,
  promote, set_full_name, upsert_role, attach_grant, grant_points, mark_used, commit,
  insert_invite_point,
}
use qr_domofon.Backend.Onboarding.Recipients.{
  is_admin_kind, user_by_phone, add_user, arrived, Placed, new_kind, reread_user, promote_user,
  existing_user, new_user, insert_new_user, place_user, is_empty, set_full_name_if_empty, fill_name,
}

abbrev pub same_role : RoleRow → RoleRow → Bool
same_role r q = str_eq q.user_id r.user_id && str_eq q.apartment_id r.apartment_id

-- `ON CONFLICT (user_id, apartment_id) DO UPDATE SET role = CASE WHEN EXCLUDED.role = 'owner' ...`.
unfoldable pub upsert_role_row : List RoleRow → RoleRow → List RoleRow
upsert_role_row roles r =
    if any (same_role r) roles
    then update_rows (same_role r)
        (λ (q : RoleRow). record q { role = if str_eq r.role "owner" then "owner" else q.role })
        roles
    else r ∷ roles

abbrev pub role_row : InviteRow → String → String → String → RoleRow
role_row inv user_id apartment_id role = record {
  user_id = user_id;
  apartment_id = apartment_id;
  mc_id = inv.mc_id;
  role = role;
  can_create_guests = false;
  created_by = some inv.created_by;
}

abbrev pub grant_row : InviteRow → String → String → String → Grant
grant_row inv user_id point_id mc_id = record {
  user_id = user_id;
  access_point_id = point_id;
  mc_id = mc_id;
  granted_by = some inv.created_by;
}

abbrev pub is_apartment_kind : String → Bool
is_apartment_kind target_kind =
    str_eq target_kind "apartment_owner" || str_eq target_kind "apartment_resident"

-- The role of an invitation to an apartment.
unfoldable pub attach_role : Env → Database → InviteRow → String → Result Database
unfolding upsert_role_row
attach_role e db inv user_id = elim inv.apartment_id [
  | none ↦ err (new_error internal "Malformed invite")
  | some apartment_id ↦ elim inv.role [
    | none ↦ err (new_error internal "Malformed invite")
    | some role ↦
        attempt (e.fails upsert_role)
        >> (ok (record db {
          roles = upsert_role_row db.roles (role_row inv user_id apartment_id role);
        }))
  ]
]

-- The grant of an invitation to a point.
unfoldable pub attach_point : Env → Database → InviteRow → String → Result Database
attach_point e db inv user_id = elim inv.access_point_id [
  | none ↦ err (new_error internal "Malformed invite")
  | some point_id ↦
      attempt (e.fails attach_grant)
      >> (ok (record db {
        grants = (insert_grant db.grants (grant_row inv user_id point_id inv.mc_id)).1;
      }))
]

-- `JOIN access_points ap ON ap.id = ... AND ap.is_active = true`.
abbrev pub is_live : List Point → String → Bool
is_live points point_id = any (λ (p : Point). str_eq p.id point_id && p.is_active) points

-- The extra grants of an invitation, and how many were inserted.
unfoldable pub insert_extra :
    List Point → InviteRow → String → List InvitePoint → List Grant → ℕ × List Grant
unfolding insert_grant
insert_extra points inv user_id [] grants = (0, grants)
insert_extra points inv user_id (ip ∷ ips) grants =
    let row = grant_row inv user_id ip.access_point_id ip.mc_id in
    let skipped = insert_extra points inv user_id ips grants in
    let inserted = insert_grant grants row in
    let rest = insert_extra points inv user_id ips inserted.1 in
    if str_eq ip.invite_id inv.id && is_live points ip.access_point_id
    then (if inserted.0 then suc rest.0 else rest.0, rest.1)
    else skipped

pub record Attached : Type 0 where
  pub db : Database
  pub granted_points : ℕ

-- The role or grant, and the extra grants.
unfoldable pub attach : Env → Database → InviteRow → String → Result Attached
unfolding attach_role attach_point insert_extra
attach e db inv user_id =
    if is_apartment_kind inv.target_kind
    then attach_role e db inv user_id >>= (λ after.
      let extra = insert_extra after.points inv user_id after.invite_points after.grants in
      attempt (e.fails grant_points)
      >> (ok (record { db = record after { grants = extra.1 }; granted_points = extra.0 })))
    else if str_eq inv.target_kind "access_grant"
    then attach_point e db inv user_id >>= (λ after. ok (record { db = after; granted_points = 0 }))
    else err (new_error internal "Unknown invite target")

abbrev pub is_unused : String → InviteRow → Bool
is_unused id i = str_eq i.id id && elim i.used_at [ none ↦ true | some _ ↦ false ]

-- `UPDATE invites SET used_at = $1, used_by = $2 WHERE id = $3 AND used_at IS NULL`.
unfoldable pub mark_invite : List InviteRow → String → String → ℕ → Result (List InviteRow)
mark_invite invites id user_id now =
    if any (is_unused id) invites
    then ok (
        update_rows (is_unused id) (λ i. record i { used_at = some now; used_by = some user_id })
          invites)
    else err (new_error invite_invalid "Invite has already been used")

pub record Accepted : Type 0 where
  pub user_id : String
  pub created : Bool
  pub target_kind : String
  pub mc_id : String
  pub apartment_id : String
  pub access_point_id : String
  pub granted_points : ℕ

abbrev pub or_empty : Option String → String
or_empty none = ""
or_empty (some s) = s

abbrev pub accepted : InviteRow → Placed → ℕ → Accepted
accepted inv placed granted = record {
  user_id = placed.user_id;
  created = placed.created;
  target_kind = inv.target_kind;
  mc_id = inv.mc_id;
  apartment_id = or_empty inv.apartment_id;
  access_point_id = or_empty inv.access_point_id;
  granted_points = granted;
}

-- AcceptInviteTx, for the invitation that was found and its phone.
unfoldable pub accept_found : Env → Database → InviteRow → ℕ → String → Result (Accepted × Database)
unfolding place_user fill_name attach mark_invite
accept_found e db inv now phone = do
  placed ← place_user e db.users inv.target_kind phone
  users ← fill_name e placed.users inv.full_name placed.user_id
  attached ← attach e (record db { users = users }) inv placed.user_id
  attempt (e.fails mark_used)
  invites ← mark_invite attached.db.invites inv.id placed.user_id now
  attempt (e.fails commit)
  ok (accepted inv placed attached.granted_points, record attached.db { invites = invites })

unfoldable pub accept_steps : Env → Database → String → ℕ → Result (Accepted × Database)
unfolding validate_invite accept_found
accept_steps e db token_hash now = do
  attempt (e.fails begin)
  attempt (e.fails select_invite)
  inv ← or_not_found (find_invite db.invites token_hash)
  unless_refused (validate_invite inv now)
  phone ← target_phone inv.phone
  accept_found e db inv now phone

-- The deferred Rollback: what the other transaction committed stays.
unfoldable pub accept_invite_tx : Env → Database → String → ℕ → Result Accepted × Database
unfolding accept_steps
accept_invite_tx e db token_hash now = elim (accept_steps e db token_hash now) [
  | err refused ↦ (err refused, record db { users = arrived e db.users })
  | ok (acc, after) ↦ (ok acc, after)
]
