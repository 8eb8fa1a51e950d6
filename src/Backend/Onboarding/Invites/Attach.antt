-- ===== src/Backend/Onboarding/Invites/Attach.antt =====
-- What the acceptance of an invitation does to roles and grants, AcceptInviteTx of
-- backend/internal/onboarding/repo.go.
use qr_domofon.Base.{
  String, ◌≡◌, refl, sym, ◌∙◌, Bool, true, false, not, Option, none, some, List, [], ◌∷◌, inl, inr,
  arith, str_eq, if◌then◌else◌, Bool-cases, update_rows, first, ◌&&◌, any, eq_iff, filter,
}
use qr_domofon.Backend.Database.{
  RoleRow, Grant, Point, InviteRow, InvitePoint, insert_grant, has_grant,
}
use qr_domofon.Backend.Onboarding.Invites.{
  insert_extra, upsert_role_row, grant_row, same_role, is_live,
}

-- The role of a user in an apartment.
abbrev pub role_at : List RoleRow → String → String → Option String
role_at roles user_id apartment_id =
    first
      (λ (r : RoleRow).
        if str_eq r.user_id user_id && str_eq r.apartment_id apartment_id
        then some r.role
        else none)
      roles

-- What an invitation leaves of a role: an owner's makes an owner, a resident's keeps what there was.
abbrev pub raised : Option String → String → String
raised none role = role
raised (some old) role = if str_eq role "owner" then "owner" else old

role_at-update_rows :
    (roles : List RoleRow) (r : RoleRow)
    → any (same_role r) roles ≡ true
    → role_at
        (update_rows
          (same_role r)
          (λ (q : RoleRow). record q { role = if str_eq r.role "owner" then "owner" else q.role })
          roles)
        r.user_id
        r.apartment_id
      ≡ some (raised (role_at roles r.user_id r.apartment_id) r.role)
role_at-update_rows [] r h = absurd (ground arith)
role_at-update_rows (q ∷ roles) r h = elim (Bool-cases (same_role r q)) [
  | inl same ↦ rw (same, same) refl
  | inr other ↦ rw (other, other) (role_at-update_rows roles r (ground arith))
]

role_at-absent :
    (roles : List RoleRow) (r : RoleRow)
    → any (same_role r) roles ≡ false
    → role_at roles r.user_id r.apartment_id ≡ none
role_at-absent [] r h = refl
role_at-absent (q ∷ roles) r h = let later = role_at-absent roles r in ground (arith, later)

and_true : (a b : Bool) → a ≡ true → b ≡ true → (a && b) ≡ true
and_true a b h k = ground arith

pub role_at-upsert_role_row :
    (roles : List RoleRow) (r : RoleRow)
    → role_at (upsert_role_row roles r) r.user_id r.apartment_id
      ≡ some (raised (role_at roles r.user_id r.apartment_id) r.role)
unfolding upsert_role_row
role_at-upsert_role_row roles r = elim (Bool-cases (any (same_role r) roles)) [
  | inl there ↦ rw (there, upsert_role_row) (role_at-update_rows roles r there)
  | inr new ↦
      let same = (eq_iff r.user_id r.user_id).1 refl in
      let same_apartment = (eq_iff r.apartment_id r.apartment_id).1 refl in
      rw (role_at-absent roles r new, new, upsert_role_row, same, same_apartment) refl
]

-- The rows of the other users.
abbrev pub roles_of_others : String → List RoleRow → List RoleRow
roles_of_others user_id roles = filter (λ (r : RoleRow). not (str_eq r.user_id user_id)) roles

abbrev pub grants_of_others : String → List Grant → List Grant
grants_of_others user_id grants = filter (λ (g : Grant). not (str_eq g.user_id user_id)) grants

roles_of_others-update_rows :
    (roles : List RoleRow) (r : RoleRow)
    → roles_of_others r.user_id (
        update_rows
          (same_role r)
          (λ (q : RoleRow). record q { role = if str_eq r.role "owner" then "owner" else q.role })
          roles)
      ≡ roles_of_others r.user_id roles
roles_of_others-update_rows [] r = refl
roles_of_others-update_rows (q ∷ roles) r =
    let kept = roles_of_others-update_rows roles r in ground arith

pub roles_of_others-upsert :
    (roles : List RoleRow) (r : RoleRow)
    → roles_of_others r.user_id (upsert_role_row roles r) ≡ roles_of_others r.user_id roles
unfolding upsert_role_row
roles_of_others-upsert roles r =
    let kept = roles_of_others-update_rows roles r in
    let same = (eq_iff r.user_id r.user_id).1 refl in ground arith

pub grants_of_others-insert_grant :
    (grants : List Grant) (g : Grant)
    → grants_of_others g.user_id (insert_grant grants g).1 ≡ grants_of_others g.user_id grants
unfolding insert_grant
grants_of_others-insert_grant grants g =
    let same = (eq_iff g.user_id g.user_id).1 refl in ground arith

pub grants_of_others-insert_extra :
    (points : List Point) (inv : InviteRow) (user_id : String) (ips : List InvitePoint)
    (grants : List Grant)
    → grants_of_others user_id (insert_extra points inv user_id ips grants).1
      ≡ grants_of_others user_id grants
unfolding insert_extra
grants_of_others-insert_extra points inv user_id [] grants = refl
grants_of_others-insert_extra points inv user_id (ip ∷ ips) grants =
    let row = grant_row inv user_id ip.access_point_id ip.mc_id in
    let skipped = grants_of_others-insert_extra points inv user_id ips grants in
    let taken = grants_of_others-insert_extra points inv user_id ips (insert_grant grants row).1 in
    let one = grants_of_others-insert_grant grants row in
    elim (Bool-cases (str_eq ip.invite_id inv.id && is_live points ip.access_point_id)) [
      | inl due ↦ rw (due, insert_extra) (taken ∙ one)
      | inr other ↦ rw (other, insert_extra) skipped
    ]

-- A grant stays.
pub has_grant-insert_grant :
    (grants : List Grant) (g : Grant) (user_id point_id : String)
    → has_grant grants user_id point_id ≡ true
    → has_grant (insert_grant grants g).1 user_id point_id ≡ true
unfolding insert_grant
has_grant-insert_grant grants g user_id point_id h = ground arith

-- After the insertion it is there.
pub has_grant-inserted :
    (grants : List Grant) (g : Grant)
    → has_grant (insert_grant grants g).1 g.user_id g.access_point_id ≡ true
unfolding insert_grant
has_grant-inserted grants g =
    let same_user = (eq_iff g.user_id g.user_id).1 refl in
    let same_point = (eq_iff g.access_point_id g.access_point_id).1 refl in ground arith

has_grant-kept :
    (points : List Point) (inv : InviteRow) (user_id : String) (ips : List InvitePoint)
    (grants : List Grant) (point_id : String)
    → has_grant grants user_id point_id ≡ true
    → has_grant (insert_extra points inv user_id ips grants).1 user_id point_id ≡ true
unfolding insert_extra
has_grant-kept points inv user_id [] grants point_id h = h
has_grant-kept points inv user_id (ip ∷ ips) grants point_id h =
    let row = grant_row inv user_id ip.access_point_id ip.mc_id in
    elim (Bool-cases (str_eq ip.invite_id inv.id && is_live points ip.access_point_id)) [
      | inl due ↦
          rw (due, insert_extra)
            (has_grant-kept points inv user_id ips (insert_grant grants row).1 point_id
              (has_grant-insert_grant grants row user_id point_id h))
      | inr other ↦
          rw (other, insert_extra) (has_grant-kept points inv user_id ips grants point_id h)
    ]

-- The points of an invitation.
abbrev pub invites_to : List InvitePoint → String → String → Bool
invites_to ips invite_id point_id =
    any (λ (ip : InvitePoint). str_eq ip.access_point_id point_id && str_eq ip.invite_id invite_id)
      ips

pub has_grant-insert_extra :
    (points : List Point) (inv : InviteRow) (user_id : String) (ips : List InvitePoint)
    (grants : List Grant) (point_id : String)
    → is_live points point_id ≡ true
    → invites_to ips inv.id point_id ≡ true
    → has_grant (insert_extra points inv user_id ips grants).1 user_id point_id ≡ true
unfolding insert_extra
has_grant-insert_extra points inv user_id [] grants point_id live h = absurd (ground arith)
has_grant-insert_extra points inv user_id (ip ∷ ips) grants point_id live h =
    let row = grant_row inv user_id ip.access_point_id ip.mc_id in
    elim (Bool-cases (str_eq ip.access_point_id point_id && str_eq ip.invite_id inv.id)) [
      | inl here ↦
          let same = (eq_iff ip.access_point_id point_id).0 (ground arith) in
          let live' : is_live points ip.access_point_id ≡ true = rw same live in
          rw
            (
              and_true (str_eq ip.invite_id inv.id) (is_live points ip.access_point_id)
                  (ground arith) live',
              insert_extra,
            )
            (has_grant-kept points inv user_id ips (insert_grant grants row).1 point_id
              (rw (sym same) (has_grant-inserted grants row)))
      | inr other ↦
          elim (Bool-cases (str_eq ip.invite_id inv.id && is_live points ip.access_point_id)) [
            | inl due ↦
                rw (due, insert_extra)
                  (has_grant-insert_extra points inv user_id ips (insert_grant grants row).1
                    point_id live (ground arith))
            | inr skipped ↦
                rw (skipped, insert_extra)
                  (has_grant-insert_extra points inv user_id ips grants point_id live
                    (ground arith))
          ]
    ]
