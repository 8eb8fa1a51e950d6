-- ===== src/Backend/Onboarding/Invites/Attachment.antt =====
-- Roles and grants after the acceptance of an invitation, AcceptInviteTx of
-- backend/internal/onboarding/repo.go.
use mathlib.Core.Path.{subst}
use qr_domofon.Base.{
  ℕ, String, ◌≡◌, refl, ap, ◌∙◌, Bool, true, false, Option, some, inl, inr, arith, str_eq,
  Bool-cases, Option-cases,
}
use qr_domofon.Backend.Httpx.{Result, ok, bind-ok, ◌>>=◌, ◌>>◌, then-ok, attempt}
use qr_domofon.Backend.Database.{InviteRow, Database, insert_grant, has_grant}
use qr_domofon.Backend.Onboarding.Invitations.{Env, grant_points}
use qr_domofon.Backend.Onboarding.Invites.{
  Attached, attach, attach_role, attach_point, insert_extra, upsert_role_row, role_row, grant_row,
  is_apartment_kind, is_live,
}
use qr_domofon.Backend.Onboarding.Invites.Attach.{
  role_at, raised, roles_of_others, grants_of_others, invites_to, role_at-upsert_role_row,
  roles_of_others-upsert, grants_of_others-insert_grant, grants_of_others-insert_extra,
  has_grant-inserted, has_grant-insert_extra,
}

-- What an attachment keeps, and what it gives.
pub record Attachment (db after : Database) (inv : InviteRow) (user_id : String) : Type 0 where
  pub users : after.users ≡ db.users
  pub invites : after.invites ≡ db.invites
  pub points : after.points ≡ db.points
  pub other_roles : roles_of_others user_id after.roles ≡ roles_of_others user_id db.roles
  pub other_grants : grants_of_others user_id after.grants ≡ grants_of_others user_id db.grants
  pub role_lem :
      (apartment_id role : String)
      → is_apartment_kind inv.target_kind ≡ true
      → inv.apartment_id ≡ some apartment_id
      → inv.role ≡ some role
      → role_at after.roles user_id apartment_id
        ≡ some (raised (role_at db.roles user_id apartment_id) role)
  pub point_lem :
      (point_id : String)
      → is_apartment_kind inv.target_kind ≡ false
      → inv.access_point_id ≡ some point_id
      → has_grant after.grants user_id point_id ≡ true
  pub extra_lem :
      (point_id : String)
      → is_apartment_kind inv.target_kind ≡ true
      → is_live db.points point_id ≡ true
      → invites_to db.invite_points inv.id point_id ≡ true
      → has_grant after.grants user_id point_id ≡ true

attach_role-ok :
    (e : Env) (db after : Database) (inv : InviteRow) (user_id : String)
    → attach_role e db inv user_id ≡ ok after
    → (apartment_id : String) × (role : String) × (inv.apartment_id ≡ some apartment_id)
      × (inv.role ≡ some role)
      × (record db { roles = upsert_role_row db.roles (role_row inv user_id apartment_id role) }
          ≡ after)
unfolding attach_role
attach_role-ok e db after inv user_id h = elim (Option-cases inv.apartment_id) [
  | inl missing ↦ absurd (ground arith)
  | inr (apartment_id, a) ↦ elim (Option-cases inv.role) [
    | inl missing ↦ absurd (ground arith)
    | inr (role, r) ↦ (apartment_id, role, a, r, ground arith)
  ]
]

attach_point-ok :
    (e : Env) (db after : Database) (inv : InviteRow) (user_id : String)
    → attach_point e db inv user_id ≡ ok after
    → (point_id : String) × (inv.access_point_id ≡ some point_id)
      × (record db {
        grants = (insert_grant db.grants (grant_row inv user_id point_id inv.mc_id)).1;
      }
          ≡ after)
unfolding attach_point
attach_point-ok e db after inv user_id h = elim (Option-cases inv.access_point_id) [
  | inl missing ↦ absurd (ground arith)
  | inr (point_id, p) ↦ (point_id, p, ground arith)
]

some-injective : (a b : String) (o : Option String) → o ≡ some a → o ≡ some b → a ≡ b
some-injective a b o h k = ground arith

db_lem :
    (d : Database) (n : ℕ) (a : Attached)
    → ◌≡◌ {A = Result Attached} (ok (record { db = d; granted_points = n })) (ok a)
    → d ≡ a.db
db_lem d n a h = ground arith

not_both : {b : Bool} → b ≡ true → b ≡ false → ⊥
not_both h k = ground arith

point-Attachment :
    (db : Database) (inv : InviteRow) (user_id point_id : String)
    → is_apartment_kind inv.target_kind ≡ false
    → inv.access_point_id ≡ some point_id
    → Attachment db
        (record db {
          grants = (insert_grant db.grants (grant_row inv user_id point_id inv.mc_id)).1;
        })
        inv
        user_id
point-Attachment db inv user_id point_id kind p = record {
  users = refl;
  invites = refl;
  points = refl;
  other_roles = refl;
  other_grants = grants_of_others-insert_grant db.grants (grant_row inv user_id point_id inv.mc_id);
  role_lem = λ apartment_id role k a r. absurd (not_both k kind);
  point_lem = λ q k h.
      rw (← some-injective point_id q inv.access_point_id p h)
        (has_grant-inserted db.grants (grant_row inv user_id point_id inv.mc_id));
  extra_lem = λ q k live there. absurd (not_both k kind);
}

apartment-Attachment :
    (db : Database) (inv : InviteRow) (user_id apartment_id role : String)
    → is_apartment_kind inv.target_kind ≡ true
    → inv.apartment_id ≡ some apartment_id
    → inv.role ≡ some role
    → Attachment db
        (record db {
          roles = upsert_role_row db.roles (role_row inv user_id apartment_id role);
          grants = (insert_extra db.points inv user_id db.invite_points db.grants).1;
        })
        inv
        user_id
apartment-Attachment db inv user_id apartment_id role kind a r = record {
  users = refl;
  invites = refl;
  points = refl;
  other_roles = roles_of_others-upsert db.roles (role_row inv user_id apartment_id role);
  other_grants = grants_of_others-insert_extra db.points inv user_id db.invite_points db.grants;
  role_lem = λ a' r' k h h'.
      rw
        (
          ← some-injective apartment_id a' inv.apartment_id a h,
          ← some-injective role r' inv.role r h',
        )
        (role_at-upsert_role_row db.roles (role_row inv user_id apartment_id role));
  point_lem = λ q k h. absurd (not_both kind k);
  extra_lem = λ q k live there.
      has_grant-insert_extra db.points inv user_id db.invite_points db.grants q live there;
}

attach-apartment :
    (e : Env) (db : Database) (inv : InviteRow) (user_id : String) (attached : Attached)
    → is_apartment_kind inv.target_kind ≡ true
    → attach e db inv user_id ≡ ok attached
    → Attachment db attached.db inv user_id
unfolding attach
attach-apartment e db inv user_id attached kind h =
    let (after, step, h1) = bind-ok (attach_role e db inv user_id) _ _ split in
    let (apartment_id, role, a, r, same) = attach_role-ok e db after inv user_id step in
    let h2 = then-ok (attempt (e.fails grant_points)) _ _ h1 in
    subst (λ d. Attachment db d inv user_id)
      (ap
          (λ (d : Database). record d {
            grants = (insert_extra d.points inv user_id d.invite_points d.grants).1;
          })
          same
        ∙ db_lem _ _ attached h2)
      (apartment-Attachment db inv user_id apartment_id role kind a r)
  where
    split :
        (attach_role e db inv user_id >>= (λ after.
          let extra = insert_extra after.points inv user_id after.invite_points after.grants in
          attempt (e.fails grant_points)
          >> (ok (record { db = record after { grants = extra.1 }; granted_points = extra.0 }))))
        ≡ ok attached
    split = ground arith

attach-point :
    (e : Env) (db : Database) (inv : InviteRow) (user_id : String) (attached : Attached)
    → is_apartment_kind inv.target_kind ≡ false
    → attach e db inv user_id ≡ ok attached
    → Attachment db attached.db inv user_id
unfolding attach
attach-point e db inv user_id attached kind h =
    elim (Bool-cases (str_eq inv.target_kind "access_grant")) [
      | inr unknown ↦ absurd (ground arith)
      | inl grant ↦
          let (after, step, done) = bind-ok (attach_point e db inv user_id) _ _ (split grant h) in
          let (point_id, p, same) = attach_point-ok e db after inv user_id step in
          subst (λ d. Attachment db d inv user_id) (same ∙ db_lem after 0 attached done)
            (point-Attachment db inv user_id point_id kind p)
    ]
  where
    split :
        str_eq inv.target_kind "access_grant" ≡ true
        → attach e db inv user_id ≡ ok attached
        → (attach_point e db inv user_id
            >>= (λ after. ok (record { db = after; granted_points = 0 })))
          ≡ ok attached
    split g k = ground arith

pub attach-Attachment :
    (e : Env) (db : Database) (inv : InviteRow) (user_id : String) (attached : Attached)
    → attach e db inv user_id ≡ ok attached
    → Attachment db attached.db inv user_id
attach-Attachment e db inv user_id attached h =
    elim (Bool-cases (is_apartment_kind inv.target_kind)) [
      | inl kind ↦ attach-apartment e db inv user_id attached kind h
      | inr kind ↦ attach-point e db inv user_id attached kind h
    ]
