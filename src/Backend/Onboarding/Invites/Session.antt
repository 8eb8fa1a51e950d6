-- ===== src/Backend/Onboarding/Invites/Session.antt =====
-- For whom an invitation works, AcceptInviteTx of backend/internal/onboarding/repo.go.
use mathlib.Core.Path.{subst}
use qr_domofon.Base.{ℕ, ◌≤◌, String, ◌≡◌, sym, ap, ◌∙◌, true, false, Option, none, some, arith}
use qr_domofon.Backend.Httpx.{ok}
use qr_domofon.Backend.Database.{InviteRow, Database, has_grant}
use qr_domofon.Backend.Onboarding.Invitations.{Env, find_invite, validate_invite, target_phone}
use qr_domofon.Backend.Onboarding.Invites.{Accepted, accept_invite_tx, is_live, is_apartment_kind}
use qr_domofon.Backend.Onboarding.Recipients.{arrived}
use qr_domofon.Backend.Onboarding.Invites.Place.{
  Owner, place_user-Owner, admins, admins-place_user, admins-fill_name,
}
use qr_domofon.Backend.Onboarding.Invites.Holder.{Holds, fill_name-Holds, place_user-Holds}
use qr_domofon.Backend.Onboarding.Invites.Accept.{Trace, accept-Trace}
use qr_domofon.Backend.Onboarding.Invites.Attach.{
  role_at, raised, roles_of_others, grants_of_others, invites_to,
}
use qr_domofon.Backend.Onboarding.Invites.Attachment.{attach-Attachment}

-- The invitation that was accepted, and the user that it was for.
pub record NoEscalation (e : Env) (db : Database) (token_hash : String) (now : ℕ) (acc : Accepted)
    (after : Database) : Type 0 where
  pub inv : InviteRow
  pub found : find_invite db.invites token_hash ≡ some inv
  pub unused : inv.used_at ≡ none
  pub in_time : now ≤ inv.expires_at
  pub phone : String
  pub target : inv.phone ≡ some phone
  pub owner : Owner e db.users phone acc.user_id acc.created
  pub row : Holds acc.user_id phone after.users
  pub admins_lem : admins after.users ≡ admins (arrived e db.users)

valid_lem :
    (inv : InviteRow) (now : ℕ)
    → validate_invite inv now ≡ none
    → (inv.used_at ≡ none) × (now ≤ inv.expires_at)
unfolding validate_invite
valid_lem inv now h = (ground arith, ground arith)

phone_lem : (o : Option String) (phone : String) → target_phone o ≡ ok phone → o ≡ some phone
phone_lem o phone h = ground arith

after_users :
    (e : Env) (db : Database) (token_hash : String) (now : ℕ) (acc : Accepted) (after : Database)
    (t : Trace e db token_hash now acc after)
    → admins after.users ≡ admins t.users
after_users e db token_hash now acc after t =
    ap (λ (d : Database). admins d.users) (sym t.result)
    ∙ ap admins (attach-Attachment e _ t.inv t.placed.user_id t.attached t.attach_lem).users

kept_row :
    (e : Env) (db : Database) (token_hash : String) (now : ℕ) (acc : Accepted) (after : Database)
    (t : Trace e db token_hash now acc after)
    → Holds acc.user_id t.phone after.users
kept_row e db token_hash now acc after t =
    let named =
      fill_name-Holds e t.placed.users t.users t.inv.full_name t.placed.user_id t.placed.user_id
        t.phone t.named (place_user-Holds e db.users t.inv.target_kind t.phone t.placed t.place) in
    let users = (attach-Attachment e _ t.inv t.placed.user_id t.attached t.attach_lem).users in
    let there : t.users ≡ after.users = sym users ∙ ap (λ (d : Database). d.users) t.result in
    subst (λ (a : Accepted). Holds a.user_id t.phone after.users) t.account
      (subst (Holds t.placed.user_id t.phone) there named)

-- An acceptance that succeeds is of an unused invitation in its time, for the user of its phone:
-- a user that was there, who is no admin, and then no session is due; or one that it makes, since
-- nobody had the phone. Afterwards the table has a row of that user with that phone, which is no
-- admin's. The acceptance makes no admin, and changes none but for the name; the admins that
-- another transaction adds meanwhile stay.
pub accept-NoEscalation :
    (e : Env) (db : Database) (token_hash : String) (now : ℕ) (acc : Accepted)
    → (accept_invite_tx e db token_hash now).0 ≡ ok acc
    → NoEscalation e db token_hash now acc (accept_invite_tx e db token_hash now).1
accept-NoEscalation e db token_hash now acc h =
    let t = accept-Trace e db token_hash now acc h in
    let valid = valid_lem t.inv now t.valid in
    record {
      inv = t.inv;
      found = t.found;
      unused = valid.0;
      in_time = valid.1;
      phone = t.phone;
      target = phone_lem t.inv.phone t.phone t.target;
      owner =
          subst (λ (a : Accepted). Owner e db.users t.phone a.user_id a.created) t.account
            (place_user-Owner e db.users t.inv.target_kind t.phone t.placed t.place);
      row = kept_row e db token_hash now acc _ t;
      admins_lem =
          after_users e db token_hash now acc _ t
          ∙ admins-fill_name e t.placed.users t.users t.inv.full_name t.placed.user_id t.named
          ∙ admins-place_user e db.users t.inv.target_kind t.phone t.placed t.place;
    }

-- What an acceptance gives, and to whom.
pub record Given (db : Database) (token_hash : String) (acc : Accepted) (after : Database)
    : Type 0 where
  pub inv : InviteRow
  pub found : find_invite db.invites token_hash ≡ some inv
  pub other_roles : roles_of_others acc.user_id after.roles ≡ roles_of_others acc.user_id db.roles
  pub other_grants :
      grants_of_others acc.user_id after.grants ≡ grants_of_others acc.user_id db.grants
  pub role_lem :
      (apartment_id role : String)
      → is_apartment_kind inv.target_kind ≡ true
      → inv.apartment_id ≡ some apartment_id
      → inv.role ≡ some role
      → role_at after.roles acc.user_id apartment_id
        ≡ some (raised (role_at db.roles acc.user_id apartment_id) role)
  pub point_lem :
      (point_id : String)
      → is_apartment_kind inv.target_kind ≡ false
      → inv.access_point_id ≡ some point_id
      → has_grant after.grants acc.user_id point_id ≡ true
  pub extra_lem :
      (point_id : String)
      → is_apartment_kind inv.target_kind ≡ true
      → is_live db.points point_id ≡ true
      → invites_to db.invite_points inv.id point_id ≡ true
      → has_grant after.grants acc.user_id point_id ≡ true

-- An acceptance that succeeds gives its user what the invitation says: in an apartment the role,
-- by which an owner is made and no owner is unmade, and the grants for its active extra points;
-- or the grant for its point. The roles and grants of other users stay.
pub accept-Given :
    (e : Env) (db : Database) (token_hash : String) (now : ℕ) (acc : Accepted)
    → (accept_invite_tx e db token_hash now).0 ≡ ok acc
    → Given db token_hash acc (accept_invite_tx e db token_hash now).1
accept-Given e db token_hash now acc h =
    let t = accept-Trace e db token_hash now acc h in
    let a = attach-Attachment e _ t.inv t.placed.user_id t.attached t.attach_lem in
    subst (λ (d : Database). Given db token_hash acc d) t.result
      (subst
        (λ (b : Accepted). Given db token_hash b (record t.attached.db { invites = t.invites }))
        t.account
        (record {
          inv = t.inv;
          found = t.found;
          other_roles = a.other_roles;
          other_grants = a.other_grants;
          role_lem = a.role_lem;
          point_lem = a.point_lem;
          extra_lem = a.extra_lem;
        }))
