-- ===== src/Backend/Auth/Service/Admin.antt =====
-- Who gets a session, AdminLogin and OtpVerify of backend/internal/auth/service.go.
use qr_domofon.Base.{
  ℕ, String, ◌≡◌, true, false, ◌||◌, none, some, List, inl, inr, arith, str_eq, Option,
  Option-cases, refl, Member, first-Member,
}
use qr_domofon.Backend.Httpx.{ok, Result-cases}
use qr_domofon.Backend.Database as Tables
use qr_domofon.Backend.Database.{Database, is_value}
use qr_domofon.Backend.Auth.Claims.{LoginResult, ApartmentRole}
use qr_domofon.Backend.Auth.Otp.{verify}
use qr_domofon.Backend.Auth.Otp.Store.{OtpStore}
use qr_domofon.Backend.Auth.Refresh.Store.{RefreshKv}
use qr_domofon.Backend.Auth.Accounts.{
  Env, User, coalesce, admin_at, get_admin_by_email, get_user_by_phone, get_roles_by_user_id,
  profile,
}
use qr_domofon.Backend.Auth.Tokens.{access_claims, refresh_claims, sign_pair}
use mathlib.Core.Path.{subst}
use qr_domofon.Backend.Auth.Service.{
  issue_login, issue_with, enlist, check_admin, admin_login, login_by_phone, otp_verify,
}

-- The session of an account: its two tokens and its profile, with the roles of the table.
pub record SessionOf (e : Env) (db : Database) (id kind mc_id : String) (res : LoginResult)
    : Type 0 where
  pub roles : List ApartmentRole
  pub roles_lem : get_roles_by_user_id e db id ≡ some roles
  pub access_lem : e.sign (access_claims e id kind roles mc_id) ≡ some res.access_token
  pub refresh_lem : e.sign (refresh_claims e id kind roles mc_id) ≡ some res.refresh_token
  pub user_lem : res.user ≡ profile id kind roles mc_id

-- The account that a session is of, of which every part was right.
pub record Verified (e : Env) (db : Database) (email password code : String) (res : LoginResult)
    : Type 0 where
  pub row : Tables.User
  pub session : SessionOf e db row.id row.kind (coalesce row.mc_id) res
  pub stored : Member row db.users
  pub email_lem : is_value row.email email ≡ true
  pub kind : (str_eq row.kind "mc_admin" || str_eq row.kind "system_admin") ≡ true
  pub hashed : str_eq (coalesce row.password_hash) "" ≡ false
  pub enrolled : str_eq (coalesce row.totp_secret) "" ≡ false
  pub password_lem : e.verify_password (coalesce row.password_hash) password ≡ true
  pub second_factor : (e.dev_mode || e.verify_totp (coalesce row.totp_secret) code e.now) ≡ true

admin_row :
    (e : Env) (db : Database) (email : String) (u : User)
    → get_admin_by_email e db email ≡ some u
    → (row : Tables.User) × Member row db.users × (admin_at email row ≡ some u)
unfolding get_admin_by_email
admin_row e db email u h = first-Member (admin_at email) db.users u (ground arith)

row-SessionOf :
    (e : Env) (db : Database) (email : String) (row : Tables.User) (v u : User) (res : LoginResult)
    → admin_at email row ≡ some v
    → v ≡ u
    → SessionOf e db u.id u.kind u.mc_id res
    → SessionOf e db row.id row.kind (coalesce row.mc_id) res
row-SessionOf e db email row v u res here same session =
    let for_id : u.id ≡ row.id = ground arith in
    let for_kind : u.kind ≡ row.kind = ground arith in
    let for_company : u.mc_id ≡ coalesce row.mc_id = ground arith in
    subst (λ m. SessionOf e db row.id row.kind m res) for_company
      (subst (λ k. SessionOf e db row.id k u.mc_id res) for_kind
        (subst (λ i. SessionOf e db i u.kind u.mc_id res) for_id session))

issue_with-SessionOf :
    (o : RefreshKv) (e : Env) (db : Database) (kv : o.Kv) (u : User)
    (found : Option (List ApartmentRole)) (res : LoginResult)
    → get_roles_by_user_id e db u.id ≡ found
    → (issue_with o e kv u found).result ≡ ok res
    → SessionOf e db u.id u.kind u.mc_id res
unfolding issue_with sign_pair enlist
issue_with-SessionOf o e db kv u none res there h = absurd (ground arith)
issue_with-SessionOf o e db kv u (some roles) res there h = record {
  roles = roles;
  roles_lem = there;
  access_lem = ground arith;
  refresh_lem = ground arith;
  user_lem = ground arith;
}

issue_login-SessionOf :
    (o : RefreshKv) (e : Env) (db : Database) (kv : o.Kv) (u : User) (res : LoginResult)
    → (issue_login o e db kv u).result ≡ ok res
    → SessionOf e db u.id u.kind u.mc_id res
unfolding issue_login
issue_login-SessionOf o e db kv u res h =
    issue_with-SessionOf o e db kv u (get_roles_by_user_id e db u.id) res refl h

check_admin-Verified :
    (e : Env) (db : Database) (email password code : String) (u : User) (res : LoginResult)
    → check_admin e db email password code ≡ ok u
    → SessionOf e db u.id u.kind u.mc_id res
    → Verified e db email password code res
unfolding check_admin
check_admin-Verified e db email password code u res h session =
    elim (Option-cases (get_admin_by_email e db email)) [
      | inl missing ↦ absurd (ground arith)
      | inr (v, found) ↦
          let (row, stored, here) = admin_row e db email v found in
          record {
            row = row;
            session = row-SessionOf e db email row v u res here (ground arith) session;
            stored = stored;
            email_lem = ground arith;
            kind = ground arith;
            hashed = ground arith;
            enrolled = ground arith;
            password_lem = ground arith;
            second_factor = ground arith;
          }
    ]

-- AdminLogin opens a session only of an account of an admin of a company or of the platform that
-- the e-mail, the password and, outside the development mode, the second factor all fit: its
-- tokens are signed for that account's id, kind, company and roles, and its profile is that
-- account's.
pub admin_login-Verified :
    (o : RefreshKv) (e : Env) (db : Database) (kv : o.Kv) (email password code : String)
    (res : LoginResult)
    → (admin_login o e db kv email password code).result ≡ ok res
    → Verified e db email password code res
unfolding admin_login
admin_login-Verified o e db kv email password code res h =
    elim (Result-cases (check_admin e db email password code)) [
      | inl (refused, stopped) ↦ absurd (ground arith)
      | inr (u, passed) ↦
          check_admin-Verified e db email password code u res passed
            (issue_login-SessionOf o e db kv u res (rw (passed, admin_login) at h))
    ]

-- OtpVerify opens a session only for a phone whose code was accepted and that a user has.
pub otp_verify-session :
    (p : OtpStore) (o : RefreshKv) (e : Env) (db : Database) (s : p.Store) (kv : o.Kv)
    (phone : String) (code : List ℕ) (res : LoginResult)
    → (otp_verify p o e db s kv phone code).0.result ≡ ok res
    → ((verify p s phone code e.now).0 ≡ none)
      × ((u : User) × (get_user_by_phone e db phone ≡ some u))
unfolding otp_verify login_by_phone
otp_verify-session p o e db s kv phone code res h =
    elim (Option-cases ((verify p s phone code e.now).0)) [
      | inr (refused, stopped) ↦ absurd (ground arith)
      | inl accepted ↦ elim (Option-cases (get_user_by_phone e db phone)) [
        | inl missing ↦ absurd (ground arith)
        | inr (u, found) ↦ (accepted, (u, found))
      ]
    ]
