-- ===== src/Backend/Auth/Service.antt =====
-- backend/internal/auth/service.go: signing in, and the renewal of a session, over the
-- accounts and the tokens. bcrypt and TOTP are external packages. An operation over the whitelist
-- answers its result, the whitelist's store, and the events that it records.
pub mod Session
pub mod Spent
pub mod Admin
use Prim.Native.String.{◌++◌}
use qr_domofon.Base.{
  ℕ, ◌+◌, ◌*◌, ◌/◌, String, Bool, true, false, not, ◌&&◌, ◌||◌, Option, none, some, List, [], ◌∷◌,
  map, str_eq, first, filter, if◌then◌else◌,
}
use qr_domofon.Base.Time.{second, minute, hour}
use qr_domofon.Backend.Httpx.{
  ApiError, new_error, unauthorized, forbidden, internal, Result, ok, err,
}
use qr_domofon.Backend.Audit.{Event, no_event, text}
use qr_domofon.Backend.Database as Tables
use qr_domofon.Backend.Database.{Database, RoleRow, is_value}
use qr_domofon.Backend.Auth.Claims.{
  ApartmentRole, Claims, ApartmentInfo, UserProfile, LoginResult, RefreshResult, is_resident,
  is_admin, is_system_admin,
}
use qr_domofon.Backend.Auth.Otp.{SendResult, send, verify}
use qr_domofon.Backend.Auth.Otp.Store.{OtpStore}
use qr_domofon.Backend.Auth.Refresh.{issue, rotate, revoke}
use qr_domofon.Backend.Auth.Refresh.Store.{RefreshKv}
use qr_domofon.Backend.Auth.Accounts.{
  Query, Env, User, coalesce, get_user_by_phone, get_user_by_id, admin_at, get_admin_by_email,
  get_roles_by_user_id, profile, me,
}
use qr_domofon.Backend.Auth.Tokens.{
  access_ttl, refresh_ttl, access_claims, refresh_claims, sign_pair, verify_access, authenticator,
  require_resident, require_admin, require_system_admin,
}

abbrev pub not_issued : ApiError
not_issued = new_error internal "failed to issue tokens"

abbrev pub unauth : ApiError
unauth = new_error unauthorized "invalid credentials"

-- AdminLogin, up to the session: the user whose every part is right.
unfoldable pub check_admin : Env → Database → String → String → String → Result User
check_admin e db email password code = elim (get_admin_by_email e db email) [
  | none ↦ err unauth
  | some u ↦
      if not (str_eq u.kind "mc_admin" || str_eq u.kind "system_admin")
        || str_eq u.password_hash ""
        || str_eq u.totp_secret ""
      then err unauth
      else if not (e.verify_password u.password_hash password)
      then err unauth
      else if not e.dev_mode && not (e.verify_totp u.totp_secret code e.now)
      then err unauth
      else ok u
]

-- Refresh, up to the whitelist: the claims of a refresh token.
unfoldable pub check_refresh : Env → String → Result Claims
check_refresh e token =
    if str_eq token ""
    then err (new_error unauthorized "missing refresh token")
    else elim (e.parse token) [
      | none ↦ err (new_error unauthorized "invalid refresh token")
      | some c ↦
          if str_eq c.type "refresh"
          then ok c
          else err (new_error unauthorized "invalid refresh token")
    ]

module _ (o : RefreshKv) where
  open o use {Kv}

  pub record Reply (A : Type 0) : Type 0 where
    pub result : Result A
    pub kv : Kv
    pub events : List Event

  abbrev failed : {A : Type 0} → Kv → ApiError → Reply A
  failed kv refused = record { result = err refused; kv = kv; events = [] }

  abbrev login_event : User → Event
  login_event u = record no_event {
    event_type = "user_login";
    actor = "user:" ++ u.id;
    management_company_id = u.mc_id;
    metadata = ("kind", text u.kind) ∷ [];
  }

  -- issueLogin, once the tokens are signed.
  unfoldable pub enlist : Env → Kv → User → List ApartmentRole → String × String → Reply LoginResult
  enlist e kv u roles (access, refresh) =
      let (stored, kv') = issue o kv e.refresh_jti u.id refresh_ttl in
      if not stored then failed kv' not_issued else record {
        result = ok (record {
          access_token = access;
          refresh_token = refresh;
          user = profile u.id u.kind roles u.mc_id;
        });
        kv = kv';
        events = login_event u ∷ [];
      }

  -- issueLogin, by its roles.
  unfoldable pub issue_with : Env → Kv → User → Option (List ApartmentRole) → Reply LoginResult
  unfolding enlist
  issue_with e kv u none = failed kv (new_error internal "failed to load user roles")
  issue_with e kv u (some roles) = elim (sign_pair e u.id u.kind roles u.mc_id) [
    | none ↦ failed kv not_issued
    | some tokens ↦ enlist e kv u roles tokens
  ]

  unfoldable pub issue_login : Env → Database → Kv → User → Reply LoginResult
  unfolding issue_with
  issue_login e db kv u = issue_with e kv u (get_roles_by_user_id e db u.id)

  unfoldable pub issue_for_user : Env → Database → Kv → String → Reply LoginResult
  unfolding issue_login
  issue_for_user e db kv user_id = elim (get_user_by_id e db user_id) [
    | none ↦ failed kv (new_error unauthorized "user not found")
    | some u ↦ issue_login e db kv u
  ]

  unfoldable pub admin_login : Env → Database → Kv → String → String → String → Reply LoginResult
  unfolding issue_login
  admin_login e db kv email password code = elim (check_admin e db email password code) [
    | err refused ↦ failed kv refused
    | ok u ↦ issue_login e db kv u
  ]

  -- OtpVerify, by what became of the code.
  unfoldable pub login_by_phone : Env → Database → Kv → String → Option ApiError → Reply LoginResult
  unfolding issue_login
  login_by_phone e db kv phone (some refused) = record {
    result = err refused;
    kv = kv;
    events = elim refused.code [
      | unauthorized ↦
          (record no_event { event_type = "otp_failed"; metadata = ("phone", text phone) ∷ [] })
          ∷ []
      | _ ↦ []
    ];
  }
  login_by_phone e db kv phone none = elim (get_user_by_phone e db phone) [
    | none ↦ failed kv (new_error unauthorized "invalid or expired code")
    | some u ↦ issue_login e db kv u
  ]

  abbrev refreshed_event : Claims → Event
  refreshed_event c = record no_event {
    event_type = "token_refreshed";
    actor = "user:" ++ c.subject;
    management_company_id = c.mc_id;
  }

  -- Refresh, once the new pair is signed.
  unfoldable pub exchange : Env → Kv → Claims → String × String → Reply RefreshResult
  exchange e kv c (access, refresh) =
      let (failure, kv') = rotate o kv c.jti e.refresh_jti c.subject refresh_ttl in
      elim failure [
        | some _ ↦ failed kv' (new_error unauthorized "refresh token is no longer valid")
        | none ↦ record {
          result = ok (record { access_token = access; refresh_token = refresh });
          kv = kv';
          events = refreshed_event c ∷ [];
        }
      ]

  -- Refresh, for the claims of the token.
  unfoldable pub renew : Env → Kv → Claims → Reply RefreshResult
  unfolding exchange
  renew e kv c = elim (sign_pair e c.subject c.kind c.roles c.mc_id) [
    | none ↦ failed kv not_issued
    | some tokens ↦ exchange e kv c tokens
  ]

  unfoldable pub refresh : Env → Kv → String → Reply RefreshResult
  unfolding renew
  refresh e kv token = elim (check_refresh e token) [
    | err refused ↦ failed kv refused
    | ok c ↦ renew e kv c
  ]

  -- A failure of the whitelist is logged only.
  unfoldable pub logout : Env → Kv → String → Kv
  logout e kv token =
      if str_eq token ""
      then kv
      else elim (e.parse token) [ none ↦ kv | some c ↦ (revoke o kv c.jti).1 ]

module _ (p : OtpStore) (o : RefreshKv) where
  open p use {Store}
  open o use {Kv}

  unfoldable pub otp_verify :
      Env → Database → Store → Kv → String → List ℕ → Reply o LoginResult × Store
  unfolding login_by_phone
  otp_verify e db s kv phone code =
      let (answer, s') = verify p s phone code e.now in (login_by_phone o e db kv phone answer, s')

abbrev without_code : Env → Result SendResult → Result SendResult
without_code e (err refused) = err refused
without_code e (ok r) = ok (if e.dev_mode then r else record r { dev_code = [] })

module _ (p : OtpStore) where
  open p use {Store}

  unfoldable pub otp_send :
      Env
      → (ℕ → Option (List ℕ))
      → (String → List ℕ → Option (List ℕ))
      → Store
      → String
      → Result SendResult × Store
  otp_send e random sender s phone =
      let (answer, s') = send p random sender s phone e.now in (without_code e answer, s')
