-- ===== src/Backend/Tests/Sessions.antt =====
-- Runs of the sign-in, backend/internal/auth/service.go, and of the messages of devices.
use mathlib.Core.Path.{subst}
use qr_domofon.Base.{
  All, String, ◌≡◌, ◌≢◌, refl, sym, ◌∙◌, ap, true, false, Option, none, some, List, [], ◌∷◌, arith,
  str_eq, eq_iff, if◌then◌else◌,
}
use qr_domofon.Backend.Httpx.{ok}
use qr_domofon.Backend.Auth.Claims.{ApartmentRole, Claims, LoginResult, RefreshResult}
use qr_domofon.Backend.Auth.Accounts.{Env, User, get_roles_by_user_id, profile, get_admin_by_email}
use qr_domofon.Backend.Auth.Tokens.{access_claims, refresh_claims, sign_pair}
use qr_domofon.Backend.Auth.Service.{issue_login, admin_login, refresh, check_admin, check_refresh}
use qr_domofon.Backend.Auth.Refresh.{issue, rotate, refresh_key}
use mathlib.Core.Option.{some-injective}
use qr_domofon.Backend.Tests.Calls.{redis, answers}
use qr_domofon.Backend.Devices as Devices
use qr_domofon.Backend.Devices.{
  Effect, record_event, ack_event, with_context, save_context, handle_ack, AckMessage,
}
use qr_domofon.Backend.Devices.Correlation.{Correlates, save_context-handle_ack, handle_all}
use qr_domofon.Backend.Audit.{Event}
use qr_domofon.Backend.Auth.Service.Session.{Keys, Reads, Signed, issue_login-Signed, login-refresh}
use qr_domofon.Backend.Auth.Service.Spent.{
  Action, log_in, renewal, log_out, Avoids, run, refresh_once,
}
use qr_domofon.Backend.Auth.Service.Admin.{Verified, admin_login-Verified}
use qr_domofon.Backend.Tests.{kv_store, kv_answers, tokens}
use qr_domofon.Backend.Tests.Tables.{tables}

abbrev owner_roles : List ApartmentRole
owner_roles = (record { apartment_id = "a1"; role = "owner"; can_create_guests = false }) ∷ []

-- A token is its type; the claims that it is read as are those of the owner.
abbrev read : Claims → Claims → String → Option Claims
read access second token =
    if str_eq token "access"
    then some access
    else if str_eq token "refresh"
    then some second
    else none

abbrev claims_of : String → Claims
claims_of type = record {
  subject = "u1";
  kind = "owner";
  roles = owner_roles;
  mc_id = "";
  jti = if str_eq type "access" then "ja" else "jr";
  issued_at = 0;
  expires_at = if str_eq type "access" then 900 else 2592000;
  type = type;
}

abbrev service : Env
service = record {
  fails = λ _. false;
  by_apartment = λ rs. rs;
  sign = λ c. some c.type;
  parse = read (claims_of "access") (claims_of "refresh");
  verify_password = λ _ _. true;
  verify_totp = λ _ _ _. true;
  access_jti = "ja";
  refresh_jti = "jr";
  dev_mode = false;
  now = 0;
}

abbrev later : Env
later = record service { access_jti = "ja2"; refresh_jti = "jr2"; now = 5 }

abbrev signing_in : User
signing_in = record {
  id = "u1";
  phone = "+79990000001";
  email = "";
  password_hash = "";
  totp_secret = "";
  kind = "owner";
  mc_id = "";
}

abbrev signed_in : LoginResult
signed_in = record {
  access_token = "access";
  refresh_token = "refresh";
  user = profile "u1" "owner" owner_roles "";
}

roles_lem : get_roles_by_user_id service tables "u1" ≡ some owner_roles
unfolding get_roles_by_user_id
roles_lem = refl

issued_lem : (issue_login kv_store service tables tokens signing_in).result ≡ ok signed_in
unfolding issue_login get_roles_by_user_id sign_pair issue
issued_lem = refl

keys_lem : Keys service signing_in (get_roles_by_user_id service tables "u1")
keys_lem roles h =
    let same = some-injective _ _ (sym roles_lem ∙ h) in
    subst
      (λ rs.
        Reads service (access_claims service "u1" "owner" rs "")
        × Reads service (refresh_claims service "u1" "owner" rs ""))
      same
      (
        λ token signed. ap service.parse (sym (some-injective _ _ signed)) ∙ refl,
        λ token signed. ap service.parse (sym (some-injective _ _ signed)) ∙ refl,
      )

issue_login-Signed_example :
    Signed kv_store kv_answers service signing_in signed_in
      (issue_login kv_store service tables tokens signing_in).kv
issue_login-Signed_example =
    issue_login-Signed kv_store kv_answers service tables tokens signing_in signed_in keys_lem
      issued_lem

refresh_not_empty : signed_in.refresh_token ≢ ""
refresh_not_empty h = ground (arith, eq_iff "refresh" "")

login-refresh_example :
    (next : RefreshResult) × ((refresh kv_store later
        (issue_login kv_store service tables tokens signing_in).kv
        "refresh").result
      ≡ ok next)
unfolding sign_pair
login-refresh_example =
    login-refresh kv_store kv_answers service later tables tokens signing_in signed_in keys_lem refl
      refresh_not_empty (λ c. (("access", "refresh"), refl)) issued_lem

abbrev renewed : RefreshResult
renewed = record { access_token = "access"; refresh_token = "refresh" }

-- A whitelist with the token of the owner.
abbrev listed : String → Option String
listed k = if str_eq k (refresh_key "jr") then some "u1" else none

refreshed_lem : (refresh kv_store later listed "refresh").result ≡ ok renewed
unfolding refresh sign_pair rotate check_refresh
refreshed_lem = refl

abbrev third : Env
third = record service { refresh_jti = "jr3" }

abbrev in_between : List Action
in_between = log_in third tables signing_in ∷ log_out later "access" ∷ renewal third "refresh" ∷ []

fresh_lem :
    (c : Claims) → later.parse "refresh" ≡ some c → ("jr2" ≢ c.jti) × All (Avoids c.jti) in_between
fresh_lem c h =
    let same = ap (λ (d : Claims). d.jti) (some-injective _ _ h) in
    subst (λ jti. ("jr2" ≢ jti) × All (Avoids jti) in_between) same
      (
        λ k. ground (arith, eq_iff "jr2" "jr"),
        (
          (λ k. ground (arith, eq_iff "jr3" "jr")),
          (tt, ((λ k. ground (arith, eq_iff "jr3" "jr")), tt)),
        ),
      )

refresh_once_example :
    (refresh kv_store later
      (run kv_store in_between (refresh kv_store later listed "refresh").kv)
      "refresh").result
    ≢ ok renewed
refresh_once_example =
    refresh_once kv_store kv_answers later later listed "refresh" in_between renewed renewed refl
      fresh_lem refreshed_lem

abbrev admin_signed_in : LoginResult
admin_signed_in = record {
  access_token = "access";
  refresh_token = "refresh";
  user = profile "adm" "mc_admin" [] "m1";
}

admin_lem :
    (admin_login kv_store service tables tokens "a@b" "secret" "123456").result ≡ ok admin_signed_in
unfolding admin_login get_admin_by_email get_roles_by_user_id sign_pair issue check_admin
admin_lem = refl

admin_login-Verified_example : Verified service tables "a@b" "secret" "123456" admin_signed_in
admin_login-Verified_example =
    admin_login-Verified kv_store service tables tokens "a@b" "secret" "123456" admin_signed_in
      admin_lem

abbrev ack : AckMessage
ack = record { request_id = "r1"; result = "accepted"; reason = ""; duplicate = false }

abbrev context : List (String × String)
context = ("call_id", "c1") ∷ ("apartment_id", "a1") ∷ []

abbrev messages : Devices.Env
messages = record {
  message_type = λ m. some m;
  read_ack = λ m. some ack;
  read_event = λ m. none;
  context_of = λ d. none;
  encode_context = λ m. "c1";
  decode_context = λ s. some context;
}

save_context-handle_ack_example :
    (ev : Event) × (handle_ack redis messages
        (handle_all redis messages
          (save_context redis messages (λ _. none) "r1" context).1
          (("devices/d2/status", "heartbeat") ∷ []))
        "d1"
        "command_ack"
      ≡ record_event ev ∷ [])
    × Correlates "d1" ack context ev
save_context-handle_ack_example =
    save_context-handle_ack redis answers messages (λ _. none) context
      (("devices/d2/status", "heartbeat") ∷ []) "d1" "command_ack" ack refl refl
