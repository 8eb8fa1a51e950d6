-- ===== src/Backend/Auth/Service/Session.antt =====
-- Sessions: what a login and the renewal of one leave, issueLogin and Refresh of
-- backend/internal/auth/service.go.
use mathlib.Core.Path.{subst}
use qr_domofon.Base.{
  String, ◌≡◌, ◌≢◌, refl, sym, ◌∙◌, true, false, Option, none, some, List, inl, inr, arith, str_eq,
  Bool-cases, Option-cases, eq_iff,
}
use qr_domofon.Backend.Httpx.{ok, Result-cases}
use qr_domofon.Backend.Database.{Database}
use qr_domofon.Backend.Auth.Claims.{ApartmentRole, Claims, LoginResult, RefreshResult}
use qr_domofon.Backend.Auth.Refresh.{issue, rotate, refresh_key}
use qr_domofon.Backend.Auth.Refresh.Store.{RefreshKv, Answers}
use qr_domofon.Backend.Auth.Refresh.Sequential.{holder, rotate_lem}
use qr_domofon.Backend.Auth.Accounts.{Env, User, me, get_roles_by_user_id}
use qr_domofon.Backend.Auth.Tokens.{
  sign_pair, access_claims, refresh_claims, verify_access, refresh_ttl,
}
use qr_domofon.Backend.Auth.Service.{
  check_refresh, enlist, issue_with, issue_login, exchange, renew, refresh,
}

-- The token that claims are signed to is read back.
abbrev pub Reads : Env → Claims → Type 0
Reads e c = (token : String) → e.sign c ≡ some token → e.parse token ≡ some c

-- So are both tokens of a user, with the user's roles.
abbrev pub Keys : Env → User → Option (List ApartmentRole) → Type 0
Keys e u found =
    (roles : List ApartmentRole)
    → found ≡ some roles
    → Reads e (access_claims e u.id u.kind roles u.mc_id)
      × Reads e (refresh_claims e u.id u.kind roles u.mc_id)

sign_pair-signs :
    (e : Env) (user_id kind mc_id : String) (roles : List ApartmentRole) (access refresh : String)
    → sign_pair e user_id kind roles mc_id ≡ some (access, refresh)
    → (e.sign (access_claims e user_id kind roles mc_id) ≡ some access)
      × (e.sign (refresh_claims e user_id kind roles mc_id) ≡ some refresh)
unfolding sign_pair
sign_pair-signs e user_id kind mc_id roles access refresh h = (ground arith, ground arith)

verify_access-type :
    (e : Env) (token : String) (c : Claims)
    → e.parse token ≡ some c
    → (str_eq c.type "access" ≡ true → verify_access e token ≡ some c)
      × (str_eq c.type "access" ≡ false → verify_access e token ≡ none)
unfolding verify_access
verify_access-type e token c h = (λ k. ground arith, λ k. ground arith)

check_refresh-type :
    (e : Env) (token : String) (c d : Claims)
    → e.parse token ≡ some c
    → str_eq c.type "refresh" ≡ false
    → check_refresh e token ≢ ok d
unfolding check_refresh
check_refresh-type e token c d h k r = ground arith

pub check_refresh-parse :
    (e : Env) (token : String) (c : Claims) → check_refresh e token ≡ ok c → e.parse token ≡ some c
unfolding check_refresh
check_refresh-parse e token c h = ground arith

check_refresh-passes :
    (e : Env) (token : String) (c : Claims)
    → e.parse token ≡ some c
    → str_eq c.type "refresh" ≡ true
    → token ≢ ""
    → check_refresh e token ≡ ok c
unfolding check_refresh
check_refresh-passes e token c read type full = elim (Bool-cases (str_eq token "")) [
  | inl empty ↦ absurd (full ((eq_iff token "").0 empty))
  | inr some_text ↦ rw (some_text, check_refresh, read, type) refl
]

pub same_claims_lem : (r : Option Claims) (c d : Claims) → r ≡ some c → r ≡ some d → c ≡ d
same_claims_lem r c d h k = ground arith

module _ (o : RefreshKv) (a : Answers o) where
  open o use {Kv}
  open a use {held}

  -- What a login hands out.
  pub record Signed (e : Env) (u : User) (res : LoginResult) (kv : Kv) : Type 0 where
    pub roles : List ApartmentRole
    pub access_lem :
        verify_access e res.access_token ≡ some (access_claims e u.id u.kind roles u.mc_id)
    pub user_lem : res.user ≡ me (access_claims e u.id u.kind roles u.mc_id)
    pub apart : verify_access e res.refresh_token ≡ none
    pub apart_too : (c : Claims) → check_refresh e res.access_token ≢ ok c
    pub renews : e.parse res.refresh_token ≡ some (refresh_claims e u.id u.kind roles u.mc_id)
    pub enlisted : holder o a kv e.refresh_jti ≡ some u.id

  enlist-Signed :
      (e : Env) (kv : Kv) (u : User) (roles : List ApartmentRole) (access refresh : String)
      (res : LoginResult)
      → Reads e (access_claims e u.id u.kind roles u.mc_id)
      → Reads e (refresh_claims e u.id u.kind roles u.mc_id)
      → sign_pair e u.id u.kind roles u.mc_id ≡ some (access, refresh)
      → (enlist o e kv u roles (access, refresh)).result ≡ ok res
      → Signed e u res (enlist o e kv u roles (access, refresh)).kv
  unfolding enlist issue
  enlist-Signed e kv u roles access refresh res for_one for_other signed h =
      let (for_access, for_refresh) =
        sign_pair-signs e u.id u.kind u.mc_id roles access refresh signed in
      let key = refresh_key e.refresh_jti in
      let stored = a.set_lem kv key u.id refresh_ttl in
      let access_read = for_one access for_access in
      let refresh_read = for_other refresh for_refresh in
      subst (λ r. Signed e u r (enlist o e kv u roles (access, refresh)).kv)
        (ground (arith, stored))
        (record {
          roles = roles;
          access_lem = (verify_access-type e access _ access_read).0 refl;
          user_lem = refl;
          apart = (verify_access-type e refresh _ refresh_read).1 refl;
          apart_too = λ c. check_refresh-type e access _ c access_read refl;
          renews = refresh_read;
          enlisted =
              rw stored
                (a.held-set kv key u.id key refresh_ttl ∙ rw ((eq_iff key key).1 refl) refl);
        })

  issue_with-Signed :
      (e : Env) (kv : Kv) (u : User) (roles : Option (List ApartmentRole)) (res : LoginResult)
      → Keys e u roles
      → (issue_with o e kv u roles).result ≡ ok res
      → Signed e u res (issue_with o e kv u roles).kv
  unfolding issue_with
  issue_with-Signed e kv u none res keys h = absurd (ground arith)
  issue_with-Signed e kv u (some roles) res keys h =
      elim (Option-cases (sign_pair e u.id u.kind roles u.mc_id)) [
        | inl failed ↦ absurd (ground arith)
        | inr ((access, refresh), signed) ↦
            rw (signed, issue_with)
              (enlist-Signed e kv u roles access refresh res (keys roles refl).0 (keys roles refl).1
                signed (rw (signed, issue_with) at h))
      ]

  -- Over a whitelist that answers, and keys with which both tokens are read back once they are
  -- signed: a login that succeeds hands out an access token that the middleware accepts, with the
  -- user's id, kind and company; its refresh token is no access token, and its access token no
  -- refresh token; and the refresh token is in the whitelist, for the user.
  pub issue_login-Signed :
      (e : Env) (db : Database) (kv : Kv) (u : User) (res : LoginResult)
      → Keys e u (get_roles_by_user_id e db u.id)
      → (issue_login o e db kv u).result ≡ ok res
      → Signed e u res (issue_login o e db kv u).kv
  unfolding issue_login
  issue_login-Signed e db kv u res keys h =
      issue_with-Signed e kv u (get_roles_by_user_id e db u.id) res keys h

  renew-ok :
      (e : Env) (kv : Kv) (c : Claims) (res : RefreshResult)
      → (renew o e kv c).result ≡ ok res
      → ((rotate o kv c.jti e.refresh_jti c.subject refresh_ttl).0 ≡ none)
        × ((renew o e kv c).kv ≡ (rotate o kv c.jti e.refresh_jti c.subject refresh_ttl).1)
  unfolding renew exchange
  renew-ok e kv c res h = elim (Option-cases (sign_pair e c.subject c.kind c.roles c.mc_id)) [
    | inl failed ↦ absurd (ground arith)
    | inr ((access, token), signed) ↦
        elim (Option-cases ((rotate o kv c.jti e.refresh_jti c.subject refresh_ttl).0)) [
          | inr (failure, failed) ↦ absurd (ground arith)
          | inl done ↦ (done, rw (signed, renew, done, exchange) refl)
        ]
  ]

  pub refresh-ok :
      (e : Env) (kv : Kv) (token : String) (res : RefreshResult)
      → (refresh o e kv token).result ≡ ok res
      → (c : Claims) × (check_refresh e token ≡ ok c)
        × ((rotate o kv c.jti e.refresh_jti c.subject refresh_ttl).0 ≡ none)
        × ((refresh o e kv token).kv ≡ (rotate o kv c.jti e.refresh_jti c.subject refresh_ttl).1)
  unfolding refresh
  refresh-ok e kv token res h = elim (Result-cases (check_refresh e token)) [
    | inl (refused, stopped) ↦ absurd (ground arith)
    | inr (c, passed) ↦
        let (done, after) = renew-ok e kv c res (rw (passed, refresh) at h) in
        (c, passed, done, rw (passed, refresh) after)
  ]

  exchange-ok :
      (e : Env) (kv : Kv) (c : Claims) (access token : String)
      → (rotate o kv c.jti e.refresh_jti c.subject refresh_ttl).0 ≡ none
      → (exchange o e kv c (access, token)).result
        ≡ ok (record { access_token = access; refresh_token = token })
  unfolding exchange
  exchange-ok e kv c access token done = rw (done, exchange) refl

  -- Over a whitelist that answers, the refresh token of a login that succeeded is exchanged, when
  -- the tokens are read back once they are signed, now and later, and the next pair can be
  -- signed.
  pub login-refresh :
      (e later : Env) (db : Database) (kv : Kv) (u : User) (res : LoginResult)
      → Keys e u (get_roles_by_user_id e db u.id)
      → later.parse res.refresh_token ≡ e.parse res.refresh_token
      → res.refresh_token ≢ ""
      → ((c : Claims)
          → (pair : String × String) × (sign_pair later c.subject c.kind c.roles c.mc_id
              ≡ some pair))
      → (issue_login o e db kv u).result ≡ ok res
      → (next : RefreshResult) × ((refresh o later
            (issue_login o e db kv u).kv
            res.refresh_token).result
          ≡ ok next)
  unfolding refresh renew
  login-refresh e later db kv u res keys same full signs h =
      let kv' = (issue_login o e db kv u).kv in
      let s = issue_login-Signed e db kv u res keys h in
      let c = refresh_claims e u.id u.kind s.roles u.mc_id in
      let passed = check_refresh-passes later res.refresh_token c (same ∙ s.renews) refl full in
      let ((access, token), signed) = signs c in
      let present : holder o a kv' c.jti ≢ none = λ out. some≢none (sym s.enlisted ∙ out) in
      let (done, _) =
        (rotate_lem o a kv' c.jti later.refresh_jti c.subject refresh_ttl).1 present in
      (
        record { access_token = access; refresh_token = token },
        rw (passed, refresh, signed, renew) (exchange-ok later kv' c access token done),
      )
    where
      some≢none : some u.id ≡ none → ⊥
      some≢none x = ground arith
