-- ===== src/Backend/Auth/Service/Spent.antt =====
-- A refresh token that was exchanged stays out of the whitelist, Refresh of
-- backend/internal/auth/service.go among the other operations on sessions.
use mathlib.Core.Path.{subst}
use qr_domofon.Base.{
  String, ◌≡◌, ◌≢◌, refl, sym, ap, ◌∙◌, true, false, Option, none, some, List, [], ◌∷◌, inl, inr,
  arith, str_eq, eq_iff, Bool-cases, Option-cases, All, if◌then◌else◌, Bool,
}
use qr_domofon.Backend.Httpx.{ok, Result-cases}
use qr_domofon.Backend.Database.{Database}
use qr_domofon.Backend.Auth.Claims.{ApartmentRole, Claims, RefreshResult}
use qr_domofon.Backend.Auth.Refresh.{RotateError, issue, rotate, revoke, not_in_whitelist}
use qr_domofon.Backend.Auth.Refresh.Store.{RefreshKv, Answers}
use qr_domofon.Backend.Auth.Refresh.Sequential.{holder, rotate_lem, refresh_key-eq}
use qr_domofon.Backend.Auth.Accounts.{Env, User, get_roles_by_user_id}
use qr_domofon.Backend.Auth.Tokens.{sign_pair, refresh_ttl}
use qr_domofon.Backend.Auth.Service.{
  enlist, issue_with, issue_login, exchange, renew, refresh, check_refresh, logout,
}
use qr_domofon.Backend.Auth.Service.Session.{refresh-ok, check_refresh-parse, same_claims_lem}

-- The operations on sessions: every login ends in issueLogin.
pub data Action : Type 0 where
  log_in : Env → Database → User → Action
  renewal : Env → String → Action
  log_out : Env → String → Action

-- The fresh id of an operation is another one.
abbrev pub Avoids : String → Action → Type 0
Avoids jti (log_in e _ _) = e.refresh_jti ≢ jti
Avoids jti (renewal e _) = e.refresh_jti ≢ jti
Avoids jti (log_out _ _) = Unit

not_same : (a b : String) → a ≢ b → str_eq a b ≡ false
not_same a b h = elim (Bool-cases (str_eq a b)) [
  | inl same ↦ absurd (h ((eq_iff a b).0 same))
  | inr other ↦ other
]

module _ (o : RefreshKv) where
  open o use {Kv}

  unfoldable pub step : Action → Kv → Kv
  step (log_in e db u) kv = (issue_login o e db kv u).kv
  step (renewal e token) kv = (refresh o e kv token).kv
  step (log_out e token) kv = logout o e kv token

  unfoldable pub run : List Action → Kv → Kv
  run [] kv = kv
  run (act ∷ acts) kv = run acts (step act kv)

module _ (o : RefreshKv) (a : Answers o) where
  open o use {Kv}
  open a use {held}

  -- The token is not in the whitelist.
  abbrev Absent : Kv → String → Type 0
  Absent kv jti = holder o a kv jti ≡ none

  issue-Absent :
      (kv : Kv) (fresh user_id jti : String)
      → fresh ≢ jti
      → Absent kv jti
      → Absent (issue o kv fresh user_id refresh_ttl).1 jti
  unfolding issue
  issue-Absent kv fresh user_id jti other absent =
      rw (a.held-set, refresh_key-eq fresh jti, not_same fresh jti other) absent

  issue_with-Absent :
      (e : Env) (kv : Kv) (u : User) (roles : Option (List ApartmentRole)) (jti : String)
      → e.refresh_jti ≢ jti
      → Absent kv jti
      → Absent (issue_with o e kv u roles).kv jti
  unfolding issue_with enlist
  issue_with-Absent e kv u none jti other absent = absent
  issue_with-Absent e kv u (some roles) jti other absent =
      let kept = issue-Absent kv e.refresh_jti u.id jti other absent in
      elim (Option-cases (sign_pair e u.id u.kind roles u.mc_id)) [
        | inl failed ↦ rw (failed, issue_with) absent
        | inr (tokens, signed) ↦ elim (Bool-cases (issue o kv e.refresh_jti u.id refresh_ttl).0) [
          | inl stored ↦ rw (signed, issue_with, enlist, stored) kept
          | inr lost ↦ rw (signed, issue_with, enlist, lost) kept
        ]
      ]

  rotate-Absent :
      (kv : Kv) (old fresh user_id jti : String)
      → fresh ≢ jti
      → Absent kv jti
      → Absent (rotate o kv old fresh user_id refresh_ttl).1 jti
  rotate-Absent kv old fresh user_id jti other absent = elim (Option-cases (holder o a kv old)) [
    | inl gone ↦ rw ((rotate_lem o a kv old fresh user_id refresh_ttl).0 gone) absent
    | inr (who, there) ↦
        let present : holder o a kv old ≢ none = λ out. some≢none who (sym there ∙ out) in
        let (_, after) = (rotate_lem o a kv old fresh user_id refresh_ttl).1 present in
        after jti
        ∙ rw (not_same fresh jti other) (dropped (str_eq old jti) (holder o a kv jti) absent)
  ]
    where
      some≢none : (who : String) → some who ≡ none → ⊥
      some≢none who x = ground arith

      dropped : (b : Bool) (h : Option String) → h ≡ none → (if b then none else h) ≡ none
      dropped true h k = refl
      dropped false h k = k

  exchange-kv :
      (e : Env) (kv : Kv) (c : Claims) (tokens : String × String)
      → (exchange o e kv c tokens).kv ≡ (rotate o kv c.jti e.refresh_jti c.subject refresh_ttl).1
  unfolding exchange
  exchange-kv e kv c tokens =
      elim (Option-cases (rotate o kv c.jti e.refresh_jti c.subject refresh_ttl).0) [
        | inl done ↦ rw (exchange, done) refl
        | inr (failure, failed) ↦ rw (exchange, failed) refl
      ]

  renew-Absent :
      (e : Env) (kv : Kv) (c : Claims) (jti : String)
      → e.refresh_jti ≢ jti
      → Absent kv jti
      → Absent (renew o e kv c).kv jti
  unfolding renew
  renew-Absent e kv c jti other absent =
      elim (Option-cases (sign_pair e c.subject c.kind c.roles c.mc_id)) [
        | inl failed ↦ rw (failed, renew) absent
        | inr (tokens, signed) ↦
            rw (signed, renew, exchange-kv e kv c tokens)
              (rotate-Absent kv c.jti e.refresh_jti c.subject jti other absent)
      ]

  refresh-Absent :
      (e : Env) (kv : Kv) (token jti : String)
      → e.refresh_jti ≢ jti
      → Absent kv jti
      → Absent (refresh o e kv token).kv jti
  unfolding refresh
  refresh-Absent e kv token jti other absent = elim (Result-cases (check_refresh e token)) [
    | inl (refused, stopped) ↦ rw (stopped, refresh) absent
    | inr (c, passed) ↦ rw (passed, refresh) (renew-Absent e kv c jti other absent)
  ]

  revoke-Absent : (kv : Kv) (old jti : String) → Absent kv jti → Absent (revoke o kv old).1 jti
  unfolding revoke
  revoke-Absent kv old jti absent = elim (Bool-cases (str_eq old jti)) [
    | inl same ↦ rw (a.held-del, refresh_key-eq old jti, same) refl
    | inr other ↦ rw (a.held-del, refresh_key-eq old jti, other) absent
  ]

  logout-Absent :
      (e : Env) (kv : Kv) (token jti : String) → Absent kv jti → Absent (logout o e kv token) jti
  unfolding logout
  logout-Absent e kv token jti absent = elim (Bool-cases (str_eq token "")) [
    | inl empty ↦ rw (empty, logout) absent
    | inr full ↦ elim (Option-cases (e.parse token)) [
      | inl unread ↦ rw (full, logout, unread) absent
      | inr (c, read) ↦ rw (full, logout, read) (revoke-Absent kv c.jti jti absent)
    ]
  ]

  run-Absent :
      (acts : List Action) (kv : Kv) (jti : String)
      → All (Avoids jti) acts
      → Absent kv jti
      → Absent (run o acts kv) jti
  unfolding run step issue_login
  run-Absent [] kv jti avoids absent = absent
  run-Absent (log_in e db u ∷ acts) kv jti (other, avoids) absent =
      run-Absent acts _ jti avoids
        (issue_with-Absent e kv u (get_roles_by_user_id e db u.id) jti other absent)
  run-Absent (renewal e token ∷ acts) kv jti (other, avoids) absent =
      run-Absent acts _ jti avoids (refresh-Absent e kv token jti other absent)
  run-Absent (log_out e token ∷ acts) kv jti (_, avoids) absent =
      run-Absent acts _ jti avoids (logout-Absent e kv token jti absent)

  rotated-Absent :
      (kv : Kv) (jti fresh user_id : String)
      → fresh ≢ jti
      → (rotate o kv jti fresh user_id refresh_ttl).0 ≡ none
      → Absent (rotate o kv jti fresh user_id refresh_ttl).1 jti
  rotated-Absent kv jti fresh user_id other done = elim (Option-cases (holder o a kv jti)) [
    | inl gone ↦ rw ((rotate_lem o a kv jti fresh user_id refresh_ttl).0 gone) gone
    | inr (who, there) ↦
        let present : holder o a kv jti ≢ none = λ out. some≢none who (sym there ∙ out) in
        let (_, after) = (rotate_lem o a kv jti fresh user_id refresh_ttl).1 present in
        after jti ∙ rw (not_same fresh jti other, (eq_iff jti jti).1 refl) refl
  ]
    where
      some≢none : (who : String) → some who ≡ none → ⊥
      some≢none who x = ground arith

  -- Over a whitelist that answers, a refresh token that was exchanged for a pair is refused from
  -- then on: after any logins, renewals and logouts, when the ids that the exchange and they give
  -- out are others than the token's, and the token is still read as the same claims.
  pub refresh_once :
      (e later : Env) (kv : Kv) (token : String) (acts : List Action) (res again : RefreshResult)
      → later.parse token ≡ e.parse token
      → ((c : Claims) → e.parse token ≡ some c → (e.refresh_jti ≢ c.jti) × All (Avoids c.jti) acts)
      → (refresh o e kv token).result ≡ ok res
      → (refresh o later (run o acts (refresh o e kv token).kv) token).result ≢ ok again
  refresh_once e later kv token acts res again same fresh h k =
      let (c, passed, done, after) = refresh-ok o a e kv token res h in
      let (d, passed', done', _) =
        refresh-ok o a later (run o acts (refresh o e kv token).kv) token again k in
      let read = check_refresh-parse e token c passed in
      let (other, avoids) = fresh c read in
      let spent =
        subst (λ s. Absent s c.jti) (sym after)
          (rotated-Absent kv c.jti e.refresh_jti c.subject other done) in
      let gone = run-Absent acts _ c.jti avoids spent in
      let same_claims : d ≡ c =
        same_claims_lem (later.parse token) d c (check_refresh-parse later token d passed')
          (same ∙ read) in
      let gone' =
        subst (λ (x : Claims). Absent (run o acts (refresh o e kv token).kv) x.jti)
          (sym same_claims) gone in
      let refused = (rotate_lem o a _ d.jti later.refresh_jti d.subject refresh_ttl).0 gone' in
      none≢some (sym done' ∙ ap (λ (p : Option RotateError × Kv). p.0) refused)
    where
      none≢some : none ≡ some not_in_whitelist → ⊥
      none≢some x = ground arith
