-- ===== src/Backend/Tests/Grants.antt =====
-- Runs of the matrix of grants, and of the invitations' requests, of backend/internal/onboarding.
use Prim.Native.String.{◌++◌}
use qr_domofon.Base.{◌≡◌, refl, true, false, none, some, [], inl, inr, Member}
use qr_domofon.Backend.Access as Access
use qr_domofon.Backend.Access.{GrantedPoint, open_point}
use qr_domofon.Backend.Access.Gates.{published}
use qr_domofon.Backend.Access.Granted.{point_command}
use qr_domofon.Backend.Database.{Point, device_of}
use qr_domofon.Backend.Onboarding.Grants as Matrix
use qr_domofon.Backend.Onboarding.Grants.{
  grant_point, grant_at, revoke_point, revoke_at, with_grants, user_in_mc, grant_returning,
  revoke_grant, resolve_point_in_mc,
}
use qr_domofon.Backend.Onboarding.Grants.Toggle.{revoke_point-closes}
use qr_domofon.Backend.Onboarding.Grants.Invariant.{grant_point-opens}
use qr_domofon.Backend.Tests.Tables.{tables, tables-IsValid, mc_claims}

abbrev pub matrix : Matrix.Env
matrix = record {
  fails = λ q. false;
  is_uuid = λ s. true;
  cast = λ s. some s;
  by_label = λ infos. infos;
}

abbrev pub doors : Access.Env
doors = record {
  lookup = λ id. some none;
  allow_apartment = λ id. false;
  is_online = λ d. some true;
  publish_open_relay = λ _ _. true;
  resolve_granted_point = λ _ _. some none;
  list_granted_points = λ _. some [];
  new_request_id = "r1";
  now_formatted = "2026-01-01T00:00:00Z";
}

pub revoked_ok : (revoke_point matrix tables mc_claims "u1" "G").error ≡ none
unfolding revoke_point revoke_at revoke_grant resolve_point_in_mc
revoked_ok = refl

revoke_point-closes_example :
    published
      (open_point
        (with_grants matrix (revoke_point matrix tables mc_claims "u1" "G").db doors)
        "u1"
        "G").1
    ≡ []
revoke_point-closes_example =
    revoke_point-closes matrix matrix tables doors mc_claims "u1" "G" "u1" tables-IsValid refl refl
      revoked_ok

granted_ok : (grant_point matrix tables mc_claims "u1" "G").error ≡ none
unfolding grant_point grant_at user_in_mc grant_returning resolve_point_in_mc
granted_ok = refl

gate_device : (p : Point) → Member p tables.points → device_of tables.devices p.id ≡ some "d1"
gate_device p (inl same) = rw (← same) refl
gate_device p (inr m) = absurd m.0

grant_point-opens_example :
    (gp : GrantedPoint) × (gp.device_id ≡ "d1")
    × (published
          (open_point
            (with_grants matrix (grant_point matrix tables mc_claims "u1" "G").db doors)
            "u1"
            "G").1
        ≡ point_command doors gp ("resident:" ++ "u1"))
grant_point-opens_example =
    grant_point-opens matrix matrix tables doors mc_claims "u1" "G" "u1" "d1" tables-IsValid refl
      refl refl refl (λ p m h. gate_device p m) refl granted_ok
