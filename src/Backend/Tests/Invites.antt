-- ===== src/Backend/Tests/Invites.antt =====
-- Runs of the invitations of backend/internal/onboarding.
use Prim.Native.String.{◌++◌}
use qr_domofon.Base.Text.{trim_space, trim_slashes}
use qr_domofon.Base.{◌+◌, ◌≡◌, ◌≢◌, refl, true, false, none, some, [], ◌∷◌, List, String}
use qr_domofon.Backend.Httpx.{ok, err, internal_error}
use qr_domofon.Backend.Onboarding.Invitations as Invites
use qr_domofon.Backend.Onboarding.Invites.{Accepted, accept_invite_tx, accept_steps, accept_found}
use qr_domofon.Backend.Onboarding.Invitations.{create_invite, insert_points, NewInvite}
use qr_domofon.Backend.Onboarding.Invites.Once.{accept_once}
use qr_domofon.Backend.Onboarding.Invites.Session.{
  NoEscalation, accept-NoEscalation, Given, accept-Given,
}
use qr_domofon.Backend.Onboarding.{normalize_phone, digits, international, size}
use qr_domofon.Backend.Onboarding.Composite.{normalize_grant_public_ids, collect_ids}
use qr_domofon.Backend.Onboarding.Grants.{get_apartment, get_access_point}
use qr_domofon.Backend.Onboarding.Service as Service
use qr_domofon.Backend.Onboarding.Service.{
  InviteResult, create_owner_invite, check_owner_invite, check_apartment, resolve_grant_points,
  resolve_points, check_point, check_point, invite, create_invite_of, invite_with, store_invite,
  invite_ttl,
}
use qr_domofon.Backend.Onboarding.Invites.Attach.{role_at}
use qr_domofon.Backend.Onboarding.Service.Trip.{OwnerOffer, owner_invite-accepted}
use qr_domofon.Backend.Tests.Grants.{matrix}
use qr_domofon.Backend.Tests.Tables.{tables, mc_claims}

abbrev pub sql : Invites.Env
sql = record { fails = λ s. false; cast = λ s. some s; new_id = "n1"; rival = none }

abbrev pub newcomer : Accepted
newcomer = record {
  user_id = "n1";
  created = true;
  target_kind = "apartment_resident";
  mc_id = "m1";
  apartment_id = "a1";
  access_point_id = "";
  granted_points = 1;
}

-- The invitation makes a user, a role and a grant.
accepted_once : (accept_invite_tx sql tables "#t" 5).0 ≡ ok newcomer
unfolding accept_invite_tx accept_steps accept_found
accepted_once = refl

accept_once_example :
    (accept_invite_tx sql (accept_invite_tx sql tables "#t" 5).1 "#t" 6).0 ≢ ok newcomer
accept_once_example = accept_once sql sql tables "#t" 5 6 newcomer newcomer accepted_once

accept-NoEscalation_example :
    NoEscalation sql tables "#t" 5 newcomer (accept_invite_tx sql tables "#t" 5).1
accept-NoEscalation_example = accept-NoEscalation sql tables "#t" 5 newcomer accepted_once

accept-Given_example : Given tables "#t" newcomer (accept_invite_tx sql tables "#t" 5).1
accept-Given_example = accept-Given sql tables "#t" 5 newcomer accepted_once

abbrev office : Service.Env
office = record {
  grants = matrix;
  invites = sql;
  generate_token = some "secret";
  hash_token = λ t. t;
  format_time = λ t. "";
  issue_for_user = λ db u. err internal_error;
  base_url = "https://x";
  now = 10;
}

abbrev answered : InviteResult
answered = record {
  token = "secret";
  url = trim_slashes "https://x" ++ "/invite/" ++ "secret";
  expires_at = 10 + invite_ttl;
}

abbrev asked : List String
asked = "G" ∷ []

abbrev new_owner : Accepted
new_owner = record {
  user_id = "n1";
  created = true;
  target_kind = "apartment_owner";
  mc_id = "m1";
  apartment_id = "a1";
  access_point_id = "";
  granted_points = 1;
}

invited :
    (create_owner_invite office tables mc_claims "a1" "79990000003" "O" asked).result ≡ ok answered
unfolding create_owner_invite check_owner_invite check_apartment resolve_grant_points resolve_points
    check_point get_access_point normalize_grant_public_ids collect_ids invite create_invite_of
    invite_with store_invite create_invite insert_points get_apartment normalize_phone digits
    international size trim_space
invited = refl

taken_up :
    (accept_invite_tx sql
      (create_owner_invite office tables mc_claims "a1" "79990000003" "O" asked).db
      "secret"
      20).0
    ≡ ok new_owner
unfolding accept_invite_tx accept_steps accept_found create_owner_invite check_owner_invite
    check_apartment resolve_grant_points resolve_points check_point get_access_point
    normalize_grant_public_ids collect_ids invite create_invite_of invite_with store_invite
    create_invite insert_points get_apartment normalize_phone digits international size trim_space
taken_up = refl

owner_invite-accepted_example :
    (role_at
        (accept_invite_tx sql
          (create_owner_invite office tables mc_claims "a1" "79990000003" "O" asked).db
          "secret"
          20).1.roles
        "n1"
        "a1"
      ≡ some "owner")
    × OwnerOffer office tables mc_claims "a1" "a1" asked "secret"
        (create_owner_invite office tables mc_claims "a1" "79990000003" "O" asked).db
owner_invite-accepted_example =
    owner_invite-accepted office sql tables mc_claims "a1" "79990000003" "O" "a1" asked answered 20
      new_owner refl invited taken_up
