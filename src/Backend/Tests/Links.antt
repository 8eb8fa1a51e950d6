-- ===== src/Backend/Tests/Links.antt =====
-- Runs of guests' links and of invitations over a database, backend/internal/guests and
-- backend/internal/onboarding.
use qr_domofon.Base.{
  str_eq, if◌then◌else◌, ◌≡◌, refl, sym, ◌∙◌, true, false, none, some, [], ◌∷◌, inl, inr, Member,
}
use qr_domofon.Backend.Access.Gates.{published}
use qr_domofon.Backend.Database.{Database, GuestAccess, GuestPoint}
use qr_domofon.Backend.Guests.{Env}
use qr_domofon.Backend.Guests.Create.{Offered}
use qr_domofon.Backend.Guests.Service.{open_as_guest}
use qr_domofon.Backend.Guests.Offers.{Sql, allowed_rows}
use qr_domofon.Backend.Guests.Repo.{
  with_repo, revoke, resolve_guest_open_point, get_guest_by_token_hash, row_of,
}
use qr_domofon.Backend.Guests.Repo.Derived.{resolve-Offered}
use qr_domofon.Backend.Guests.Repo.Revocation.{revoke_point-guest, revoke-closes}
use qr_domofon.Backend.Onboarding.Grants.{
  revoke_point, revoke_at, revoke_grant, resolve_point_in_mc,
}
use qr_domofon.Backend.Tests.Tables.{tables, tables-IsValid, mc_claims, guest}
use qr_domofon.Backend.Tests.Grants.{matrix, doors, revoked_ok}

abbrev repo_sql : Sql
repo_sql = record {
  fails = λ q. false;
  is_uuid = λ s. true;
  cast = λ s. some s;
  new_id = "n1";
  by_type = λ opts. opts;
  by_type_label = λ views. views;
  by_creation = λ rows. rows;
}

-- A service whose repository is given later.
abbrev service : Env
service = record {
  apartment_mc = λ id. none;
  is_apartment_member = λ u a. none;
  can_create_guests = λ u a. none;
  owns_apartment = λ u a. none;
  allowed_points = λ a u. none;
  create_guest_row = λ g. none;
  get_guest_by_token_hash = λ h. none;
  guest_points = λ id. none;
  resolve_guest_open_point = λ g u a p. none;
  list_by_creator = λ u. none;
  revoke_row = λ g u t. none;
  set_guest_permission = λ a u b. none;
  is_online = λ d. some true;
  generate_token = some "t";
  hash_token = λ t. if str_eq t "secret" then "#g" else "#t";
  format_time = λ t. "";
  base_url = "https://x";
  now = 10;
}

resolve-Offered_example :
    Offered (allowed_rows tables "a1" "u1") "g1"
    × ((entry : GuestPoint) × Member entry tables.guest_points
        × (entry.guest_id ≡ "x1")
        × (entry.access_point_id ≡ "g1"))
unfolding resolve_guest_open_point
resolve-Offered_example =
    resolve-Offered repo_sql tables "x1" "u1" "a1" "G"
      (record {
        device_id = "d1";
        access_point_id = "g1";
        apartment_id = "a1";
        management_company_id = "m1";
      })
      refl

revoke_point-guest_example :
    published
      (open_as_guest
        (with_repo repo_sql (revoke_point matrix tables mc_claims "u1" "G").db service)
        doors
        "secret"
        "G").1
    ≡ []
unfolding revoke_point revoke_at revoke_grant resolve_point_in_mc get_guest_by_token_hash
revoke_point-guest_example =
    revoke_point-guest matrix repo_sql tables service doors mc_claims "u1" "G" "u1" "secret"
      (row_of guest) tables-IsValid refl refl revoked_ok refl refl

one_guest : (h k : GuestAccess) → Member h tables.guests → Member k tables.guests → h ≡ k
one_guest h k (inl a) (inl b) = sym a ∙ b
one_guest h k (inr a) _ = absurd a.0
one_guest h k (inl _) (inr b) = absurd b.0

abbrev without_guest : Database
without_guest = record tables {
  guests = (record guest { revoked_at = some 10; revoked_by = some "u1" }) ∷ [];
}

revoke-closes_example :
    published (open_as_guest (with_repo repo_sql without_guest service) doors "secret" "G").1 ≡ []
unfolding revoke
revoke-closes_example =
    revoke-closes repo_sql repo_sql tables without_guest service doors "x1" "u1" "secret" "G" 10
      guest (λ h k m n e. one_guest h k m n) refl refl refl
