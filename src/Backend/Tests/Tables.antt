-- ===== src/Backend/Tests/Tables.antt =====
-- A small database: an owner with a grant for a gate, two invitations and a guest.
use qr_domofon.Base.{◌≡◌, sym, ap, ◌∙◌, true, false, none, some, [], ◌∷◌, inl, inr, Member}
use qr_domofon.Backend.Auth.Claims.{Claims}
use qr_domofon.Backend.Database.{User, Grant, Point, InviteRow, GuestAccess, Database}
use qr_domofon.Backend.Onboarding.Grants.Toggle.{IsValid}

abbrev pub owner : User
owner = record {
  id = "u1";
  phone = some "+79990000001";
  email = none;
  password_hash = none;
  totp_secret = none;
  full_name = none;
  kind = "owner";
  mc_id = none;
}

abbrev pub admin : User
admin = record {
  id = "adm";
  phone = some "+79990000009";
  email = some "a@b";
  password_hash = some "x";
  totp_secret = some "y";
  full_name = some "A";
  kind = "mc_admin";
  mc_id = some "m1";
}

abbrev pub gate : Point
gate = record {
  id = "g1";
  public_id = "G";
  building_id = none;
  entrance_id = none;
  mc_id = "m1";
  type = "gate";
  label = "gate";
  is_active = true;
}

abbrev pub owner_grant : Grant
owner_grant = record {
  user_id = "u1";
  access_point_id = "g1";
  mc_id = "m1";
  granted_by = some "adm";
}

abbrev pub invitation : InviteRow
invitation = record {
  id = "i1";
  token_hash = "#t";
  phone = some "+79990000002";
  full_name = some "R";
  target_kind = "apartment_resident";
  apartment_id = some "a1";
  access_point_id = none;
  role = some "resident";
  mc_id = "m1";
  created_by = "u1";
  expires_at = 100;
  used_at = none;
  used_by = none;
}

abbrev pub guest : GuestAccess
guest = record {
  id = "x1";
  token_hash = "#g";
  full_name = "G";
  apartment_id = "a1";
  mc_id = "m1";
  created_by = "u1";
  valid_from = 0;
  valid_to = 50;
  revoked_at = none;
  revoked_by = none;
}

abbrev pub tables : Database
tables = record {
  users = owner ∷ admin ∷ [];
  roles =
      (record {
        user_id = "u1";
        apartment_id = "a1";
        mc_id = "m1";
        role = "owner";
        can_create_guests = false;
        created_by = none;
      })
      ∷ [];
  grants = owner_grant ∷ [];
  apartments =
      (record {
        id = "a1";
        number = "1";
        building_id = "b1";
        entrance_id = none;
        mc_id = "m1";
        is_active = true;
      })
      ∷ [];
  points = gate ∷ [];
  devices = (record { id = "d1"; access_point_id = "g1" }) ∷ [];
  invites = invitation ∷ [];
  invite_points = (record { invite_id = "i1"; access_point_id = "g1"; mc_id = "m1" }) ∷ [];
  guests = guest ∷ [];
  guest_points = (record { guest_id = "x1"; access_point_id = "g1"; mc_id = "m1" }) ∷ [];
}

abbrev pub mc_claims : Claims
mc_claims = record {
  subject = "adm";
  kind = "mc_admin";
  roles = [];
  mc_id = "m1";
  jti = "j";
  issued_at = 0;
  expires_at = 100;
  type = "access";
}

one_point : (p q : Point) → Member p tables.points → Member q tables.points → p ≡ q
one_point p q (inl a) (inl b) = sym a ∙ b
one_point p q (inr a) _ = absurd a.0
one_point p q (inl _) (inr b) = absurd b.0

one_grant :
    (g : Grant) (p : Point) → Member g tables.grants → Member p tables.points → p.mc_id ≡ g.mc_id
one_grant g p (inl a) (inl b) = ap (λ (q : Point). q.mc_id) (sym b) ∙ ap (λ (h : Grant). h.mc_id) a
one_grant g p (inr a) _ = absurd a.0
one_grant g p (inl _) (inr b) = absurd b.0

pub tables-IsValid : IsValid tables
tables-IsValid = record {
  id_key = λ p q m k h. one_point p q m k;
  public_key = λ p q m k h. one_point p q m k;
  company = λ g p m k h. one_grant g p m k;
}
