-- ===== src/Backend/Tests/Doors.antt =====
-- Runs of backend/internal/access and backend/internal/audit.
use qr_domofon.Base.{
  zero, ◌≤◌, ◌≡◌, ◌⊎◌, refl, true, none, some, [], ◌∷◌, str_eq, length, All, if◌then◌else◌, arith,
}
use qr_domofon.Base.Int.{pos}
use qr_domofon.Backend.Access.{
  Env, CallSession, GrantedPoint, GrantedPointInfo, open_door, open_point,
}
use qr_domofon.Backend.Access.Gates.{
  published, MayOpen, session_command, open_door-MayOpen, Accounts, open_door-Accounts,
}
use qr_domofon.Backend.Access.Granted.{MayOpenPoint, point_command, open_point-MayOpenPoint}
use qr_domofon.Backend.Audit.{Event, Table, no_event, list}
use qr_domofon.Backend.Audit.Scope.{IsValid, OfCompany, Descending, list-OfCompany}

abbrev session : CallSession
session = record {
  call_id = "c1";
  apartment_id = "a1";
  access_point_id = "p1";
  device_id = "d1";
  management_company_id = "m1";
  state = "accepted";
}

abbrev entrance : GrantedPoint
entrance = record {
  device_id = "d1";
  access_point_id = "p1";
  apartment_id = "a1";
  management_company_id = "m1";
}

abbrev entrance_info : GrantedPointInfo
entrance_info = record { public_id = "P1"; label = "entrance"; type = "door"; device_id = "d1" }

abbrev gate_info : GrantedPointInfo
gate_info = record { public_id = "P2"; label = "gate"; type = "gate"; device_id = "d2" }

-- A member of a1 with a call that was accepted; d1 is online, the presence of d2 cannot be told.
abbrev env : Env
env = record {
  lookup = λ id. some (if str_eq id "c1" then some session else none);
  allow_apartment = λ id. str_eq id "a1";
  is_online = λ d. if str_eq d "d1" then some true else none;
  publish_open_relay = λ _ _. true;
  resolve_granted_point = λ u p. some (if str_eq p "P1" then some entrance else none);
  list_granted_points = λ u. some (entrance_info ∷ gate_info ∷ []);
  new_request_id = "r1";
  now_formatted = "2026-01-01T00:00:00Z";
}

may_open : MayOpen env "c1" session
may_open = record { found = refl; member = refl; accepted = refl; online = refl }

open_door-MayOpen_example :
    ((published (open_door env "c1").1 ≡ [])
      ⊎ ((sess : CallSession) × MayOpen env "c1" sess
          × (published (open_door env "c1").1 ≡ session_command env sess)))
    × ((sess : CallSession)
        → MayOpen env "c1" sess
        → published (open_door env "c1").1 ≡ session_command env sess)
open_door-MayOpen_example = open_door-MayOpen env "c1"

-- The door does open in it.
door_opens : published (open_door env "c1").1 ≡ session_command env session
door_opens = (open_door-MayOpen env "c1").1 session may_open

open_door-Accounts_example : Accounts env "c1" (open_door env "c1")
open_door-Accounts_example = open_door-Accounts env "c1"

open_point-MayOpenPoint_example :
    ((published (open_point env "u1" "P1").1 ≡ [])
      ⊎ ((gp : GrantedPoint) × MayOpenPoint env "u1" "P1" gp))
    × ((gp : GrantedPoint)
        → MayOpenPoint env "u1" "P1" gp
        → published (open_point env "u1" "P1").1 ≡ point_command env gp "resident:u1")
open_point-MayOpenPoint_example = open_point-MayOpenPoint env "u1" "P1"

abbrev opened : Event
opened = record no_event { event_type = "door_open_requested"; management_company_id = "m1" }

abbrev table : Table
table = record {
  rows = (record { id = 2; event = opened }) ∷ (record { id = 1; event = no_event }) ∷ [];
  next_id = 3;
}

table-IsValid : IsValid table
table-IsValid = omega arith

list-OfCompany_example :
    (length (list table "m1" (pos zero)) ≤ 500)
    × All (OfCompany "m1") (list table "m1" (pos zero))
    × Descending 3 (list table "m1" (pos zero))
list-OfCompany_example = list-OfCompany table "m1" (pos zero) table-IsValid
