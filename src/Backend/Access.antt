-- ===== src/Backend/Access.antt =====
-- backend/internal/access/service.go: opening a door. What the service asks of others is a record of
-- answers, `Env`; what it does is the list of its calls that have an effect, in their order. A failed
-- answer is `none` or `false`.
pub mod Gates
pub mod Granted
pub mod Listing
pub use qr_domofon.Backend.Httpx.{internal_error}
use Prim.Native.String.{◌++◌}
use qr_domofon.Base.{
  ℕ, String, Bool, true, false, not, Option, none, some, List, [], ◌∷◌, str_eq, if◌then◌else◌,
}
use qr_domofon.Base.{◌++◌ as append}
use qr_domofon.Backend.Httpx.{
  ApiError, new_error, internal, call_not_found, forbidden, call_not_accepted, device_offline,
  Result, ok, err,
}
use qr_domofon.Backend.Audit.{Event, Value, number, no_event, put_all}

abbrev pub relay_id : ℕ
relay_id = 1

abbrev pub duration_ms : ℕ
duration_ms = 5000

pub record CallSession : Type 0 where
  pub call_id : String
  pub apartment_id : String
  pub access_point_id : String
  pub device_id : String
  pub management_company_id : String
  pub state : String

pub record OpenRelayCommand : Type 0 where
  pub relay_id : ℕ
  pub duration_ms : ℕ
  pub request_id : String
  pub issued_by : String
  pub issued_at : String

pub record OpenResult : Type 0 where
  pub request_id : String
  pub status : String

pub record GrantedPoint : Type 0 where
  pub device_id : String
  pub access_point_id : String
  pub apartment_id : String
  pub management_company_id : String

pub record GrantedPointInfo : Type 0 where
  pub public_id : String
  pub label : String
  pub type : String
  pub device_id : String

pub record PointStatus : Type 0 where
  pub public_id : String
  pub label : String
  pub type : String
  pub online : Bool

-- The calls PublishOpenRelay, Save and Record; the service ignores a failure of the last two.
pub data Effect : Type 0 where
  publish : String → OpenRelayCommand → Effect
  save : String → List (String × String) → Effect
  record_event : Event → Effect

-- The answers of the services around this one, for the user of one request, and its fresh id and
-- time.
pub record Env : Type 0 where
  pub lookup : String → Option (Option CallSession)
  pub allow_apartment : String → Bool
  pub is_online : String → Option Bool
  pub publish_open_relay : String → OpenRelayCommand → Bool
  pub resolve_granted_point : String → String → Option (Option GrantedPoint)
  pub list_granted_points : String → Option (List GrantedPointInfo)
  pub new_request_id : String
  pub now_formatted : String

abbrev command : Env → String → OpenRelayCommand
command e issued_by = record {
  relay_id = relay_id;
  duration_ms = duration_ms;
  request_id = e.new_request_id;
  issued_by = issued_by;
  issued_at = e.now_formatted;
}

abbrev pub requested : List (String × Value)
requested = ("relay_id", number relay_id) ∷ ("duration_ms", number duration_ms) ∷ []

abbrev sent : Env → Result OpenResult
sent e = ok (record { request_id = e.new_request_id; status = "sent" })

-- Open, after its checks.
open_session : Env → CallSession → Result OpenResult × List Effect
open_session e sess =
    let issued_by = "resident:" ++ sess.apartment_id in
    let cmd = command e issued_by in
    if not (e.publish_open_relay sess.device_id cmd)
    then (err (new_error internal "Failed to send command"), publish sess.device_id cmd ∷ [])
    else (
      sent e,
      publish sess.device_id cmd
          ∷ save e.new_request_id (
              ("call_id", sess.call_id)
              ∷ ("apartment_id", sess.apartment_id)
              ∷ ("access_point_id", sess.access_point_id)
              ∷ ("device_id", sess.device_id)
              ∷ ("management_company_id", sess.management_company_id)
              ∷ [])
          ∷ record_event (record no_event {
            event_type = "door_open_requested";
            actor = issued_by;
            apartment_id = sess.apartment_id;
            access_point_id = sess.access_point_id;
            device_id = sess.device_id;
            call_id = sess.call_id;
            request_id = e.new_request_id;
            management_company_id = sess.management_company_id;
            metadata = requested;
          })
          ∷ [],
    )

-- The checks of Open on the session that was found.
check_session : Env → CallSession → Result OpenResult × List Effect
unfolding open_session
check_session e sess =
    if not (e.allow_apartment sess.apartment_id)
    then (err (new_error forbidden "You are not a member of this apartment"), [])
    else if not (str_eq sess.state "accepted")
    then (err (new_error call_not_accepted "Call has not been accepted by a resident yet"), [])
    else elim (e.is_online sess.device_id) [
      | none ↦ (err internal_error, [])
      | some false ↦
          (err (new_error device_offline "Device is offline, door cannot be opened remotely"), [])
      | some true ↦ open_session e sess
    ]

unfoldable pub open_door : Env → String → Result OpenResult × List Effect
unfolding check_session
open_door e call_id = elim (e.lookup call_id) [
  | none ↦ (err internal_error, [])
  | some none ↦ (err (new_error call_not_found "Call not found or expired"), [])
  | some (some sess) ↦ check_session e sess
]

-- OpenResolved, once the device is online.
open_online : Env → GrantedPoint → String → List (String × Value) → Result OpenResult × List Effect
open_online e gp actor extra_meta =
    let cmd = command e actor in
    if not (e.publish_open_relay gp.device_id cmd)
    then (err (new_error internal "Failed to send command"), publish gp.device_id cmd ∷ [])
    else (
      sent e,
      publish gp.device_id cmd
          ∷ save e.new_request_id (
              ("apartment_id", gp.apartment_id)
              ∷ ("access_point_id", gp.access_point_id)
              ∷ ("device_id", gp.device_id)
              ∷ ("management_company_id", gp.management_company_id)
              ∷ [])
          ∷ record_event (record no_event {
            event_type = "door_open_requested";
            actor = actor;
            apartment_id = gp.apartment_id;
            access_point_id = gp.access_point_id;
            device_id = gp.device_id;
            request_id = e.new_request_id;
            management_company_id = gp.management_company_id;
            metadata = put_all requested extra_meta;
          })
          ∷ [],
    )

unfoldable pub open_resolved :
    Env → GrantedPoint → String → List (String × Value) → Result OpenResult × List Effect
unfolding open_online
open_resolved e gp actor extra_meta = elim (e.is_online gp.device_id) [
  | none ↦ (err internal_error, [])
  | some false ↦
      (err (new_error device_offline "Device is offline, door cannot be opened remotely"), [])
  | some true ↦ open_online e gp actor extra_meta
]

unfoldable pub open_point : Env → String → String → Result OpenResult × List Effect
open_point e user_id public_id = elim (e.resolve_granted_point user_id public_id) [
  | none ↦ (err internal_error, [])
  | some none ↦ (err (new_error forbidden "You do not have access to this point"), [])
  | some (some gp) ↦ open_resolved e gp ("resident:" ++ user_id) []
]

-- A failed check of presence makes its point offline.
abbrev pub online_or_offline : Option Bool → Bool
online_or_offline none = false
online_or_offline (some online) = online

abbrev pub point_status : Env → GrantedPointInfo → PointStatus
point_status e p = record {
  public_id = p.public_id;
  label = p.label;
  type = p.type;
  online = online_or_offline (e.is_online p.device_id);
}

-- The loop of ListPoints: `out` grows at its end.
collect : Env → List PointStatus → List GrantedPointInfo → List PointStatus
collect e out [] = out
collect e out (p ∷ ps) = collect e (append out (point_status e p ∷ [])) ps

unfoldable pub list_points : Env → String → Result (List PointStatus)
unfolding collect
list_points e user_id = elim (e.list_granted_points user_id) [
  | none ↦ err internal_error
  | some pts ↦ ok (collect e [] pts)
]
