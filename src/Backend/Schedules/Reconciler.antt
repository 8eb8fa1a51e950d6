-- ===== src/Backend/Schedules/Reconciler.antt =====
-- backend/internal/schedules/scheduler.go and service.go: the reconciler, and the operations on schedules.
-- A map of Go is a list of its entries, and a loop over it takes them in the list's order.
use Prim.Native.String.{◌++◌}
use qr_domofon.Base.{
  ℕ, ◌/◌, String, Bool, true, false, Option, none, some, List, [], ◌∷◌, ◌++◌ as append, map, str_eq,
  if◌then◌else◌,
}
use qr_domofon.Base.Int.{ℤ, pos, negsuc}
use qr_domofon.Backend.Httpx.{ApiError, new_error, validation_error, Result, ok, err}
use qr_domofon.Backend.Audit.{Event, text, number, no_event}
use qr_domofon.Backend.Access.{internal_error}
use qr_domofon.Backend.Auth.Claims.{Claims}
use qr_domofon.Backend.Schedules.{Schedule, Zones, active_at, validate_schedule}

pub record DueRow : Type 0 where
  pub access_point_id : String
  pub device_id : String
  pub mc_id : String
  pub sched : Schedule

pub record OpenCommand : Type 0 where
  pub relay_id : ℕ
  pub duration_ms : ℕ
  pub request_id : String
  pub issued_by : String
  pub issued_at : String

pub data Effect : Type 0 where
  publish : String → OpenCommand → Effect
  record_event : Event → Effect

-- What one tick is answered. A request id is fresh for each point.
pub record Tick : Type 0 where
  pub try_lock : Option Bool
  pub due_all : Option (List DueRow)
  pub now : ℕ
  pub is_online : String → Option Bool
  pub new_request_id : String → String
  pub now_formatted : String

-- The device and the company of an open point.
pub record OpenPoint : Type 0 where
  pub access_point_id : String
  pub device_id : String
  pub mc_id : String

-- `openNow[d.AccessPointID] = d.DeviceID; mcOf[d.AccessPointID] = d.MCID`.
unfoldable pub put_point : List OpenPoint → OpenPoint → List OpenPoint
put_point [] p = p ∷ []
put_point (q ∷ qs) p =
    let later = put_point qs p in
    if str_eq q.access_point_id p.access_point_id then p ∷ qs else q ∷ later

-- Whether a map has a key.
abbrev pub has_key : List String → String → Bool
has_key [] k = false
has_key (j ∷ js) k = if str_eq j k then true else has_key js k

abbrev pub ids_of : List OpenPoint → List String
ids_of ps = map (λ (p : OpenPoint). p.access_point_id) ps

unfoldable pub pulse : ℕ → Tick → OpenPoint → List Effect
pulse lease t p = elim (t.is_online p.device_id) [
  | none ↦ []
  | some false ↦ []
  | some true ↦
      publish p.device_id (record {
        relay_id = 1;
        duration_ms = lease / 1000000;
        request_id = t.new_request_id p.access_point_id;
        issued_by = "scheduler";
        issued_at = t.now_formatted;
      })
      ∷ []
]

abbrev pub started_event : OpenPoint → Event
started_event p = record no_event {
  event_type = "scheduled_open_started";
  actor = "scheduler";
  access_point_id = p.access_point_id;
  device_id = p.device_id;
  management_company_id = p.mc_id;
}

abbrev pub ended_event : String → Event
ended_event id = record no_event {
  event_type = "scheduled_open_ended";
  actor = "scheduler";
  access_point_id = id;
}

-- The loop over the open points: `open` is the map of the last tick.
unfoldable pub renew : ℕ → Tick → List String → List OpenPoint → List Effect
unfolding pulse
renew lease t open_ [] = []
renew lease t open_ (p ∷ ps) =
    let rest = append (pulse lease t p) (renew lease t open_ ps) in
    if has_key open_ p.access_point_id then rest else record_event (started_event p) ∷ rest

-- The loop over the map of the last tick.
unfoldable pub close_gone : List String → List String → List Effect
close_gone now_open [] = []
close_gone now_open (id ∷ ids) =
    let rest = close_gone now_open ids in
    if has_key now_open id then rest else record_event (ended_event id) ∷ rest

module _ (z : Zones) where
  -- The loop over the schedules.
  unfoldable pub open_points : ℕ → List OpenPoint → List DueRow → List OpenPoint
  open_points now ps [] = ps
  open_points now ps (d ∷ ds) =
      if active_at z d.sched now
      then open_points now
          (put_point ps (record {
            access_point_id = d.access_point_id;
            device_id = d.device_id;
            mc_id = d.mc_id;
          }))
          ds
      else open_points now ps ds

  -- A tick under the lock.
  unfoldable pub reconcile_due : ℕ → Tick → List String → List DueRow → List String × List Effect
  reconcile_due lease t open_ due =
      let points = open_points t.now [] due in
      (ids_of points, append (renew lease t open_ points) (close_gone (ids_of points) open_))

  unfoldable pub reconcile : ℕ → Tick → List String → List String × List Effect
  reconcile lease t open_ = elim (t.try_lock) [
    | none ↦ (open_, [])
    | some false ↦ (open_, [])
    | some true ↦ elim (t.due_all) [
      | none ↦ (open_, [])
      | some due ↦ reconcile_due lease t open_ due
    ]
  ]

-- The writes of the repository of schedules, and the recorder.
pub data Write : Type 0 where
  insert_schedule : String → String → Schedule → String → Write
  delete_schedule : String → String → Write
  record_write : Event → Write

pub record Env : Type 0 where
  pub resolve_point : String → String → Option (Option String)
  pub create_row : String → String → Schedule → String → Option String
  pub delete_row : String → String → Option Bool

-- The day of a schedule that was validated, which is not negative.
abbrev day_number : ℤ → ℕ
day_number (pos n) = n
day_number (negsuc n) = 0

-- Create, once the point is found.
insert_schedule_of : Env → Claims → String → Schedule → Result String × List Write
insert_schedule_of e claims ap_id sched =
    let asked = insert_schedule ap_id claims.mc_id sched claims.subject in
    elim (e.create_row ap_id claims.mc_id sched claims.subject) [
      | none ↦ (err internal_error, asked ∷ [])
      | some id ↦ (
        ok id,
        asked
            ∷ record_write (record no_event {
              event_type = "schedule_created";
              actor = "user:" ++ claims.subject;
              access_point_id = ap_id;
              management_company_id = claims.mc_id;
              metadata =
                  ("dow", number (day_number sched.dow))
                  ∷ ("opens", text sched.opens)
                  ∷ ("closes", text sched.closes)
                  ∷ ("tz", text sched.timezone)
                  ∷ [];
            })
            ∷ [],
      )
    ]

unfoldable pub create_schedule :
    Zones → Env → Claims → String → Schedule → Result String × List Write
unfolding insert_schedule_of
create_schedule z e claims public_id sched = elim (validate_schedule z sched) [
  | some refused ↦ (err refused, [])
  | none ↦ elim (e.resolve_point public_id claims.mc_id) [
    | none ↦ (err internal_error, [])
    | some none ↦ (err (new_error validation_error "Access point not found"), [])
    | some (some ap_id) ↦ insert_schedule_of e claims ap_id sched
  ]
]

unfoldable pub delete_schedule_of : Env → Claims → String → Option ApiError × List Write
delete_schedule_of e claims id =
    let asked = delete_schedule id claims.mc_id in
    elim (e.delete_row id claims.mc_id) [
      | none ↦ (some internal_error, asked ∷ [])
      | some false ↦ (some (new_error validation_error "Schedule not found"), asked ∷ [])
      | some true ↦ (
        none,
        asked
            ∷ record_write (record no_event {
              event_type = "schedule_deleted";
              actor = "user:" ++ claims.subject;
              management_company_id = claims.mc_id;
              metadata = ("schedule_id", text id) ∷ [];
            })
            ∷ [],
      )
    ]
