-- ===== src/Backend/Tests/Schedules.antt =====
-- Runs of backend/internal/schedules, in a place where it is always Monday, 10:00.
use qr_domofon.Base.{
  ℕ, ◌+◌, ◌≤◌, ◌<◌, ◌≡◌, ◌↔◌, refl, true, none, some, [], ◌∷◌, str_eq, if◌then◌else◌,
}
use qr_domofon.Base.Int.{pos}
use qr_domofon.Backend.Schedules.{
  Schedule, Zones, minute_of_day, active_at, validate_schedule, parse_hm,
}
use qr_domofon.Backend.Schedules.Clock.{IsTime}
use qr_domofon.Backend.Schedules.Window.{validate_schedule-active_at}
use qr_domofon.Backend.Schedules.Reconciler.{Tick, DueRow}
use qr_domofon.Backend.Schedules.Count.{starts, ends, open_bit}
use qr_domofon.Backend.Schedules.Tick.{run, run-starts}

abbrev zones : Zones
zones = record {
  Location = Unit;
  load_location = λ name. if str_eq name "Asia/Almaty" then some tt else none;
  at = λ loc now. record { weekday = 1; hour = 10; minute = 0 };
}

abbrev morning : Schedule
morning = record { dow = pos 1; opens = "9:30"; closes = "12:00"; timezone = "Asia/Almaty" }

morning-active_at_example :
    (opens : ℕ) × (closes : ℕ) × (loc : Unit) × IsTime morning.opens opens
    × IsTime morning.closes closes
    × (zones.load_location morning.timezone ≡ some loc)
    × (opens < closes)
    × (closes < 1440)
    × ((now : ℕ)
        → (active_at zones morning now ≡ true) ↔ (
            (morning.dow ≡ pos ((zones.at loc now).weekday))
            × (opens ≤ minute_of_day (zones.at loc now))
            × (minute_of_day (zones.at loc now) < closes)))
unfolding validate_schedule parse_hm
morning-active_at_example = validate_schedule-active_at zones morning refl

-- One hour digit is enough.
half_past_nine : parse_hm "9:30" ≡ some 570
unfolding parse_hm
half_past_nine = refl

abbrev gate : DueRow
gate = record { access_point_id = "p1"; device_id = "d1"; mc_id = "m1"; sched = morning }

abbrev open_tick : Tick
open_tick = record {
  try_lock = some true;
  due_all = some (gate ∷ gate ∷ []);
  now = 0;
  is_online = λ d. some true;
  new_request_id = λ p. "r1";
  now_formatted = "2026-01-05T10:00:00Z";
}

abbrev closed_tick : Tick
closed_tick = record open_tick { due_all = some [] }

run-starts_example :
    (let (open_, fs) = run zones 90000000000 (open_tick ∷ open_tick ∷ closed_tick ∷ []) [] in
      starts "p1" fs ≡ ends "p1" fs + open_bit "p1" open_)
run-starts_example = run-starts zones "p1" 90000000000 (open_tick ∷ open_tick ∷ closed_tick ∷ [])
