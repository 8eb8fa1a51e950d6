-- ===== src/Backend/Schedules/Window.antt =====
-- When a schedule that passed its validation is active.
use qr_domofon.Base.{
  ℕ, ◌≤◌, ◌<◌, ◌≡◌, ◌↔◌, ap, true, false, none, some, arith, Option-cases, inl, inr, not,
  if◌then◌else◌, bind-some,
}
use Prim.Native.String.{String}
use qr_domofon.Base.Int.{ℤ, pos, negsuc}
use qr_domofon.Backend.Schedules.Clock.{IsTime, parse_hm-IsTime}
use qr_domofon.Backend.Schedules.{
  Schedule, Zones, parse_hm, minutes_of, minute_of_day, getnum, skip_colon, active_at,
  validate_schedule, is_pos, within,
}

minutes_of-day : (h m mins : ℕ) (rest : String) → minutes_of h m rest ≡ some mins → mins < 1440
unfolding minutes_of
minutes_of-day h m mins rest e = ground arith

parse_hm-day : (v : String) (mins : ℕ) → parse_hm v ≡ some mins → mins < 1440
unfolding parse_hm
parse_hm-day v mins e =
    let ((h, t), _, e₁) = bind-some (getnum false v) _ mins e in
    let (u, _, e₂) = bind-some (skip_colon t) _ mins e₁ in
    let ((m, rest), _, e₃) = bind-some (getnum true u) _ mins e₂ in minutes_of-day h m mins rest e₃

is_pos_iff : (n : ℤ) (m : ℕ) → (is_pos n m ≡ true) ↔ (n ≡ pos m)
is_pos_iff (pos n) m = (λ h. ap (λ k. pos k) (ground arith), λ h. ground arith)
is_pos_iff (negsuc n) m = (λ h. absurd (ground arith), λ h. ground arith)

-- The day and the minute that are active in a place.
active_iff :
    (z : Zones) (s : Schedule) (opens closes : ℕ) (loc : z.Location)
    → parse_hm s.opens ≡ some opens
    → parse_hm s.closes ≡ some closes
    → z.load_location s.timezone ≡ some loc
    → (now : ℕ)
    → (active_at z s now ≡ true) ↔ (
        (s.dow ≡ pos ((z.at loc now).weekday))
        × (opens ≤ minute_of_day (z.at loc now))
        × (minute_of_day (z.at loc now) < closes))
unfolding active_at
active_iff z s opens closes loc o c l now =
    rw (l, active_at, o, c) (there (is_pos_iff s.dow (z.at loc now).weekday))
  where
    there :
        (is_pos s.dow (z.at loc now).weekday ≡ true) ↔ (s.dow ≡ pos ((z.at loc now).weekday))
        → ((if not (is_pos s.dow (z.at loc now).weekday)
              then false
              else within (some opens) (some closes) (minute_of_day (z.at loc now)))
            ≡ true)
          ↔ ((s.dow ≡ pos ((z.at loc now).weekday))
              × (opens ≤ minute_of_day (z.at loc now))
              × (minute_of_day (z.at loc now) < closes))
    there day = (
      λ h. (day.0 (ground arith), ground arith, ground arith),
      λ (d, lo, hi). let same = day.1 d in ground arith,
    )

-- A schedule that validation lets through has the times of the day that its two texts write, the
-- first before the second, and a zone that is known; and it is active at a time exactly when in
-- that zone the weekday is its own and the minute of the day is from the first time on and before
-- the second.
pub validate_schedule-active_at :
    (z : Zones) (s : Schedule)
    → validate_schedule z s ≡ none
    → (opens : ℕ) × (closes : ℕ) × (loc : z.Location) × IsTime s.opens opens
      × IsTime s.closes closes
      × (z.load_location s.timezone ≡ some loc)
      × (opens < closes)
      × (closes < 1440)
      × ((now : ℕ)
          → (active_at z s now ≡ true) ↔ (
              (s.dow ≡ pos ((z.at loc now).weekday))
              × (opens ≤ minute_of_day (z.at loc now))
              × (minute_of_day (z.at loc now) < closes)))
unfolding validate_schedule active_at
validate_schedule-active_at z s h = elim (Option-cases (parse_hm s.opens)) [
  | inl lost ↦ absurd (ground arith)
  | inr (opens, o) ↦ elim (Option-cases (parse_hm s.closes)) [
    | inl lost ↦ absurd (ground arith)
    | inr (closes, c) ↦ elim (Option-cases (z.load_location s.timezone)) [
      | inl lost ↦ absurd (ground arith)
      | inr (loc, l) ↦ (
        opens,
        closes,
        loc,
        parse_hm-IsTime s.opens opens o,
        parse_hm-IsTime s.closes closes c,
        l,
        ground arith,
        parse_hm-day s.closes closes c,
        active_iff z s opens closes loc o c l,
      )
    ]
  ]
]
