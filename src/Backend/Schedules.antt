-- ===== src/Backend/Schedules.antt =====
-- backend/internal/schedules/schedule.go: one weekly window in which a point is kept open. The database
-- of time zones is a parameter; a location's clock is a function of the time.
pub mod Reconciler
pub mod Clock
pub mod Window
pub mod Count
pub mod Tick
use Prim.Native.Char.{Char, code}
use Prim.Native.String.{String, [], ◌∷◌}
use qr_domofon.Base.{
  ℕ, suc, ◌+◌, ◌-◌, ◌*◌, Bool, true, false, not, ◌&&◌, ◌||◌, Option, none, some, ltb, leb, ◌==◌,
  if◌then◌else◌, ◌>>=◌,
}
use qr_domofon.Base.Int.{ℤ, pos, negsuc}
use qr_domofon.Backend.Httpx.{ApiError, new_error, validation_error}

pub record Schedule : Type 0 where
  pub dow : ℤ
  pub opens : String
  pub closes : String
  pub timezone : String

-- A time on the clock of a place.
pub record Local : Type 0 where
  pub weekday : ℕ
  pub hour : ℕ
  pub minute : ℕ

pub record Zones : Type 1 where
  pub Location : Type 0
  pub load_location : String → Option Location
  pub at : Location → ℕ → Local

abbrev digit_of : Char → Option ℕ
digit_of c = if leb b'0' (code c) && leb (code c) b'9' then some (code c - b'0') else none

-- `getnum` of Go's time package: one digit or two, or exactly two.
abbrev second_digit : Bool → ℕ → Char → String → Option (ℕ × String)
second_digit fixed a d s = elim (digit_of d) [
  | none ↦ if fixed then none else some (a, d ∷ s)
  | some b ↦ some (a * 10 + b, s)
]

getnum : Bool → String → Option (ℕ × String)
getnum fixed [] = none
getnum fixed (c ∷ []) = elim (digit_of c) [
  | none ↦ none
  | some a ↦ if fixed then none else some (a, [])
]
getnum fixed (c ∷ d ∷ s) = elim (digit_of c) [ none ↦ none | some a ↦ second_digit fixed a d s ]

abbrev skip_colon : String → Option String
skip_colon [] = none
skip_colon (c ∷ s) = if code c == b':' then some s else none

abbrev is_empty : String → Bool
is_empty [] = true
is_empty (c ∷ s) = false

minutes_of : ℕ → ℕ → String → Option ℕ
minutes_of h m rest = if ltb h 24 && ltb m 60 && is_empty rest then some (h * 60 + m) else none

-- `time.Parse("15:04", v)`, in minutes from midnight.
unfoldable pub parse_hm : String → Option ℕ
unfolding getnum minutes_of
parse_hm v = do
  (h, s) ← getnum false v
  t ← skip_colon s
  (m, rest) ← getnum true t
  minutes_of h m rest

-- Equal to a number that is not negative.
abbrev pub is_pos : ℤ → ℕ → Bool
is_pos (pos n) m = n == m
is_pos (negsuc n) m = false

abbrev pub minute_of_day : Local → ℕ
minute_of_day l = l.hour * 60 + l.minute

abbrev pub within : Option ℕ → Option ℕ → ℕ → Bool
within (some opens) (some closes) mins = leb opens mins && ltb mins closes
within _ _ mins = false

abbrev dow_is_valid : ℤ → Bool
dow_is_valid (pos n) = leb n 6
dow_is_valid (negsuc n) = false

module _ (z : Zones) where
  open z use {load_location, at}

  unfoldable pub active_at : Schedule → ℕ → Bool
  active_at s now = elim (load_location s.timezone) [
    | none ↦ false
    | some loc ↦
        let local = at loc now in
        if not (is_pos s.dow local.weekday)
        then false
        else within (parse_hm s.opens) (parse_hm s.closes) (minute_of_day local)
  ]

  -- The checks after the two times were parsed.
  abbrev check_window : Schedule → ℕ → ℕ → Option ApiError
  check_window s opens closes =
      if leb closes opens
      then some (new_error validation_error "closes must be after opens")
      else elim (load_location s.timezone) [
        | none ↦ some (new_error validation_error "unknown timezone")
        | some _ ↦ none
      ]

  abbrev check_times : Schedule → Option ℕ → Option ℕ → Option ApiError
  check_times s (some opens) (some closes) = check_window s opens closes
  check_times s _ _ = some (new_error validation_error "opens/closes must be HH:MM")

  unfoldable pub validate_schedule : Schedule → Option ApiError
  validate_schedule s =
      if not (dow_is_valid s.dow)
      then some (new_error validation_error "dow must be 0..6")
      else check_times s (parse_hm s.opens) (parse_hm s.closes)
