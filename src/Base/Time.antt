-- ===== src/Base/Time.antt =====
-- Go's time.Time and time.Duration. A time is the number of nanoseconds since Go's zero time,
-- which is the time 0 here; a duration is a signed number of nanoseconds.
use Prim.Native.Nat.{ℕ, suc, ◌+◌, ◌-◌, ◌*◌, ◌^◌}
use qr_domofon.Base.Int.{ℤ, pos, negsuc}
use qr_domofon.Base.Tests.{ltb, leb, if◌then◌else◌}

abbrev pub second : ℕ
second = 1_000_000_000

abbrev pub minute : ℕ
minute = 60 * second

abbrev pub hour : ℕ
hour = 60 * minute

abbrev pub day : ℕ
day = 24 * hour

-- `t.Sub(u)`: a difference that is no int64 is the greatest one, or the least.
unfoldable pub sub : ℕ → ℕ → ℤ
sub t u =
    if leb u t
    then (if ltb (t - u) (2 ^ 63) then pos (t - u) else pos (2 ^ 63 - 1))
    else if leb (u - t) (2 ^ 63)
    then negsuc (u - t - 1)
    else negsuc (2 ^ 63 - 1)

-- `t.Add(d)`. A time before the zero time is cut to it: no time is before that.
abbrev pub add : ℕ → ℤ → ℕ
add t (pos d) = t + d
add t (negsuc d) = t - suc d
