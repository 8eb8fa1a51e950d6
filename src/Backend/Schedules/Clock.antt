-- ===== src/Backend/Schedules/Clock.antt =====
-- What the times of a schedule mean, parseHM of backend/internal/schedules/schedule.go.
use mathlib.Core.Path.{subst}
use Prim.Native.Char.{Char, code}
use Prim.Native.String.{String, [], ◌∷◌}
use qr_domofon.Base.{
  ℕ, ◌+◌, ◌*◌, ◌≤◌, ◌<◌, ◌≡◌, refl, ap, ◌∙◌, true, false, some, ◌⊎◌, inl, inr, arith, Option-cases,
  bind-some,
}
use qr_domofon.Backend.Schedules.{parse_hm, minutes_of, getnum, skip_colon, digit_of, is_empty}

-- A decimal digit and its value.
abbrev pub Digit : Char → ℕ → Type 0
Digit c n = (code c ≡ b'0' + n) × (n ≤ 9)

-- A text that begins with a number of one or two digits.
abbrev pub Number : String → ℕ → String → Type 0
Number v n rest =
    ((c : Char) × (v ≡ c ∷ rest) × Digit c n)
    ⊎ ((c : Char) × (d : Char) × (tens : ℕ) × (ones : ℕ) × (v ≡ c ∷ (d ∷ rest))
        × Digit c tens
        × Digit d ones
        × (n ≡ tens * 10 + ones))

-- A time of the day: one or two digits of the hour, a colon and two digits of the minute.
pub record IsTime (v : String) (mins : ℕ) : Type 0 where
  pub hour : ℕ
  pub minute : ℕ
  pub colon : Char
  pub first : Char
  pub second : Char
  pub tens : ℕ
  pub ones : ℕ
  pub hours : Number v hour (colon ∷ (first ∷ (second ∷ [])))
  pub colon_lem : code colon ≡ b':'
  pub first_lem : Digit first tens
  pub second_lem : Digit second ones
  pub minute_lem : minute ≡ tens * 10 + ones
  pub in_day : (hour < 24) × (minute < 60)
  pub total : mins ≡ hour * 60 + minute

digit_lem : (c : Char) (n : ℕ) → digit_of c ≡ some n → Digit c n
digit_lem c n h = (ground arith, ground arith)

getnum-Number :
    (v : String) (n : ℕ) (rest : String) → getnum false v ≡ some (n, rest) → Number v n rest
unfolding getnum
getnum-Number [] n rest h = absurd (ground arith)
getnum-Number (c ∷ []) n rest h = elim (Option-cases (digit_of c)) [
  | inl none_there ↦ absurd (ground arith)
  | inr (a, is) ↦
      let left : [] ≡ rest = ground arith in
      let same : a ≡ n = ground arith in
      inl (c, ap (λ r. c ∷ r) left, digit_lem c n (is ∙ ap (λ k. some k) same))
]
getnum-Number (c ∷ (d ∷ s)) n rest h = elim (Option-cases (digit_of c)) [
  | inl none_there ↦ absurd (ground arith)
  | inr (a, is) ↦ elim (Option-cases (digit_of d)) [
    | inl single ↦
        let left : (d ∷ s) ≡ rest = ground arith in
        let same : a ≡ n = ground arith in
        inl (c, ap (λ r. c ∷ r) left, digit_lem c n (is ∙ ap (λ k. some k) same))
    | inr (b, too) ↦
        let left : s ≡ rest = ground arith in
        inr (
          c,
          d,
          a,
          b,
          ap (λ r. c ∷ (d ∷ r)) left,
          digit_lem c a is,
          digit_lem d b too,
          ground arith,
        )
  ]
]

abbrev pub TwoDigits : String → ℕ → String → Type 0
TwoDigits v n rest =
    (c : Char) × (d : Char) × (tens : ℕ) × (ones : ℕ) × (v ≡ c ∷ (d ∷ rest))
    × Digit c tens
    × Digit d ones
    × (n ≡ tens * 10 + ones)

getnum-TwoDigits :
    (v : String) (n : ℕ) (rest : String) → getnum true v ≡ some (n, rest) → TwoDigits v n rest
unfolding getnum
getnum-TwoDigits [] n rest h = absurd (ground arith)
getnum-TwoDigits (c ∷ []) n rest h = absurd (ground arith)
getnum-TwoDigits (c ∷ (d ∷ s)) n rest h = elim (Option-cases (digit_of c)) [
  | inl none_there ↦ absurd (ground arith)
  | inr (a, is) ↦ elim (Option-cases (digit_of d)) [
    | inl single ↦ absurd (ground arith)
    | inr (b, too) ↦
        let left : s ≡ rest = ground arith in
        (c, d, a, b, ap (λ r. c ∷ (d ∷ r)) left, digit_lem c a is, digit_lem d b too, ground arith)
  ]
]

skip_colon_lem : (s t : String) → skip_colon s ≡ some t → (c : Char) × (s ≡ c ∷ t) × (code c ≡ b':')
skip_colon_lem [] t h = absurd (ground arith)
skip_colon_lem (c ∷ s) t h =
    let left : s ≡ t = ground arith in (c, ap (λ r. c ∷ r) left, ground arith)

is_empty_lem : (s : String) → is_empty s ≡ true → s ≡ []
is_empty_lem [] h = refl
is_empty_lem (c ∷ s) h = absurd (ground arith)

minutes_of_lem :
    (h m mins : ℕ) (rest : String)
    → minutes_of h m rest ≡ some mins
    → (h < 24) × (m < 60) × (rest ≡ []) × (mins ≡ h * 60 + m)
unfolding minutes_of
minutes_of_lem h m mins rest e =
    (ground arith, ground arith, is_empty_lem rest (ground arith), ground arith)

-- What parses is a time of the day, and its minutes from midnight.
pub parse_hm-IsTime : (v : String) (mins : ℕ) → parse_hm v ≡ some mins → IsTime v mins
unfolding parse_hm
parse_hm-IsTime v mins e =
    let ((h, s), number, e₁) = bind-some (getnum false v) _ mins e in
    let (t, skipped, e₂) = bind-some (skip_colon s) _ mins e₁ in
    let ((m, rest), two, e₃) = bind-some (getnum true t) _ mins e₂ in
    let (early, late, nothing, total) = minutes_of_lem h m mins rest e₃ in
    let (colon, after_hour, is_colon) = skip_colon_lem s t skipped in
    let (first, second, tens, ones, text, one, other, value) = getnum-TwoDigits t m rest two in
    let whole : s ≡ colon ∷ (first ∷ (second ∷ [])) =
      after_hour ∙ ap (λ r. colon ∷ r) (text ∙ ap (λ r. first ∷ (second ∷ r)) nothing) in
    record {
      hour = h;
      minute = m;
      colon = colon;
      first = first;
      second = second;
      tens = tens;
      ones = ones;
      hours = subst (Number v h) whole (getnum-Number v h s number);
      colon_lem = is_colon;
      first_lem = one;
      second_lem = other;
      minute_lem = value;
      in_day = (early, late);
      total = total;
    }
