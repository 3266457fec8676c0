-- ===== src/Time.antt =====
-- The parts of Go's `time` package that the program calls: `time.Parse` for RFC 3339 timestamps,
-- the readings of a wall clock in a location, and comparisons of instants.
--
-- An instant is the number of nanoseconds since 1970-01-01T00:00:00Z. A location is what the
-- time-zone database says of it: the offset from UTC, in seconds, at each instant.
pub mod Duration
pub mod Tests
use go_kube_downscaler.Prelude.{
  ℕ, zero, suc, ◌+◌, ◌-◌, ◌*◌, ◌/◌, ◌%◌, ◌^◌, Bool, true, false, ◌&&◌, ◌||◌, List, [], ◌∷◌, Option,
  none, some, ltb, leb, ◌==◌, between, if◌then◌else◌, ℤ, pos, negsuc, sub_ℕ, ◌+ℤ◌, ◌-ℤ◌, ◌*ℤ◌,
  div_floor, mod_floor, not,
}
use go_kube_downscaler.Fault.{Result, ok, err, parse_failure}

pub record Location : Type 0 where
  pub offset : ℤ → ℤ

abbrev pub second : ℕ
second = 1000000000

-- The seconds that a clock in the location shows at an instant, since 1970-01-01T00:00:00 there.
unfoldable pub local_seconds : Location → ℤ → ℤ
local_seconds loc t = div_floor t second +ℤ loc.offset t

-- `t.In(loc).Weekday()`: Sunday is 0, and 1970-01-01 was a Thursday.
unfoldable pub weekday : Location → ℤ → ℕ
weekday loc t = mod_floor (div_floor (local_seconds loc t) 86400 +ℤ pos 4) 7

unfoldable pub second_of_day : Location → ℤ → ℕ
second_of_day loc t = mod_floor (local_seconds loc t) 86400

-- `t.In(loc).Hour()` and `t.In(loc).Minute()`.
unfoldable pub hour : Location → ℤ → ℕ
unfolding second_of_day
hour loc t = second_of_day loc t / 3600

unfoldable pub minute : Location → ℤ → ℕ
unfolding second_of_day
minute loc t = second_of_day loc t % 3600 / 60

-- The reader of `time.Parse(time.RFC3339, …)`: what is left of the text after each field.
abbrev Reader : Type 0 → Type 0
Reader A = List ℕ → Option (A × List ℕ)

infixl 5 ◌>>=◌
abbrev ◌>>=◌ : {A B : Type 0} → Reader A → (A → Reader B) → Reader B
◌>>=◌ m f s = elim (m s) [ none ↦ none | some (a, rest) ↦ f a rest ]

infixl 5 ◌>>◌
abbrev ◌>>◌ : {B : Type 0} → Reader (Unit {0}) → Reader B → Reader B
m >> k = m >>= λ _. k

abbrev give : {A : Type 0} → A → Reader A
give a s = some (a, s)

abbrev is_digit : ℕ → Bool
is_digit c = between b'0' b'9' c

expect : ℕ → Reader (Unit {0})
expect d [] = none
expect d (c ∷ s) = if c == d then some (tt, s) else none

check : Bool → Reader (Unit {0})
check true s = some (tt, s)
check false s = none

digit : Reader ℕ
digit [] = none
digit (c ∷ s) = if is_digit c then some (c - b'0', s) else none

-- `getnum(value, true)`.
two_digits : Reader ℕ
unfolding digit
two_digits = do a ← digit; b ← digit; give (a * 10 + b)

-- `getnum(value, false)`: a second digit is read if there is one.
second_digit : ℕ → List ℕ → Option (ℕ × List ℕ)
second_digit a [] = some (a, [])
second_digit a (c ∷ s) = if is_digit c then some (a * 10 + (c - b'0'), s) else some (a, c ∷ s)

one_or_two_digits : Reader ℕ
unfolding digit second_digit
one_or_two_digits = do a ← digit; second_digit a

-- Up to nine digits of a fraction count, the others are read over; `unit` is worth the next digit.
fraction_digits : ℕ → ℕ → Reader ℕ
fraction_digits unit n [] = some (n, [])
fraction_digits unit n (c ∷ s) =
    let rest = fraction_digits (unit / 10) (n + (c - b'0') * unit) s in
    if is_digit c then rest else some (n, c ∷ s)

-- A fraction after the seconds: a point or a comma with a digit behind it.
fraction : Reader ℕ
unfolding fraction_digits
fraction [] = some (0, [])
fraction (p ∷ []) = some (0, p ∷ [])
fraction (p ∷ c ∷ s) =
    if (p == b'.' || p == b',') && is_digit c
    then fraction_digits 100000000 0 (c ∷ s)
    else some (0, p ∷ c ∷ s)

-- The offset in seconds, as what is added and what is taken away to get UTC.
zone_digits : Reader ℕ
unfolding two_digits expect check
zone_digits = do
  hr ← two_digits
  expect b':'
  mm ← two_digits
  check (leb hr 24 && leb mm 60)
  give ((hr * 60 + mm) * 60)

zone : Reader ℤ
unfolding zone_digits
zone [] = none
zone (c ∷ s) =
    if c == b'Z'
    then some (pos 0, s)
    else if c == b'+'
    then (zone_digits >>= λ z. give (pos z)) s
    else if c == b'-'
    then (zone_digits >>= λ z. give (sub_ℕ 0 z)) s
    else none

is_leap : ℕ → Bool
is_leap y = y % 4 == 0 && (not (y % 100 == 0) || y % 400 == 0)

days_in : ℕ → ℕ → ℕ
unfolding is_leap
days_in y m =
    if m == 2
    then (if is_leap y then 29 else 28)
    else if m == 4 || m == 6 || m == 9 || m == 11
    then 30
    else 31

days_before_month : ℕ → ℕ → ℕ
unfolding days_in
days_before_month y zero = 0
days_before_month y (suc zero) = 0
days_before_month y (suc (suc m)) = days_before_month y (suc m) + days_in y (suc m)

-- Days from 0000-01-01, in the proleptic Gregorian calendar.
days_before : ℕ → ℕ → ℕ → ℕ
unfolding days_before_month
days_before y m d =
    365 * y + (y + 3) / 4 - (y + 99) / 100 + (y + 399) / 400 + days_before_month y m + (d - 1)

abbrev epoch_days : ℕ
epoch_days = 719528

date_time : Reader ℤ
unfolding two_digits expect check one_or_two_digits fraction zone days_in days_before
date_time = do
  century ← two_digits
  year_of ← two_digits
  let year = century * 100 + year_of
  expect b'-'
  month ← two_digits
  check (between 1 12 month)
  expect b'-'
  day ← two_digits
  expect b'T'
  hours ← one_or_two_digits
  check (ltb hours 24)
  expect b':'
  minutes ← two_digits
  check (ltb minutes 60)
  expect b':'
  seconds ← two_digits
  check (ltb seconds 60)
  nanos ← fraction
  ahead ← zone
  check (between 1 (days_in year month) day)
  let days = days_before year month day
  give (
      (sub_ℕ (days * 86400 + hours * 3600 + minutes * 60 + seconds) (epoch_days * 86400) -ℤ ahead)
        *ℤ pos second
      +ℤ pos nanos)

finish : List ℕ → Option (ℤ × List ℕ) → Result ℤ
finish text none = err (parse_failure text)
finish text (some (t, [])) = ok t
finish text (some (t, c ∷ s)) = err (parse_failure text)

-- `time.Parse(time.RFC3339, text)`.
unfoldable pub parse_rfc3339 : List ℕ → Result ℤ
unfolding date_time finish
parse_rfc3339 text = finish text (date_time text)
