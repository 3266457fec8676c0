-- ===== src/Time/Duration.antt =====
-- `time.ParseDuration`, and the wrap-around of Go's int64.
--
-- The source rounds the worth of a fraction in float64; it is cut down to a whole nanosecond here.
use go_kube_downscaler.Prelude.{
  ℕ, zero, suc, ◌+◌, ◌-◌, ◌*◌, ◌/◌, ◌^◌, Bool, true, false, ◌||◌, [], ◌∷◌, Option, none, some, ltb,
  between, ◌==◌, if◌then◌else◌, ℤ, pos, negate, sub_ℕ, ◌+ℤ◌, mod_floor,
}
use go_kube_downscaler.Fault.{Result, ok, err, parse_failure}
use go_kube_downscaler.Text.{Text, codes, text_eq}
use go_kube_downscaler.Time.{second}

-- The value that an int64 result wraps to.
abbrev pub wrap64 : ℤ → ℤ
wrap64 a = sub_ℕ (mod_floor (a +ℤ pos (2 ^ 63)) (2 ^ 64)) (2 ^ 63)

abbrev is_digit : ℕ → Bool
is_digit c = between b'0' b'9' c

-- The longest run of digits at the start, and the rest.
digits_and_rest : Text → Text × Text
digits_and_rest [] = ([], [])
digits_and_rest (c ∷ s) =
    let (d, r) = digits_and_rest s in if is_digit c then (c ∷ d, r) else ([], c ∷ s)

-- `leadingInt`: the value, or `none` beyond 2 ^ 63.
leading_int : Text → ℕ → Option ℕ
leading_int [] n = some n
leading_int (c ∷ s) n =
    let next = n * 10 + (c - b'0') in
    let rest = leading_int s next in
    if ltb ((2 ^ 63) / 10) n || ltb (2 ^ 63) next then none else rest

-- `leadingFraction`: the value and the scale of the digits that fit; the others are read over.
leading_fraction : Text → ℕ → ℕ → ℕ × ℕ
leading_fraction [] n scale = (n, scale)
leading_fraction (c ∷ s) n scale =
    let next = n * 10 + (c - b'0') in
    let rest = leading_fraction s next (scale * 10) in
    if ltb ((2 ^ 63 - 1) / 10) n || ltb (2 ^ 63) next then (n, scale) else rest

-- The unit: everything up to a point or a digit.
unit_and_rest : Text → Text × Text
unit_and_rest [] = ([], [])
unit_and_rest (c ∷ s) =
    let (u, r) = unit_and_rest s in if c == b'.' || is_digit c then ([], c ∷ s) else (c ∷ u, r)

-- `unitMap`, in nanoseconds. The Greek letter mu of one of its spellings is outside Latin-1.
unit_of : Text → Option ℕ
unit_of u =
    if text_eq u (codes "ns")
    then some 1
    else if text_eq u (codes "us") || text_eq u (181 ∷ b's' ∷ [])
    then some 1000
    else if text_eq u (codes "ms")
    then some 1000000
    else if text_eq u (codes "s")
    then some second
    else if text_eq u (codes "m")
    then some (60 * second)
    else if text_eq u (codes "h")
    then some (3600 * second)
    else none

-- The digits behind a point, `none` if there is no point.
after_point : Text → Option Text × Text
unfolding digits_and_rest
after_point [] = (none, [])
after_point (c ∷ s) =
    let (d, r) = digits_and_rest s in if c == b'.' then (some d, r) else (none, c ∷ s)

abbrev fraction_of : Option Text → ℕ × ℕ
fraction_of none = (0, 1)
fraction_of (some d) = leading_fraction d 0 1

abbrev has_digits : Text → Option Text → Bool
has_digits [] none = false
has_digits [] (some []) = false
has_digits _ _ = true

worth : Option ℕ → Option ℕ → ℕ × ℕ → Option ℕ
worth none u f = none
worth (some v) none f = none
worth (some v) (some u) (f, scale) =
    let total = v * u + f * u / scale in
    if ltb (2 ^ 63 / u) v || ltb (2 ^ 63) total then none else some total

-- One number with its unit, and what follows.
term : Text → Option ℕ × Text
unfolding digits_and_rest after_point unit_and_rest leading_int unit_of worth leading_fraction
term s =
    let (whole, a) = digits_and_rest s in
    let (fraction, b) = after_point a in
    let (u, rest) = unit_and_rest b in
    (
      (if has_digits whole fraction
          then worth (leading_int whole 0) (unit_of u) (fraction_of fraction)
          else none),
      rest,
    )

-- The sum of the terms. A term takes at least one character, so the length of the text is enough
-- fuel.
terms : ℕ → Text → ℕ → Option ℕ
unfolding term
terms fuel [] d = some d
terms zero (c ∷ s) d = none
terms (suc fuel) (c ∷ s) d =
    let (value, rest) = term (c ∷ s) in
    elim value [
      | none ↦ none
      | some v ↦ let more = terms fuel rest (d + v) in if ltb (2 ^ 63) (d + v) then none else more
    ]

count : Text → ℕ
count [] = 0
count (c ∷ s) = suc (count s)

magnitude : Text → Option ℕ
unfolding terms count
magnitude [] = none
magnitude (c ∷ s) = if text_eq (c ∷ s) (codes "0") then some 0 else terms (count (c ∷ s)) (c ∷ s) 0

positive : Text → Option ℕ → Result ℤ
positive text none = err (parse_failure text)
positive text (some d) = if ltb d (2 ^ 63) then ok (pos d) else err (parse_failure text)

negative : Text → Option ℕ → Result ℤ
negative text none = err (parse_failure text)
negative text (some d) = ok (negate d)

unfoldable pub parse_duration : Text → Result ℤ
unfolding magnitude positive negative
parse_duration [] = err (parse_failure [])
parse_duration (c ∷ s) =
    if c == b'-'
    then negative (c ∷ s) (magnitude s)
    else if c == b'+'
    then positive (c ∷ s) (magnitude s)
    else positive (c ∷ s) (magnitude (c ∷ s))
