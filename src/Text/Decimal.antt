-- ===== src/Text/Decimal.antt =====
-- `strconv.Itoa`, `strconv.ParseInt(s, 10, bits)`, `strconv.Atoi` and `strconv.ParseBool`.
pub mod RoundTrip
use go_kube_downscaler.Prelude.{
  ℕ, zero, suc, ◌+◌, ◌-◌, ◌*◌, ◌/◌, ◌%◌, ◌^◌, Bool, true, false, ◌||◌, List, [], ◌∷◌, ltb, leb,
  ◌==◌, between, if◌then◌else◌, Option, none, some, ℤ, pos, negsuc, negate,
}
use go_kube_downscaler.Fault.{Result, ok, err, parse_failure}

-- The digits of `n` before `out`. Twenty digits hold every int64, so `itoa` gives that much fuel.
unfoldable pub digits : ℕ → ℕ → List ℕ → List ℕ
digits zero n out = out
digits (suc f) n out =
    let rest = digits f (n / 10) ((n % 10 + b'0') ∷ out) in
    if ltb n 10 then (n + b'0') ∷ out else rest

unfoldable pub itoa : ℤ → List ℕ
unfolding digits
itoa (pos n) = digits 20 n []
itoa (negsuc n) = b'-' ∷ digits 20 (suc n) []

-- The value of a run of digits after `n`. Go adds them up in a uint64 and reports an overflow as
-- a range error, which the limit below reports for the exact value.
unfoldable pub scan : List ℕ → ℕ → Option ℕ
scan [] n = some n
scan (c ∷ s) n =
    let rest = scan s (n * 10 + (c - b'0')) in if between b'0' b'9' c then rest else none

unfoldable pub magnitude : List ℕ → Option ℕ
unfolding scan
magnitude [] = none
magnitude (c ∷ s) = scan (c ∷ s) 0

unfoldable pub positive : ℕ → List ℕ → Option ℕ → Result ℤ
positive bits s none = err (parse_failure s)
positive bits s (some n) = if ltb n (2 ^ (bits - 1)) then ok (pos n) else err (parse_failure s)

unfoldable pub negative : ℕ → List ℕ → Option ℕ → Result ℤ
negative bits s none = err (parse_failure s)
negative bits s (some n) = if leb n (2 ^ (bits - 1)) then ok (negate n) else err (parse_failure s)

unfoldable pub parse_int : ℕ → List ℕ → Result ℤ
unfolding magnitude positive negative
parse_int bits [] = err (parse_failure [])
parse_int bits (c ∷ s) =
    if c == b'-'
    then negative bits (c ∷ s) (magnitude s)
    else if c == b'+'
    then positive bits (c ∷ s) (magnitude s)
    else positive bits (c ∷ s) (magnitude (c ∷ s))

abbrev pub atoi : List ℕ → Result ℤ
atoi s = parse_int 64 s
