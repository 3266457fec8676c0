-- ===== src/Text/Decimal/RoundTrip.antt =====
-- Reading back a printed integer.
use go_kube_downscaler.Prelude.{
  ℕ, zero, suc, ◌+◌, ◌-◌, ◌*◌, ◌/◌, ◌%◌, ◌^◌, ◌<◌, ◌≤◌, ◌≡◌, inl, inr, List, [], ◌∷◌, arith, ltb,
  ◌∙◌, ap, some, ℤ, pos, negsuc, pos_part, neg_part, Bool-cases,
}
use native.Mathlib.Nat.{pow-suc}
use go_kube_downscaler.Fault.{ok}
use go_kube_downscaler.Text.Decimal.{digits, itoa, scan, magnitude, parse_int}

scan_digit : (n m : ℕ) (out : List ℕ) → m < 10 → scan ((m + 48) ∷ out) n ≡ scan out (n * 10 + m)
unfolding scan
scan_digit n m out h = ground arith

tenth : (f n : ℕ) → n < 10 ^ suc f → n / 10 < 10 ^ f
tenth f n h = omega (arith, pow-suc 10 f)

pub scan-digits : (f n : ℕ) (out : List ℕ) → n < 10 ^ f → scan (digits f n out) 0 ≡ scan out n
unfolding digits
scan-digits zero n out h = let e : n ≡ 0 = omega arith in rw e
scan-digits (suc f) n out h = elim (Bool-cases (ltb n 10)) [
  | inl few ↦ rw few (scan_digit 0 n out (ground arith) ∙ ap (scan out) (omega arith))
  | inr many ↦ rw many (
      scan-digits f (n / 10) ((n % 10 + 48) ∷ out) (tenth f n h)
      ∙ scan_digit (n / 10) (n % 10) out (omega arith)
      ∙ ap (scan out) (omega arith))
]

-- A printed number starts with a digit.
pub digits_head :
    (f n : ℕ) (out : List ℕ) → (c : ℕ) × (s : List ℕ) × (digits (suc f) n out ≡ c ∷ s) × (48 ≤ c)
unfolding digits
digits_head zero n out = elim (Bool-cases (ltb n 10)) [
  | inl few ↦ (n + 48, out, rw few, omega arith)
  | inr many ↦ (n % 10 + 48, out, rw many, omega arith)
]
digits_head (suc f) n out = elim (Bool-cases (ltb n 10)) [
  | inl few ↦ (n + 48, out, rw few, omega arith)
  | inr many ↦ rw many (digits_head f (n / 10) ((n % 10 + 48) ∷ out))
]

magnitude-cons : (t s : List ℕ) (c : ℕ) → t ≡ c ∷ s → magnitude t ≡ scan t 0
unfolding magnitude
magnitude-cons t s c e = rw e

pub magnitude-digits : (n : ℕ) → n < 10 ^ 20 → magnitude (digits 20 n []) ≡ some n
unfolding scan
magnitude-digits n h =
    let (c, s, e, large) = digits_head 19 n [] in
    magnitude-cons (digits 20 n []) s c e ∙ scan-digits 20 n [] h

-- The values of a signed integer of `bits` bits.
abbrev pub IsWord : ℕ → ℤ → Type 0
IsWord bits z = (pos_part z < 2 ^ (bits - 1)) × (neg_part z ≤ 2 ^ (bits - 1))

parse_int-digit :
    (bits n c : ℕ) (s t : List ℕ)
    → t ≡ c ∷ s
    → 48 ≤ c
    → magnitude t ≡ some n
    → n < 2 ^ (bits - 1)
    → parse_int bits t ≡ ok (pos n)
unfolding parse_int
parse_int-digit bits n c s t e large m k = rw e (let m' = rw e at m in rw m' (ground arith))

parse_int-digits :
    (bits n : ℕ) → n < 10 ^ 20 → n < 2 ^ (bits - 1) → parse_int bits (digits 20 n []) ≡ ok (pos n)
parse_int-digits bits n h k =
    let (c, s, e, large) = digits_head 19 n [] in
    parse_int-digit bits n c s (digits 20 n []) e large (magnitude-digits n h) k

parse_int-minus :
    (bits n : ℕ)
    → suc n < 10 ^ 20
    → suc n ≤ 2 ^ (bits - 1)
    → parse_int bits (45 ∷ digits 20 (suc n) []) ≡ ok (negsuc n)
unfolding parse_int
parse_int-minus bits n h k = rw (magnitude-digits (suc n) h) (ground arith)

-- `ParseInt(Itoa(z), 10, bits)` gives `z` back, for every integer of that many bits.
pub parse_int-itoa :
    (bits : ℕ) (z : ℤ) → 2 ^ (bits - 1) < 10 ^ 20 → IsWord bits z → parse_int bits (itoa z) ≡ ok z
unfolding itoa
parse_int-itoa bits (pos n) b h = parse_int-digits bits n (omega arith) h.0
parse_int-itoa bits (negsuc n) b h = parse_int-minus bits n (omega arith) h.1
