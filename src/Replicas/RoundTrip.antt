-- ===== src/Replicas/RoundTrip.antt =====
-- What `Set` makes of a printed replica value.
use go_kube_downscaler.Prelude.{
  ℕ, ◌+◌, ◌*◌, ◌-◌, ◌≤◌, ◌≡◌, refl, ap, ◌∙◌, true, false, [], ◌∷◌, ◌++◌, ℤ, pos, negsuc, IsInt32,
  ◌≤ℤ◌, arith, none, inl, inr, Bool-cases,
}
use go_kube_downscaler.Fault.{ok, err, is_ok, invalid_replica_type, replica_format_not_matched}
use go_kube_downscaler.Text.{
  Text, text_eq, text_eq→eq, is_letter, is_alpha, to_lower, cut_suffix, cut_prefix, rev, trim_space,
}
use go_kube_downscaler.Text.Laws.{cut_suffix-snoc, cut_suffix-letters, is_alpha-to_lower}
use go_kube_downscaler.Text.Decimal.{itoa, scan, magnitude, parse_int}
use go_kube_downscaler.Text.Decimal.RoundTrip.{parse_int-itoa}
use go_kube_downscaler.Replicas.{
  Replicas, absolute, percentage, boolean, string, undefined, set, set_string, to_text,
  parse_absolute_replicas, parse_percentage_replicas, parse_boolean_replicas, is_boolean_string,
  true_text, false_text, trimmed_percentage, check_percentage,
}

scan-percent : (s : Text) (n : ℕ) → scan (s ++ 37 ∷ []) n ≡ none
unfolding scan
scan-percent [] n = refl
scan-percent (c ∷ s) n = ground (arith, scan-percent s (n * 10 + (c - 48)))

magnitude-percent : (s : Text) → magnitude (s ++ 37 ∷ []) ≡ none
unfolding magnitude
magnitude-percent [] = scan-percent [] 0
magnitude-percent (c ∷ s) = scan-percent (c ∷ s) 0

parse_int-percent : (bits : ℕ) (s : Text) → is_ok (parse_int bits (s ++ 37 ∷ [])) ≡ false
unfolding parse_int magnitude scan
parse_int-percent bits [] = refl
parse_int-percent bits (c ∷ s) = ground (arith, magnitude-percent s, magnitude-percent (c ∷ s))

not_absolute :
    (s : Text)
    → is_ok (parse_int 32 s) ≡ false
    → parse_absolute_replicas s ≡ err replica_format_not_matched
unfolding parse_absolute_replicas
not_absolute s h = ground arith

-- A text that starts with a letter is no integer.
parse_int-letter :
    (bits c : ℕ) (s : Text) → is_letter c ≡ true → is_ok (parse_int bits (c ∷ s)) ≡ false
unfolding parse_int magnitude scan is_letter
parse_int-letter bits c s h = ground arith

parse_int-letters : (bits : ℕ) (s : Text) → is_alpha s ≡ true → is_ok (parse_int bits s) ≡ false
unfolding is_alpha
parse_int-letters bits [] h = unfold parse_int in refl
parse_int-letters bits (c ∷ s) h = parse_int-letter bits c s (ground arith)

not_percentage :
    (s : Text)
    → cut_suffix s (37 ∷ []) ≡ none
    → parse_percentage_replicas s ≡ err replica_format_not_matched
unfolding parse_percentage_replicas
not_percentage s h = rw (parse_percentage_replicas, h)

not_boolean :
    (s : Text)
    → is_boolean_string s ≡ false
    → parse_boolean_replicas s ≡ err replica_format_not_matched
unfolding parse_boolean_replicas
not_boolean s h = ground arith

-- Where no typed format matches, the text itself is stored or refused.
set_rest :
    (s : Text)
    → is_ok (parse_int 32 s) ≡ false
    → cut_suffix s (37 ∷ []) ≡ none
    → is_boolean_string s ≡ false
    → set s ≡ set_string s
unfolding set
set_rest s a p b = rw (not_absolute s a, not_percentage s p, not_boolean s b) refl

-- A replica value that `Set` can store: an int32 that is -1 or more, a percentage from 0 to 100, a
-- boolean, or a text of letters that is not a boolean.
abbrev pub IsStorable : Replicas → Type 0
IsStorable (absolute a) = IsInt32 a × (undefined ≤ℤ a)
IsStorable (percentage p) = (pos 0 ≤ℤ p) × (p ≤ℤ pos 100)
IsStorable (boolean b) = Unit
IsStorable (string s) = (is_alpha s ≡ true) × (is_boolean_string s ≡ false)

set-absolute : (a : ℤ) → IsInt32 a → undefined ≤ℤ a → set (itoa a) ≡ ok (absolute a)
unfolding set
set-absolute a w h = ground (arith, parse_int-itoa 32 a (omega arith) w)

percentage_text :
    (n : ℕ)
    → n ≤ 100
    → parse_percentage_replicas (itoa (pos n) ++ 37 ∷ []) ≡ ok (percentage (pos n))
unfolding parse_percentage_replicas
percentage_text n h =
    ap (trimmed_percentage (itoa (pos n) ++ 37 ∷ [])) (cut_suffix-snoc (itoa (pos n)) 37)
    ∙ ap (check_percentage (itoa (pos n) ++ 37 ∷ []))
        (parse_int-itoa 64 (pos n) (omega arith) (omega arith))
    ∙ ground arith

set-percentage : (n : ℕ) → n ≤ 100 → set (itoa (pos n) ++ 37 ∷ []) ≡ ok (percentage (pos n))
unfolding set
set-percentage n h =
    rw
      (
        set,
        not_absolute (itoa (pos n) ++ 37 ∷ []) (parse_int-percent 32 (itoa (pos n))),
        percentage_text n h,
      )
      refl

set-true : set true_text ≡ ok (boolean true)
unfolding set parse_int magnitude scan cut_suffix cut_prefix rev to_lower trim_space text_eq
set-true = refl

set-false : set false_text ≡ ok (boolean false)
unfolding set parse_int magnitude scan cut_suffix cut_prefix rev to_lower trim_space text_eq
set-false = refl

-- What was printed is read back, for every replica value that can be stored.
pub set-to_text : (r : Replicas) → IsStorable r → set (to_text r) ≡ ok r
unfolding to_text
set-to_text (absolute a) h = set-absolute a h.0 h.1
set-to_text (percentage (pos n)) h = set-percentage n (omega arith)
set-to_text (percentage (negsuc n)) h = absurd (omega arith)
set-to_text (boolean true) h = set-true
set-to_text (boolean false) h = set-false
set-to_text (string s) h =
    set_rest s (parse_int-letters 32 s h.0) (cut_suffix-letters s 37 h.0 (unfold is_letter in refl))
      h.1
    ∙ (unfold set_string in ground arith)

mixed : (c : ℕ) (s : Text) → is_letter c ≡ true → is_alpha s ≡ false → is_alpha (c ∷ s) ≡ false
unfolding is_alpha
mixed c s l h = ground arith

-- A boolean text has letters only, in lower case and so before.
boolean_is_alpha : (s : Text) → is_boolean_string s ≡ true → is_alpha (to_lower s) ≡ true
unfolding is_boolean_string
boolean_is_alpha s h = elim (Bool-cases (text_eq (to_lower s) true_text)) [
  | inl e ↦ ap is_alpha (text_eq→eq (to_lower s) true_text e) ∙ (unfold is_alpha is_letter in refl)
  | inr n ↦
      ap is_alpha (text_eq→eq (to_lower s) false_text (ground arith))
      ∙ (unfold is_alpha is_letter in refl)
]

mixed_not_boolean : (s : Text) → is_alpha s ≡ false → is_boolean_string s ≡ false
mixed_not_boolean s h = elim (Bool-cases (is_boolean_string s)) [
  | inl b ↦ cc (boolean_is_alpha s b, is_alpha-to_lower s)
  | inr b ↦ b
]

-- A text that starts with a letter, holds something else than letters and does not end in `%` (as
-- the class name `nginx-internal`) is refused.
pub set-mixed :
    (c : ℕ) (s : Text)
    → is_letter c ≡ true
    → is_alpha s ≡ false
    → cut_suffix (c ∷ s) (37 ∷ []) ≡ none
    → set (c ∷ s) ≡ err (invalid_replica_type (c ∷ s))
set-mixed c s l h p =
    set_rest (c ∷ s) (parse_int-letter 32 c s l) p (mixed_not_boolean (c ∷ s) (mixed c s l h))
    ∙ (unfold set_string in rw (mixed c s l h))
