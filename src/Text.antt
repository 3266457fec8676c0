-- ===== src/Text.antt =====
-- Texts: the parts of Go's `strings`, `unicode` and `strconv` packages that the program calls.
--
-- A text is the list of its code points, which are taken to lie in Latin-1 (below 256): there
-- `unicode.IsLetter`, `strings.ToLower` and `strings.TrimSpace` have the values given here.
pub mod Decimal
pub mod Laws
pub mod Matching
use Prim.Native.Char.{code}
use go_kube_downscaler.Prelude.{
  ℕ, ◌+◌, ◌≡◌, refl, ap, ◌↔◌, Bool, true, false, not, ◌&&◌, ◌||◌, List, [], ◌∷◌, ◌++◌, String,
  arith, ltb, leb, ◌==◌, ==_iff, between, if◌then◌else◌, Option, none, some,
}

abbrev pub Text : Type 0
Text = List ℕ

abbrev pub codes : String → Text
codes String.[] = []
codes (String.◌∷◌ c s) = code c ∷ codes s

unfoldable pub text_eq : Text → Text → Bool
text_eq [] [] = true
text_eq [] (c ∷ t) = false
text_eq (c ∷ s) [] = false
text_eq (c ∷ s) (d ∷ t) = c == d && text_eq s t

pub text_eq→eq : (s t : Text) → text_eq s t ≡ true → s ≡ t
unfolding text_eq
text_eq→eq [] [] h = refl
text_eq→eq [] (c ∷ t) h = ground arith
text_eq→eq (c ∷ s) [] h = ground arith
text_eq→eq (c ∷ s) (d ∷ t) h = ground (arith, text_eq→eq s t)

pub text_eq_refl : (s : Text) → text_eq s s ≡ true
unfolding text_eq
text_eq_refl [] = refl
text_eq_refl (c ∷ s) = ground (arith, text_eq_refl s)

unfoldable pub is_letter : ℕ → Bool
is_letter c =
    between b'A' b'Z' c
    || between b'a' b'z' c
    || c == 170
    || c == 181
    || c == 186
    || between 192 214 c
    || between 216 246 c
    || between 248 255 c

-- `isAlpha` of internal/pkg/values/replicas.go: a loop over the runes.
unfoldable pub is_alpha : Text → Bool
is_alpha [] = true
is_alpha (r ∷ s) = is_letter r && is_alpha s

unfoldable pub is_space : ℕ → Bool
is_space c = between 9 13 c || c == b' ' || c == 133 || c == 160

unfoldable pub lower : ℕ → ℕ
lower c = if between b'A' b'Z' c || (between 192 222 c && not (c == 215)) then c + 32 else c

unfoldable pub to_lower : Text → Text
unfolding lower
to_lower [] = []
to_lower (c ∷ s) = lower c ∷ to_lower s

unfoldable pub trim_left : Text → Text
unfolding is_space
trim_left [] = []
trim_left (c ∷ s) = if is_space c then trim_left s else c ∷ s

unfoldable pub rev : Text → Text
rev [] = []
rev (c ∷ s) = rev s ++ c ∷ []

unfoldable pub trim_space : Text → Text
unfolding trim_left rev
trim_space s = rev (trim_left (rev (trim_left s)))

-- `strings.CutPrefix`: what follows the prefix, if it is one. `strings.HasPrefix` asks if it is.
unfoldable pub cut_prefix : Text → Text → Option Text
cut_prefix s [] = some s
cut_prefix [] (d ∷ t) = none
cut_prefix (c ∷ s) (d ∷ t) = if c == d then cut_prefix s t else none

abbrev pub turned : Option Text → Option Text
turned none = none
turned (some r) = some (rev r)

-- `strings.CutSuffix`.
unfoldable pub cut_suffix : Text → Text → Option Text
cut_suffix s t = turned (cut_prefix (rev s) (rev t))

-- `strings.Contains`.
unfoldable pub contains : Text → Text → Bool
unfolding cut_prefix
contains [] t = elim (cut_prefix [] t) [ none ↦ false | some _ ↦ true ]
contains (c ∷ s) t = elim (cut_prefix (c ∷ s) t) [ none ↦ contains s t | some _ ↦ true ]

-- `strings.Split` at a one-character separator; the first field is kept apart, as there is one.
abbrev pub push_first : ℕ → Text × List Text → Text × List Text
push_first c (f, r) = (c ∷ f, r)

unfoldable pub split : ℕ → Text → Text × List Text
split sep [] = ([], [])
split sep (c ∷ s) = let (f, r) = split sep s in if c == sep then ([], f ∷ r) else (c ∷ f, r)
