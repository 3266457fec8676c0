-- ===== src/Text/Laws.antt =====
-- Reversal, suffixes, and how letters meet the other tests.
use go_kube_downscaler.Prelude.{
  ℕ, ◌≡◌, refl, sym, ap, ◌∙◌, true, false, ◌&&◌, [], ◌∷◌, ◌++◌, arith, none, some, append_assoc,
  append-nil,
}
use go_kube_downscaler.Text.{
  Text, is_letter, lower, to_lower, rev, cut_prefix, cut_suffix, turned, is_alpha,
}

pub rev-append : (s t : Text) → rev (s ++ t) ≡ rev t ++ rev s
unfolding rev
rev-append [] t = sym (append-nil (rev t))
rev-append (c ∷ s) t =
    ap (λ r. r ++ c ∷ []) (rev-append s t) ∙ append_assoc (rev t) (rev s) (c ∷ [])

pub rev-rev : (s : Text) → rev (rev s) ≡ s
unfolding rev
rev-rev [] = refl
rev-rev (c ∷ s) = rev-append (rev s) (c ∷ []) ∙ ap (λ r. c ∷ r) (rev-rev s)

-- The suffix that was appended is cut off.
cut_prefix_head : (s : Text) (c : ℕ) → cut_prefix (c ∷ s) (c ∷ []) ≡ some s
unfolding cut_prefix
cut_prefix_head s c = ground arith

pub cut_suffix-snoc : (s : Text) (c : ℕ) → cut_suffix (s ++ c ∷ []) (c ∷ []) ≡ some s
unfolding cut_suffix rev
cut_suffix-snoc s c =
    ap (λ r. turned (cut_prefix r (c ∷ []))) (rev-append s (c ∷ []))
    ∙ ap turned (cut_prefix_head (rev s) c)
    ∙ ap some (rev-rev s)

is_alpha-append : (s t : Text) → is_alpha (s ++ t) ≡ (is_alpha s && is_alpha t)
unfolding is_alpha
is_alpha-append [] t = refl
is_alpha-append (c ∷ s) t = ground (arith, is_alpha-append s t)

is_alpha-rev : (s : Text) → is_alpha (rev s) ≡ is_alpha s
unfolding is_alpha rev
is_alpha-rev [] = refl
is_alpha-rev (c ∷ s) = ground (arith, is_alpha-append (rev s) (c ∷ []), is_alpha-rev s)

cut_prefix-letters :
    (s : Text) (d : ℕ) → is_alpha s ≡ true → is_letter d ≡ false → cut_prefix s (d ∷ []) ≡ none
unfolding is_alpha cut_prefix
cut_prefix-letters [] d h n = refl
cut_prefix-letters (c ∷ s) d h n = ground (arith, ap is_letter {x = c} {y = d})

-- A text of letters does not end in another character.
pub cut_suffix-letters :
    (s : Text) (d : ℕ) → is_alpha s ≡ true → is_letter d ≡ false → cut_suffix s (d ∷ []) ≡ none
unfolding cut_suffix rev
cut_suffix-letters s d h n = ap turned (cut_prefix-letters (rev s) d (is_alpha-rev s ∙ h) n)

is_letter-lower : (c : ℕ) → is_letter (lower c) ≡ is_letter c
unfolding is_letter lower
is_letter-lower c = ground arith

-- Lower case keeps letters letters and the rest the rest.
pub is_alpha-to_lower : (s : Text) → is_alpha (to_lower s) ≡ is_alpha s
unfolding is_alpha to_lower
is_alpha-to_lower [] = refl
is_alpha-to_lower (c ∷ s) = ground (arith, is_letter-lower c, is_alpha-to_lower s)
