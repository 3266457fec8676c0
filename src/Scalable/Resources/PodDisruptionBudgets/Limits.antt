-- ===== src/Scalable/Resources/PodDisruptionBudgets/Limits.antt =====
-- The limits of a budget that are read back as they were written.
use go_kube_downscaler.Prelude.{◌≡◌, refl, ap, ◌∙◌, some, arith, ℤ, pos, negsuc, [], ◌∷◌, ◌++◌}
use go_kube_downscaler.Text.Laws.{cut_suffix-snoc}
use go_kube_downscaler.Text.Decimal.{itoa}
use go_kube_downscaler.Text.Decimal.RoundTrip.{parse_int-itoa}
use go_kube_downscaler.Replicas.{
  Replicas, IntOrString, int, str, absolute, percentage, boolean, string, as_int_str,
  new_replicas_from_int_or_str, atoi_value, value_or_saturated, without_suffix, or_whole,
}
use go_kube_downscaler.Replicas.RoundTrip.{IsStorable}

-- A count or a percentage that the annotation can store.
abbrev pub IsLimit : Replicas → Type 0
IsLimit (absolute a) = IsStorable (absolute a)
IsLimit (percentage p) = IsStorable (percentage p)
IsLimit (boolean b) = ⊥
IsLimit (string s) = ⊥

pub IsLimit-IsStorable : (r : Replicas) → IsLimit r → IsStorable r
IsLimit-IsStorable (absolute a) h = h
IsLimit-IsStorable (percentage p) h = h
IsLimit-IsStorable (boolean b) h = absurd h
IsLimit-IsStorable (string s) h = absurd h

atoi_value-itoa : (p : ℤ) → IsLimit (percentage p) → atoi_value (itoa p) ≡ p
unfolding atoi_value value_or_saturated
atoi_value-itoa (pos n) h =
    ap (λ r. value_or_saturated r (itoa (pos n)))
      (parse_int-itoa 64 (pos n) (omega arith) (omega arith))
atoi_value-itoa (negsuc n) h = absurd (omega arith)

percentage_again :
    (p : ℤ)
    → IsLimit (percentage p)
    → new_replicas_from_int_or_str (some (str (itoa p ++ 37 ∷ []))) ≡ some (percentage p)
unfolding new_replicas_from_int_or_str without_suffix or_whole
percentage_again p h =
    ap (λ o. some (percentage (atoi_value (or_whole o (itoa p ++ 37 ∷ [])))))
      (cut_suffix-snoc (itoa p) 37)
    ∙ ap (λ n. some (percentage n)) (atoi_value-itoa p h)

-- A limit that was written is read.
pub limit_again :
    (r : Replicas) → IsLimit r → new_replicas_from_int_or_str (some (as_int_str r)) ≡ some r
unfolding as_int_str new_replicas_from_int_or_str
limit_again (absolute a) h = refl
limit_again (percentage p) h = percentage_again p h
limit_again (boolean b) h = absurd h
limit_again (string s) h = absurd h

-- A limit that is set is read as some replica value.
pub limit_is_some :
    (i : IntOrString) → (r : Replicas) × (new_replicas_from_int_or_str (some i) ≡ some r)
unfolding new_replicas_from_int_or_str
limit_is_some (int val) = (absolute val, refl)
limit_is_some (str text) = (_, refl)
