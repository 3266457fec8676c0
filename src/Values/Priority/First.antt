-- ===== src/Values/Priority/First.antt =====
-- The first scope of a list that sets a scaling, and the loops of `GetCurrentScaling` that find it.
use go_kube_downscaler.Prelude.{
  ◌≡◌, ◌≢◌, ◌⊎◌, inl, inr, refl, ap, ◌∙◌, List, [], ◌∷◌, ◌++◌, none, some, All,
}
use go_kube_downscaler.Values.{
  Scope, ScopeId, first_of, Scaling, scaling_none, scaling_ignore, ScalingValue,
}
use go_kube_downscaler.Values.Decision.{unless_none}

unless_none-some :
    (x : Scaling) (v : ScalingValue) → x ≢ scaling_none → unless_none x v ≡ some (x, v)
unless_none-some scaling_none v h = absurd (h refl)
unless_none-some _ v h = refl

is_unset : (x : Scaling) → (x ≡ scaling_none) ⊎ (x ≢ scaling_none)
is_unset scaling_none = inl refl
is_unset _ = inr (λ e. cc)

pub is_ignore : (x : Scaling) → (x ≡ scaling_ignore) ⊎ (x ≢ scaling_ignore)
is_ignore scaling_ignore = inl refl
is_ignore _ = inr (λ e. cc)

module _ (f : Scope → Scaling) where
  -- No scope of the list sets the scaling `f`.
  abbrev pub Unset : List (ScopeId × Scope) → Type 0
  Unset = All (λ e. f e.1 ≡ scaling_none)

  -- The first scope of the list that sets the scaling `f`.
  pub record IsFirst (l : List (ScopeId × Scope)) (i : ScopeId) (scope : Scope) : Type 0 where
    pub before : List (ScopeId × Scope)
    pub after : List (ScopeId × Scope)
    pub parts : l ≡ before ++ (i, scope) ∷ after
    pub unset : Unset before
    pub sets : f scope ≢ scaling_none

  pub IsFirst-or_Unset :
      (l : List (ScopeId × Scope)) → Unset l ⊎ ((i : ScopeId) × (scope : Scope) × IsFirst l i scope)
  IsFirst-or_Unset [] = inl tt
  IsFirst-or_Unset ((i, s) ∷ l) = elim (is_unset (f s)) [
    | inr set ↦ inr (i, s, record { before = []; after = l; parts = refl; unset = tt; sets = set })
    | inl not_set ↦ elim (IsFirst-or_Unset l) [
      | inl rest ↦ inl (not_set, rest)
      | inr (j, t, p) ↦ inr (
        j,
        t,
        record {
          before = (i, s) ∷ p.before;
          after = p.after;
          parts = ap (λ r. (i, s) ∷ r) p.parts;
          unset = (not_set, p.unset);
          sets = p.sets;
        },
      )
    ]
  ]

module _ (f : Scope → Scaling) (v : Scope → ScalingValue) where
  pub loop-Unset :
      (l : List (ScopeId × Scope)) → Unset f l → first_of (λ s. unless_none (f s) (v s)) l ≡ none
  unfolding first_of
  loop-Unset [] h = refl
  loop-Unset ((i, s) ∷ l) h = rw h.0 (loop-Unset l h.1)

  loop-parts :
      (before after : List (ScopeId × Scope)) (i : ScopeId) (s : Scope)
      → Unset f before
      → f s ≢ scaling_none
      → first_of (λ s. unless_none (f s) (v s)) (before ++ (i, s) ∷ after) ≡ some (i, (f s, v s))
  unfolding first_of
  loop-parts [] after i s h n = rw (unless_none-some (f s) (v s) n) refl
  loop-parts ((j, t) ∷ before) after i s h n = rw h.0 (loop-parts before after i s h.1 n)

  pub loop-first :
      (l : List (ScopeId × Scope)) (i : ScopeId) (s : Scope)
      → IsFirst f l i s
      → first_of (λ s. unless_none (f s) (v s)) l ≡ some (i, (f s, v s))
  loop-first l i s p =
      ap (first_of (λ s. unless_none (f s) (v s))) p.parts
      ∙ loop-parts p.before p.after i s p.unset p.sets
