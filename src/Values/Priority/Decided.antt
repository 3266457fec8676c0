-- ===== src/Values/Priority/Decided.antt =====
-- `GetCurrentScaling` against the rule that it implements.
use mathlib.Core.Path.{ap₂, subst}
use go_kube_downscaler.Prelude.{
  ◌≡◌, ◌≢◌, ◌↔◌, ◌⊎◌, inl, inr, refl, sym, ap, ◌∙◌, Option, none, some, ℤ,
}
use go_kube_downscaler.Values.{
  Scope, ScopeId, Scopes, ranged, first_of, Scaling, scaling_ignore, ScalingValue, ScalingDecision,
}
use go_kube_downscaler.Values.ScopeScaling.{
  get_force_scaling, get_scope_scaling, force_scaling_value, scaling_value,
}
use go_kube_downscaler.Values.Decision.{
  unless_none, forced, unforced, decided, undecided, or_decision, resolve, get_current_scaling,
}
use go_kube_downscaler.Values.Priority.First.{
  Unset, IsFirst, IsFirst-or_Unset, loop-Unset, loop-first, is_ignore,
}

module _ (now : ℤ) (s : Scopes) where
  -- No scope forces a scaling, or the first that does is inactive.
  abbrev pub IsUnforced : Type 0
  IsUnforced =
      Unset (get_force_scaling now s) (ranged s)
      ⊎ ((i : ScopeId) × (scope : Scope) × IsFirst (get_force_scaling now s) (ranged s) i scope
          × (get_force_scaling now s scope ≡ scaling_ignore))

  -- The rule: an active forced scaling of the first scope that has one; else the scaling of the
  -- first scope that sets one; else the inactive forced one; else nothing.
  pub data Decides (d : ScalingDecision) : Type 0 where
    by_force :
        (i : ScopeId) (scope : Scope)
        → IsFirst (get_force_scaling now s) (ranged s) i scope
        → get_force_scaling now s scope ≢ scaling_ignore
        → d ≡ decided i (get_force_scaling now s scope) (force_scaling_value scope)
        → Decides d
    by_scope :
        (i : ScopeId) (scope : Scope)
        → IsUnforced
        → IsFirst (get_scope_scaling now s) (ranged s) i scope
        → d ≡ decided i (get_scope_scaling now s scope) (scaling_value scope)
        → Decides d
    by_inactive_force :
        (i : ScopeId) (scope : Scope)
        → IsFirst (get_force_scaling now s) (ranged s) i scope
        → get_force_scaling now s scope ≡ scaling_ignore
        → Unset (get_scope_scaling now s) (ranged s)
        → d ≡ decided i scaling_ignore (force_scaling_value scope)
        → Decides d
    by_nothing :
        Unset (get_force_scaling now s) (ranged s)
        → Unset (get_scope_scaling now s) (ranged s)
        → d ≡ undecided
        → Decides d

resolve-active :
    (i : ScopeId) (x : Scaling) (v : ScalingValue)
    (second : Option (ScopeId × (Scaling × ScalingValue)))
    → x ≢ scaling_ignore
    → resolve (some (i, (x, v))) second ≡ decided i x v
unfolding resolve
resolve-active i scaling_ignore v second h = absurd (h refl)
resolve-active i _ v second h = refl

module _ (now : ℤ) (s : Scopes) where
  loops-eq :
      (x y : Option (ScopeId × (Scaling × ScalingValue)))
      → first_of (λ t. unless_none (get_force_scaling now s t) (force_scaling_value t)) (ranged s)
        ≡ x
      → first_of (λ t. unless_none (get_scope_scaling now s t) (scaling_value t)) (ranged s) ≡ y
      → get_current_scaling now s ≡ resolve x y
  unfolding get_current_scaling forced unforced
  loops-eq x y p q = ap₂ resolve p q

  force-eq :
      (i : ScopeId) (t : Scope)
      → IsFirst (get_force_scaling now s) (ranged s) i t
      → get_force_scaling now s t ≢ scaling_ignore
      → get_current_scaling now s ≡ decided i (get_force_scaling now s t) (force_scaling_value t)
  force-eq i t p n =
      loops-eq _ _ (loop-first (get_force_scaling now s) force_scaling_value (ranged s) i t p) refl
      ∙ resolve-active i (get_force_scaling now s t) (force_scaling_value t) _ n

  -- The first loop ends with a default decision for the second.
  unforced-eq :
      (y : Option (ScopeId × (Scaling × ScalingValue)))
      → first_of (λ t. unless_none (get_scope_scaling now s t) (scaling_value t)) (ranged s) ≡ y
      → IsUnforced now s
      → (d : ScalingDecision) × (get_current_scaling now s ≡ or_decision d y)
  unfolding resolve
  unforced-eq y q (inl u) = (
    undecided,
    loops-eq none y (loop-Unset (get_force_scaling now s) force_scaling_value (ranged s) u) q,
  )
  unforced-eq y q (inr (i, t, p, e)) = (
    decided i scaling_ignore (force_scaling_value t),
    loops-eq (some (i, (get_force_scaling now s t, force_scaling_value t))) y
          (loop-first (get_force_scaling now s) force_scaling_value (ranged s) i t p) q
        ∙ ap (λ x. resolve (some (i, (x, force_scaling_value t))) y) e,
  )

  scope-eq :
      (i : ScopeId) (t : Scope)
      → IsUnforced now s
      → IsFirst (get_scope_scaling now s) (ranged s) i t
      → get_current_scaling now s ≡ decided i (get_scope_scaling now s t) (scaling_value t)
  unfolding or_decision unforced-eq
  scope-eq i t u p =
      (unforced-eq (some (i, (get_scope_scaling now s t, scaling_value t)))
        (loop-first (get_scope_scaling now s) scaling_value (ranged s) i t p) u).1

  inactive-eq :
      (i : ScopeId) (t : Scope)
      → IsFirst (get_force_scaling now s) (ranged s) i t
      → get_force_scaling now s t ≡ scaling_ignore
      → Unset (get_scope_scaling now s) (ranged s)
      → get_current_scaling now s ≡ decided i scaling_ignore (force_scaling_value t)
  unfolding or_decision unforced-eq
  inactive-eq i t p e u =
      (unforced-eq none (loop-Unset (get_scope_scaling now s) scaling_value (ranged s) u)
        (inr (i, t, p, e))).1

  nothing-eq :
      Unset (get_force_scaling now s) (ranged s)
      → Unset (get_scope_scaling now s) (ranged s)
      → get_current_scaling now s ≡ undecided
  unfolding or_decision unforced-eq
  nothing-eq u w =
      (unforced-eq none (loop-Unset (get_scope_scaling now s) scaling_value (ranged s) w) (inl u)).1

  Decides-unforced :
      IsUnforced now s
      → (((i : ScopeId) × (t : Scope) × IsFirst (get_scope_scaling now s) (ranged s) i t))
      → Decides now s (get_current_scaling now s)
  Decides-unforced u (i, t, p) = by_scope i t u p (scope-eq i t u p)

  Decides-inactive :
      (i : ScopeId) (t : Scope)
      → IsFirst (get_force_scaling now s) (ranged s) i t
      → get_force_scaling now s t ≡ scaling_ignore
      → Decides now s (get_current_scaling now s)
  Decides-inactive i t p e = elim (IsFirst-or_Unset (get_scope_scaling now s) (ranged s)) [
    | inl w ↦ by_inactive_force i t p e w (inactive-eq i t p e w)
    | inr found ↦ Decides-unforced (inr (i, t, p, e)) found
  ]

  Decides-current : Decides now s (get_current_scaling now s)
  Decides-current = elim (IsFirst-or_Unset (get_force_scaling now s) (ranged s)) [
    | inl u ↦ elim (IsFirst-or_Unset (get_scope_scaling now s) (ranged s)) [
      | inl w ↦ by_nothing u w (nothing-eq u w)
      | inr found ↦ Decides-unforced (inl u) found
    ]
    | inr (i, t, p) ↦ elim (is_ignore (get_force_scaling now s t)) [
      | inl e ↦ Decides-inactive i t p e
      | inr n ↦ by_force i t p n (force-eq i t p n)
    ]
  ]

  current_of_Decides : (d : ScalingDecision) → Decides now s d → get_current_scaling now s ≡ d
  current_of_Decides d (by_force i t p n e) = force-eq i t p n ∙ sym e
  current_of_Decides d (by_scope i t u p e) = scope-eq i t u p ∙ sym e
  current_of_Decides d (by_inactive_force i t p e u q) = inactive-eq i t p e u ∙ sym q
  current_of_Decides d (by_nothing u w e) = nothing-eq u w ∙ sym e

-- `GetCurrentScaling` returns a decision exactly if the rule of priorities gives it.
pub get_current_scaling_iff :
    (now : ℤ) (s : Scopes) (d : ScalingDecision) → (get_current_scaling now s ≡ d) ↔ Decides now s d
get_current_scaling_iff now s d =
    (λ e. subst (Decides now s) e (Decides-current now s), current_of_Decides now s d)
