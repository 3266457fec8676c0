-- ===== src/Values/Priority/Exclusion.antt =====
-- `GetExcludedWithScope`: when a workload is excluded, and by which scope.
use mathlib.Core.Bool.{false≢true}
use go_kube_downscaler.Prelude.{
  ◌≡◌, ◌↔◌, ◌⊎◌, inl, inr, refl, ap, Bool, true, false, Option, none, some, ℤ,
}
use go_kube_downscaler.Fault.{Result, ok, err}
use go_kube_downscaler.Values.{ScopeId, Scopes, ranged, first_of, ScopeEvaluation}
use go_kube_downscaler.Values.Query.{
  exclusion, exclusion_until, by_spans, by_instant, matched_by, get_excluded_with_scope,
}
use go_kube_downscaler.Values.Priority.{Pick, first_of-Pick, Pick-of_first_of}

abbrev Excluding : Option (ScopeId × Result Bool) → Option (ScopeId × Unit {0}) → ScopeId → Type 0
Excluding x y i =
    (x ≡ some (i, ok true))
    ⊎ (((x ≡ none) ⊎ ((j : ScopeId) × (x ≡ some (j, ok false)))) × (y ≡ some (i, tt)))

by_spans-matched :
    (x : Option (ScopeId × Result Bool)) (y : Option (ScopeId × Unit {0})) (i : ScopeId)
    → by_spans x (by_instant y) ≡ matched_by i
    → Excluding x y i
by_spans-matched none none i h = absurd (false≢true (ap (λ (e : ScopeEvaluation). e.matched) h))
by_spans-matched none (some (j, tt)) i h =
    inr (inl refl, ap (λ k. some (k, tt)) (ap (λ (e : ScopeEvaluation). e.scope) h))
by_spans-matched (some (j, err e)) y i h =
    absurd (false≢true (ap (λ (e : ScopeEvaluation). e.matched) h))
by_spans-matched (some (j, ok true)) y i h =
    inl (ap (λ k. some (k, ok true)) (ap (λ (e : ScopeEvaluation). e.scope) h))
by_spans-matched (some (j, ok false)) none i h =
    absurd (false≢true (ap (λ (e : ScopeEvaluation). e.matched) h))
by_spans-matched (some (j, ok false)) (some (k, tt)) i h =
    inr (inr (j, refl), ap (λ l. some (l, tt)) (ap (λ (e : ScopeEvaluation). e.scope) h))

matched-by_spans :
    (x : Option (ScopeId × Result Bool)) (y : Option (ScopeId × Unit {0})) (i : ScopeId)
    → Excluding x y i
    → by_spans x (by_instant y) ≡ matched_by i
matched-by_spans x y i (inl p) = rw p refl
matched-by_spans x y i (inr (inl p, q)) = rw (p, q) refl
matched-by_spans x y i (inr (inr (j, p), q)) = rw (p, q) refl

module _ (now : ℤ) (s : Scopes) where
  -- No scope has an exclusion, or the timespans of the first that has one do not hold.
  abbrev pub IsNotExcludedBySpans : Type 0
  IsNotExcludedBySpans =
      (first_of (exclusion now s) (ranged s) ≡ none)
      ⊎ ((i : ScopeId) × Pick (exclusion now s) (ranged s) i (ok false))

  -- The scope `i` excludes: by the timespans of its exclusion, which is the first that is set, or,
  -- where those do not hold, as the first scope whose instant `exclude_until` is still to come.
  abbrev pub Excludes : ScopeId → Type 0
  Excludes i =
      Pick (exclusion now s) (ranged s) i (ok true)
      ⊎ (IsNotExcludedBySpans × Pick (exclusion_until now) (ranged s) i tt)

  Excludes-of_Excluding :
      (i : ScopeId)
      → Excluding
          (first_of (exclusion now s) (ranged s))
          (first_of (exclusion_until now) (ranged s))
          i
      → Excludes i
  Excludes-of_Excluding i (inl p) =
      inl (Pick-of_first_of (exclusion now s) (ranged s) i (ok true) p)
  Excludes-of_Excluding i (inr (inl p, q)) =
      inr (inl p, Pick-of_first_of (exclusion_until now) (ranged s) i tt q)
  Excludes-of_Excluding i (inr (inr (j, p), q)) = inr (
    inr (j, Pick-of_first_of (exclusion now s) (ranged s) j (ok false) p),
    Pick-of_first_of (exclusion_until now) (ranged s) i tt q,
  )

  Excluding-of_Excludes :
      (i : ScopeId)
      → Excludes i
      → Excluding
          (first_of (exclusion now s) (ranged s))
          (first_of (exclusion_until now) (ranged s))
          i
  Excluding-of_Excludes i (inl p) = inl (first_of-Pick (exclusion now s) (ranged s) i (ok true) p)
  Excluding-of_Excludes i (inr (inl p, q)) =
      inr (inl p, first_of-Pick (exclusion_until now) (ranged s) i tt q)
  Excluding-of_Excludes i (inr (inr (j, p), q)) = inr (
    inr (j, first_of-Pick (exclusion now s) (ranged s) j (ok false) p),
    first_of-Pick (exclusion_until now) (ranged s) i tt q,
  )

  -- `GetExcludedWithScope` reports a match by a scope exactly if that scope excludes the workload:
  -- by the timespans of the first exclusion that is set, or, where none is set or those timespans
  -- do not hold, as the first scope whose `excludeUntil` lies after now.
  pub get_excluded_with_scope_iff :
      (i : ScopeId) → (get_excluded_with_scope now s s ≡ matched_by i) ↔ Excludes i
  unfolding get_excluded_with_scope
  get_excluded_with_scope_iff i = (
    λ h. Excludes-of_Excluding i (by_spans-matched _ _ i h),
    λ e. matched-by_spans _ _ i (Excluding-of_Excludes i e),
  )
