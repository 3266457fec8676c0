-- ===== src/Values/Priority.antt =====
-- The scopes in order of priority: what a loop over them finds, and the downscale replicas
-- that follow.
pub mod First
pub mod Decided
pub mod Exclusion
use mathlib.Core.Option.{some-injective}
use go_kube_downscaler.Prelude.{
  ◌≡◌, ◌≢◌, ◌↔◌, ◌⊎◌, inl, inr, refl, sym, ap, ◌∙◌, Option-cases, List, [], ◌∷◌, ◌++◌, Option, none,
  some, All, arith, ℤ,
}
use go_kube_downscaler.Fault.{Result, ok, err, ok-injective}
use go_kube_downscaler.Replicas.{Replicas}
use go_kube_downscaler.Values.{Scope, ScopeId, Scopes, ranged, or_later, first_of}
use go_kube_downscaler.Values.Query.{get_downscale_replicas, or_not_set}

module _ {ℓ} {A : Type ℓ} (body : Scope → Option A) where
  abbrev pub Skipped : List (ScopeId × Scope) → Type ℓ
  Skipped = All (λ e. body e.1 ≡ none)

  -- The scope at which a loop ends: those before it are skipped.
  pub record Pick (scopes : List (ScopeId × Scope)) (i : ScopeId) (a : A) : Type ℓ where
    pub before : List (ScopeId × Scope)
    pub scope : Scope
    pub after : List (ScopeId × Scope)
    pub parts : scopes ≡ before ++ (i, scope) ∷ after
    pub skipped : Skipped before
    pub value : body scope ≡ some a

  pub first_of-Skipped : (l : List (ScopeId × Scope)) → Skipped l → first_of body l ≡ none
  unfolding first_of
  first_of-Skipped [] h = refl
  first_of-Skipped ((i, s) ∷ l) h = rw h.0 (first_of-Skipped l h.1)

  first_of-parts :
      (before after : List (ScopeId × Scope)) (i : ScopeId) (s : Scope) (a : A)
      → Skipped before
      → body s ≡ some a
      → first_of body (before ++ (i, s) ∷ after) ≡ some (i, a)
  unfolding first_of
  first_of-parts [] after i s a h e = rw e refl
  first_of-parts ((j, t) ∷ before) after i s a h e =
      rw h.0 (first_of-parts before after i s a h.1 e)

  pub first_of-Pick :
      (l : List (ScopeId × Scope)) (i : ScopeId) (a : A)
      → Pick l i a
      → first_of body l ≡ some (i, a)
  first_of-Pick l i a p =
      ap (first_of body) p.parts ∙ first_of-parts p.before p.after i p.scope a p.skipped p.value

  later :
      (i j : ScopeId) (s : Scope) (l : List (ScopeId × Scope)) (a : A)
      → body s ≡ none
      → Pick l j a
      → Pick ((i, s) ∷ l) j a
  later i j s l a e p = record {
    before = (i, s) ∷ p.before;
    scope = p.scope;
    after = p.after;
    parts = ap (λ r. (i, s) ∷ r) p.parts;
    skipped = (e, p.skipped);
    value = p.value;
  }

  here :
      (i j : ScopeId) (s : Scope) (l : List (ScopeId × Scope)) (a b : A)
      → body s ≡ some b
      → ◌≡◌ {A = Option (ScopeId × A)} (some (i, b)) (some (j, a))
      → Pick ((i, s) ∷ l) j a
  here i j s l a b e h =
      let q : ◌≡◌ {A = ScopeId × A} (i, b) (j, a) = some-injective (i, b) (j, a) h in
      record {
        before = [];
        scope = s;
        after = l;
        parts = ap (λ k. (k, s) ∷ l) (ap (λ (x : ScopeId × A). x.0) q);
        skipped = tt;
        value = e ∙ ap some (ap (λ (x : ScopeId × A). x.1) q);
      }

  pub Pick-of_first_of :
      (l : List (ScopeId × Scope)) (j : ScopeId) (a : A)
      → first_of body l ≡ some (j, a)
      → Pick l j a
  unfolding first_of
  Pick-of_first_of [] j a h = cc
  Pick-of_first_of ((i, s) ∷ l) j a h = elim (Option-cases (body s)) [
    | inl skip ↦
        later i j s l a skip
          (Pick-of_first_of l j a (sym (ap (λ x. or_later i x (first_of body l)) skip) ∙ h))
    | inr (b, stop) ↦
        here i j s l a b stop (sym (ap (λ x. or_later i x (first_of body l)) stop) ∙ h)
  ]

replicas_found :
    (s : Scopes) (r : Replicas)
    → get_downscale_replicas s ≡ ok r
    → (i : ScopeId) × Pick (λ scope. scope.downscale_replicas) (ranged s) i r
unfolding get_downscale_replicas
replicas_found s r h =
    elim (Option-cases (first_of (λ scope. scope.downscale_replicas) (ranged s))) [
      | inl missing ↦ cc (ap or_not_set missing)
      | inr ((i, a), found) ↦ (
        i,
        Pick-of_first_of (λ scope. scope.downscale_replicas) (ranged s) i r
            (found ∙ ap (λ x. some (i, x)) (ok-injective (sym (ap or_not_set found) ∙ h))),
      )
    ]

-- `GetDownscaleReplicas` returns the replicas of the first scope that has them set, and no other.
pub get_downscale_replicas_iff :
    (s : Scopes) (r : Replicas)
    → (get_downscale_replicas s ≡ ok r)
      ↔ ((i : ScopeId) × Pick (λ scope. scope.downscale_replicas) (ranged s) i r)
unfolding get_downscale_replicas
get_downscale_replicas_iff s r = (
  replicas_found s r,
  λ (i, p). rw (first_of-Pick (λ scope. scope.downscale_replicas) (ranged s) i r p) refl,
)
