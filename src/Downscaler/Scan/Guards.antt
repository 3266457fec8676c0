-- ===== src/Downscaler/Scan/Guards.antt =====
-- When a scan acts on a workload, and on what.
use go_kube_downscaler.Prelude.{
  ◌≡◌, ◌⊎◌, inl, inr, refl, Bool, true, false, ◌&&◌, not, Option, none, some, ℤ, Bool-cases,
}
use go_kube_downscaler.Fault.{Fault, Result, ok, err, namespace_scope_retrieve}
use go_kube_downscaler.Text.{Text}
use go_kube_downscaler.Dict.{lookup}
use go_kube_downscaler.Time.{Location}
use go_kube_downscaler.Values.{
  Scope, Scopes, ScopeId, ScalingDecision, new_scope, ScopeEvaluation, scaling_up,
}
use go_kube_downscaler.Values.Query.{get_excluded_with_scope, get_upscale_excluded}
use go_kube_downscaler.Values.Decision.{get_current_scaling}
use go_kube_downscaler.Values.ScopeParser.{get_scope_from_annotations}
use go_kube_downscaler.Workload.{Workload, Api, Session}
use go_kube_downscaler.Downscaler.{Configuration, current_scaling, attempt_scaling}
use go_kube_downscaler.Downscaler.Scan.{
  SharedScopes, scopes_of, then_children, decision_of, is_skipped, unless_excluded,
  unless_in_grace_period, grace_of, in_namespace, with_scope, scan_workload,
}

excluded_of :
    (excluded upscale : Bool)
    → (excluded && not upscale) ≡ true
    → (excluded ≡ true) × (upscale ≡ false)
excluded_of true false h = (refl, refl)
excluded_of true true h = cc h
excluded_of false upscale h = cc h

upscale_of_passed :
    (excluded upscale : Bool) → (excluded && not upscale) ≡ false → excluded ≡ true → upscale ≡ true
upscale_of_passed true true h e = refl
upscale_of_passed true false h e = cc h
upscale_of_passed false upscale h e = cc e

upscale_of_excluded :
    (now : ℤ) (excluded upscale : Bool) (scope : ScopeId) (scopes : Scopes)
    → (excluded && not upscale) ≡ false
    → ((excluded ≡ true → (current_scaling now excluded upscale scope scopes).scaling ≡ scaling_up)
        × (excluded ≡ false
            → current_scaling now excluded upscale scope scopes ≡ get_current_scaling now scopes))
unfolding current_scaling
upscale_of_excluded now true true scope scopes h = ((λ e. refl), λ e. cc e)
upscale_of_excluded now true false scope scopes h = cc h
upscale_of_excluded now false true scope scopes h = ((λ e. cc e), λ e. refl)
upscale_of_excluded now false false scope scopes h = ((λ e. cc e), λ e. refl)

module _ {R C : Type 0} (kind : Workload R) (api : Api R C) (config : Configuration)
    (load_location : Text → Result Location) (now : ℤ) where
  -- The decision on a workload that is not skipped is to scale it up while it is excluded, and the
  -- one of its scopes otherwise.
  pub decision_of-excluded :
      (scopes : Scopes)
      → is_skipped kind api config load_location now scopes ≡ false
      → ((get_excluded_with_scope now scopes scopes).matched ≡ true
          → (decision_of kind api config load_location now scopes).scaling ≡ scaling_up)
        × ((get_excluded_with_scope now scopes scopes).matched ≡ false
            → decision_of kind api config load_location now scopes ≡ get_current_scaling now scopes)
  unfolding is_skipped decision_of
  decision_of-excluded scopes h = upscale_of_excluded now _ _ _ scopes h

  skipped_lem :
      (scopes : Scopes)
      → is_skipped kind api config load_location now scopes ≡ true
      → ((get_excluded_with_scope now scopes scopes).matched ≡ true)
        × ((get_upscale_excluded scopes).0 ≡ false)
  unfolding is_skipped
  skipped_lem scopes h = excluded_of _ _ h

  passed_lem :
      (scopes : Scopes)
      → is_skipped kind api config load_location now scopes ≡ false
      → (get_excluded_with_scope now scopes scopes).matched ≡ true
      → (get_upscale_excluded scopes).0 ≡ true
  unfolding is_skipped
  passed_lem scopes h e = upscale_of_passed _ _ h e

module _ {R C : Type 0} (kind : Workload R) (api : Api R C) (config : Configuration)
    (load_location : Text → Result Location) (now : ℤ) (shared : SharedScopes) where
  -- The scan has left the workload and the cluster as they were.
  abbrev pub IsUntouched : Session R C → Session R C × Option Fault → Type 0
  IsUntouched s r = (r.0.workload ≡ s.workload) × (r.0.cluster ≡ s.cluster)

  -- The scope of the workload's annotations, and the one of its namespace.
  abbrev pub AreScopes : Session R C → Scope → Scope → Type 0
  AreScopes s scope namespace =
      (get_scope_from_annotations load_location (kind.get_annotations s.workload) new_scope
        ≡ ok scope)
      × (lookup (kind.get_namespace s.workload) shared.namespaces ≡ some namespace)

  -- A reason for a scan to stop, with the error that it returns.
  pub data Stops (s : Session R C) (e : Option Fault) : Type 0 where
    invalid :
        (fault : Fault)
        → get_scope_from_annotations load_location (kind.get_annotations s.workload) new_scope
          ≡ err fault
        → e ≡ some fault
        → Stops s e
    unknown :
        lookup (kind.get_namespace s.workload) shared.namespaces ≡ none
        → e ≡ some namespace_scope_retrieve
        → Stops s e
    no_grace :
        (scope namespace : Scope) (fault : Fault)
        → AreScopes s scope namespace
        → grace_of kind api config load_location now (scopes_of shared scope namespace) s.workload
          ≡ err fault
        → e ≡ some fault
        → Stops s e
    in_grace :
        (scope namespace : Scope) (grace : ScopeEvaluation)
        → AreScopes s scope namespace
        → grace_of kind api config load_location now (scopes_of shared scope namespace) s.workload
          ≡ ok grace
        → grace.matched ≡ true
        → e ≡ none
        → Stops s e
    excluded :
        (scope namespace : Scope)
        → AreScopes s scope namespace
        → (get_excluded_with_scope now
            (scopes_of shared scope namespace)
            (scopes_of shared scope namespace)).matched
          ≡ true
        → (get_upscale_excluded (scopes_of shared scope namespace)).0 ≡ false
        → e ≡ none
        → Stops s e

  -- Up where the workload is excluded, which asks for `upscale-excluded`, and as its scopes say
  -- elsewhere.
  abbrev pub IsChosen : Scopes → ScalingDecision → Type 0
  IsChosen scopes decision =
      (((get_excluded_with_scope now scopes scopes).matched ≡ true)
        × ((get_upscale_excluded scopes).0 ≡ true)
        × (decision.scaling ≡ scaling_up))
      ⊎ (((get_excluded_with_scope now scopes scopes).matched ≡ false)
          × (decision ≡ get_current_scaling now scopes))

  decision_of-IsChosen :
      (scopes : Scopes)
      → is_skipped kind api config load_location now scopes ≡ false
      → IsChosen scopes (decision_of kind api config load_location now scopes)
  decision_of-IsChosen scopes o =
      let (up, as_is) = decision_of-excluded kind api config load_location now scopes o in
      elim (Bool-cases ((get_excluded_with_scope now scopes scopes).matched)) [
        | inl y ↦ inl (y, passed_lem kind api config load_location now scopes o y, up y)
        | inr n ↦ inr (n, as_is n)
      ]

  -- All guards have let the scan pass, and `r` is the scaling by this decision.
  pub record Acts (s : Session R C) (r : Session R C × Option Fault) : Type 0 where
    pub scope : Scope
    pub namespace : Scope
    pub grace : ScopeEvaluation
    pub parsed :
        get_scope_from_annotations load_location (kind.get_annotations s.workload) new_scope
        ≡ ok scope
    pub namespace_known : lookup (kind.get_namespace s.workload) shared.namespaces ≡ some namespace
    pub grace_known :
        grace_of kind api config load_location now (scopes_of shared scope namespace) s.workload
        ≡ ok grace
    pub not_in_grace_period : grace.matched ≡ false
    pub decision : ScalingDecision
    pub chosen : IsChosen (scopes_of shared scope namespace) decision
    pub scaled :
        r
        ≡ then_children kind api config load_location now decision
            (scopes_of shared scope namespace)
            (attempt_scaling kind api config decision (scopes_of shared scope namespace) s)

  abbrev Guarded : Session R C → Session R C × Option Fault → Type 0
  Guarded s r = (IsUntouched s r × Stops s r.1) ⊎ Acts s r

  excluded_guard :
      (s : Session R C) (scope namespace : Scope) (grace : ScopeEvaluation)
      → get_scope_from_annotations load_location (kind.get_annotations s.workload) new_scope
        ≡ ok scope
      → lookup (kind.get_namespace s.workload) shared.namespaces ≡ some namespace
      → grace_of kind api config load_location now (scopes_of shared scope namespace) s.workload
        ≡ ok grace
      → grace.matched ≡ false
      → Guarded s
          (unless_excluded kind api config load_location now (scopes_of shared scope namespace) s)
  unfolding unless_excluded
  excluded_guard s scope namespace grace p n g m =
      elim (Bool-cases
        (is_skipped kind api config load_location now (scopes_of shared scope namespace))) [
          | inl y ↦
              let (x, u) = skipped_lem kind api config load_location now _ y in
              rw y (inl ((refl, refl), excluded scope namespace (p, n) x u refl))
          | inr o ↦ inr (record {
            scope = scope;
            namespace = namespace;
            grace = grace;
            parsed = p;
            namespace_known = n;
            grace_known = g;
            not_in_grace_period = m;
            decision =
                decision_of kind api config load_location now (scopes_of shared scope namespace);
            chosen = decision_of-IsChosen (scopes_of shared scope namespace) o;
            scaled = rw o refl;
          })
        ]

  grace_guard :
      (s : Session R C) (scope namespace : Scope) (r : Result ScopeEvaluation)
      → get_scope_from_annotations load_location (kind.get_annotations s.workload) new_scope
        ≡ ok scope
      → lookup (kind.get_namespace s.workload) shared.namespaces ≡ some namespace
      → grace_of kind api config load_location now (scopes_of shared scope namespace) s.workload ≡ r
      → Guarded s (
          unless_in_grace_period kind api config load_location now r
            (scopes_of shared scope namespace)
            s)
  unfolding unless_in_grace_period
  grace_guard s scope namespace (err e) p n g =
      inl ((refl, refl), no_grace scope namespace e (p, n) g refl)
  grace_guard s scope namespace (ok grace) p n g = elim (Bool-cases grace.matched) [
    | inl y ↦ rw y (inl ((refl, refl), in_grace scope namespace grace (p, n) g y refl))
    | inr o ↦ rw o (excluded_guard s scope namespace grace p n g o)
  ]

  namespace_guard :
      (s : Session R C) (scope : Scope) (o : Option Scope)
      → get_scope_from_annotations load_location (kind.get_annotations s.workload) new_scope
        ≡ ok scope
      → lookup (kind.get_namespace s.workload) shared.namespaces ≡ o
      → Guarded s (in_namespace kind api config load_location now shared scope o s)
  unfolding in_namespace
  namespace_guard s scope none p n = inl ((refl, refl), unknown n refl)
  namespace_guard s scope (some namespace) p n = grace_guard s scope namespace _ p n refl

  scope_guard :
      (s : Session R C) (r : Result Scope)
      → get_scope_from_annotations load_location (kind.get_annotations s.workload) new_scope ≡ r
      → Guarded s (with_scope kind api config load_location now shared r s)
  unfolding with_scope
  scope_guard s (err e) p = inl ((refl, refl), invalid e p refl)
  scope_guard s (ok scope) p = namespace_guard s scope _ p refl

  -- A scan acts on the workload or stops for a reason. Where it stops, it leaves the workload and
  -- the cluster as they are, and either its annotations are invalid, its namespace is unknown, its
  -- grace period cannot be told, it is in it, or it is excluded and `upscale-excluded` is not set;
  -- the error returned is the one of the first three reasons, and none for the last two. Where it
  -- acts, the annotations are valid, the namespace is known, the workload is not in its grace
  -- period, and the attempt to scale, with the children after it, is by the decision to scale up if
  -- the workload is excluded, in which case `upscale-excluded` is set, and by the decision of its
  -- scopes if it is not.
  pub scan_workload-guards :
      (s : Session R C)
      → (IsUntouched s (scan_workload kind api config load_location now shared s)
          × Stops s (scan_workload kind api config load_location now shared s).1)
        ⊎ Acts s (scan_workload kind api config load_location now shared s)
  unfolding scan_workload
  scan_workload-guards s = scope_guard s _ refl
