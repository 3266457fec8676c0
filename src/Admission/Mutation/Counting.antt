-- ===== src/Admission/Mutation/Counting.antt =====
-- What the webhook counts.
use go_kube_downscaler.Prelude.{
  ◌+◌, ◌≡◌, ◌⊎◌, inl, inr, refl, ◌∙◌, Bool, true, false, Option, none, some, is_some, ℤ, String,
  str_eq, str_eq_refl, if◌then◌else◌, arith, Bool-cases,
}
use go_kube_downscaler.Fault.{Fault, Result}
use go_kube_downscaler.Text.{Text}
use go_kube_downscaler.Dict.{Dict, lookup, lookup-insert}
use go_kube_downscaler.Time.{Location}
use go_kube_downscaler.Admission.{
  AdmissionMetrics, AdmissionReview, Results, or_zero, counted, update_requests_total,
  new_review_response, new_patch_review_response,
}
use go_kube_downscaler.Admission.Mutation.{evaluate_workload_mutation}
use go_kube_downscaler.Admission.Scaling.{review, Mutable, Handler, Lookups, Outcome, count}
use go_kube_downscaler.Admission.Mutation.Ends.{
  Ends, IsScaledUp, IsUnaccounted, Accounts, without_error, with_error, not_accounted,
}
use go_kube_downscaler.Admission.Mutation.Branches.{evaluate_workload_mutation_ends}

-- The counters of a namespace.
abbrev pub results_in : String → AdmissionMetrics → Results
results_in namespace none = or_zero none
results_in namespace (some d) = or_zero (lookup namespace d)

results_in-update :
    (mutated failed : Bool) (namespace k : String) (d : Dict Results)
    → results_in k (update_requests_total true mutated failed namespace (some d)) ≡ (
        if str_eq namespace k
        then counted mutated failed (results_in namespace (some d))
        else results_in k (some d))
unfolding update_requests_total
results_in-update mutated failed namespace k d = elim (Bool-cases (str_eq namespace k)) [
  | inl y ↦
      rw (lookup-insert namespace k (counted mutated failed (or_zero (lookup namespace d))) d, y)
        refl
  | inr n ↦
      rw (lookup-insert namespace k (counted mutated failed (or_zero (lookup namespace d))) d, n)
        refl
]

module _ {R P : Type 0} (ops : Mutable R P) (lookups : Lookups)
    (load_location : Text → Result Location) (now : ℤ) (h : Handler) where
  -- The counter of errors goes up with an error, or stays, with none or one that is not counted.
  abbrev pub ErrorsCounted : Text → R → String → Dict Results → Outcome → Type 0
  ErrorsCounted uid w namespace d o =
      (((results_in namespace o.0).errors ≡ (results_in namespace (some d)).errors + 1)
        × (is_some o.2 ≡ true)
        × (o.1.patch ≡ none))
      ⊎ (((results_in namespace o.0).errors ≡ (results_in namespace (some d)).errors)
          × ((o.2 ≡ none) ⊎ IsUnaccounted ops lookups load_location now h uid w o.2))

  -- The counters of the namespace go up by the outcome, and those of no other.
  abbrev pub IsCounted : Text → R → String → Dict Results → Outcome → Type 0
  IsCounted uid w namespace d o =
      ((results_in namespace o.0).mutated ≡ (
        if is_some o.1.patch
        then (results_in namespace (some d)).mutated + 1
        else (results_in namespace (some d)).mutated))
      × ((results_in namespace o.0).not_mutated ≡ (
          if is_some o.1.patch
          then (results_in namespace (some d)).not_mutated
          else (results_in namespace (some d)).not_mutated + 1))
      × ErrorsCounted uid w namespace d o
      × ((k : String) → str_eq namespace k ≡ false → results_in k o.0 ≡ results_in k (some d))

  counted_once :
      (uid : Text) (namespace : String) (mutated failed : Bool) (d : Dict Results)
      → h.metrics_enabled ≡ true
      → results_in namespace (count h uid namespace mutated failed (some d))
        ≡ counted mutated failed (results_in namespace (some d))
  counted_once uid namespace mutated failed d on =
      rw on
        (results_in-update mutated failed namespace namespace d ∙ rw (str_eq_refl namespace) refl)

  counted_there :
      (uid : Text) (namespace k : String) (mutated failed : Bool) (d : Dict Results)
      → h.metrics_enabled ≡ true
      → str_eq namespace k ≡ false
      → results_in k (count h uid namespace mutated failed (some d)) ≡ results_in k (some d)
  counted_there uid namespace k mutated failed d on n =
      rw on (results_in-update mutated failed namespace k d ∙ rw n refl)

  -- The end of a request without a patch.
  reviewed-IsCounted :
      (uid : Text) (w : R) (namespace : String) (failed : Bool) (d : Dict Results)
      (r : AdmissionReview) (e : Option Fault)
      → h.metrics_enabled ≡ true
      → r.patch ≡ none
      → Accounts ops lookups load_location now h uid w failed e
      → IsCounted uid w namespace d (count h uid namespace false failed (some d), r, e)
  reviewed-IsCounted uid w namespace failed d r e on p (without_error) = (
    rw (counted_once uid namespace false false d on, p) (omega arith),
    rw (counted_once uid namespace false false d on, p) refl,
    inr (rw (counted_once uid namespace false false d on) (omega arith), inl refl),
    λ k n. counted_there uid namespace k false false d on n,
  )
  reviewed-IsCounted uid w namespace failed d r e on p (with_error f) = (
    rw (counted_once uid namespace false true d on, p) (omega arith),
    rw (counted_once uid namespace false true d on, p) refl,
    inl (rw (counted_once uid namespace false true d on) refl, refl, p),
    λ k n. counted_there uid namespace k false true d on n,
  )
  reviewed-IsCounted uid w namespace failed d r e on p (not_accounted x u) = (
    rw (counted_once uid namespace false false d on, p) (omega arith),
    rw (counted_once uid namespace false false d on, p) refl,
    inr (rw (counted_once uid namespace false false d on) (omega arith), inr u),
    λ k n. counted_there uid namespace k false false d on n,
  )

  -- The end of a request with a patch.
  patched-IsCounted :
      (uid : Text) (w : R) (namespace : String) (d : Dict Results) (patch : Text)
      → h.metrics_enabled ≡ true
      → IsCounted uid w namespace d
          (count h uid namespace true false (some d), new_patch_review_response uid patch, none)
  unfolding new_patch_review_response
  patched-IsCounted uid w namespace d patch on = (
    rw (counted_once uid namespace true false d on) refl,
    rw (counted_once uid namespace true false d on) (omega arith),
    inr (rw (counted_once uid namespace true false d on) (omega arith), inl refl),
    λ k n. counted_there uid namespace k true false d on n,
  )

  Ends-IsCounted :
      (uid : Text) (w : R) (d : Dict Results)
      → h.metrics_enabled ≡ true
      → Ends ops lookups load_location now h uid w (some d) (λ (o : Outcome).
        IsCounted uid w (ops.listed w).namespace d o
        ⊎ ((o.0 ≡ some d) × (o.1.patch ≡ none) × IsScaledUp ops lookups load_location now h uid w))
  unfolding new_review_response
  Ends-IsCounted uid w d on = record {
    reviewed = λ reason failed warned e a. inl (
        reviewed-IsCounted uid w _ failed d (review h uid (ops.listed w).namespace reason warned) e
          on refl a);
    mutated = λ patch i. inl (patched-IsCounted uid w _ d patch on);
    ignored = λ reason i. inr (refl, refl, i);
  }

  -- A request that the webhook evaluates adds one to the mutated ones of its namespace where its
  -- review has a patch, and one to those not mutated where it has none. Besides that, it adds one
  -- to the errors, always with an error and without a patch, or leaves them as they are: then there
  -- is no error, or it is one of four that are not counted: the scaled objects cannot be listed,
  -- several scalings apply, the scopes give no replicas to scale down to, or the workload cannot be
  -- copied. No counter of another namespace changes. But a request for a workload that gets past
  -- the exclusions and is to scale up has no patch and leaves all counters as they are. Metrics are
  -- enabled.
  pub evaluate_workload_mutation-IsCounted :
      (uid : Text) (w : R) (d : Dict Results)
      → h.metrics_enabled ≡ true
      → IsCounted uid w
          (ops.listed w).namespace
          d
          (evaluate_workload_mutation ops lookups load_location now h uid w (some d))
        ⊎ (((evaluate_workload_mutation ops lookups load_location now h uid w (some d)).0 ≡ some d)
            × ((evaluate_workload_mutation ops lookups load_location now h uid w (some d)).1.patch
                ≡ none)
            × IsScaledUp ops lookups load_location now h uid w)
  evaluate_workload_mutation-IsCounted uid w d on =
      evaluate_workload_mutation_ends ops lookups load_location now h uid w (some d) _
        (Ends-IsCounted uid w d on)
