-- ===== src/Admission/Mutation/Lowering.antt =====
-- The branches of `evaluateWorkloadScalingConditions`.
use go_kube_downscaler.Prelude.{◌≡◌, refl, true, false, inl, inr, Bool-cases, none, some, String, ℤ}
use go_kube_downscaler.Fault.{Result, ok, err}
use go_kube_downscaler.Text.{Text, codes}
use go_kube_downscaler.Replicas.{Replicas}
use go_kube_downscaler.Scalable.{ScalingSummary}
use go_kube_downscaler.Time.{Location}
use go_kube_downscaler.Values.{
  Scopes, Scaling, scaling_none, scaling_ignore, scaling_down, scaling_up, scaling_multiple,
  scaling_incomplete,
}
use go_kube_downscaler.Values.Query.{get_downscale_replicas}
use go_kube_downscaler.Values.Decision.{get_current_scaling}
use go_kube_downscaler.Admission.{AdmissionMetrics}
use go_kube_downscaler.Admission.Mutation.Ends.{
  IsConsidered, IsDifference, IsMutation, Ends, without_error, with_error, not_accounted, ambiguous,
  without_target, not_copied,
}
use go_kube_downscaler.Admission.Scaling.{
  Mutable, Handler, Lookups, Outcome, patched, compared, lowered, copied, mutate_workload,
  downscaled, evaluate_workload_scaling_conditions,
}

module _ {R P : Type 0} (ops : Mutable R P) (lookups : Lookups)
    (load_location : Text → Result Location) (now : ℤ) (h : Handler) (uid : Text) (w : R) where
  abbrev of_workload : String
  of_workload = (ops.listed w).namespace

  abbrev Considered : Scopes → Type 0
  Considered scopes = IsConsidered ops lookups load_location now h uid w scopes

  abbrev Different : Replicas → Text → Type 0
  Different replicas patch = IsDifference ops lookups load_location now h uid w replicas patch

  abbrev Mutated : Text → Type 0
  Mutated patch = IsMutation ops lookups load_location now h uid w patch

  module _ (m : AdmissionMetrics) (End : Outcome → Type 0)
      (ends : Ends ops lookups load_location now h uid w m End) where
    patched_end :
        (r : Result Text)
        → ((patch : Text) → r ≡ ok patch → h.dry_run ≡ false → Mutated patch)
        → End (patched h uid of_workload ops r m)
    patched_end (err e) k = ends.reviewed _ true true (some e) (with_error e)
    patched_end (ok patch) k = elim (Bool-cases h.dry_run) [
      | inl y ↦ rw y (
          rw y at
            (ends.reviewed (codes "would have patched workload") false false none without_error))
      | inr n ↦ rw n (ends.mutated patch (k patch refl n))
    ]

    compared_end :
        (r : Result P)
        → ((patch : Text) (difference : P)
            → r ≡ ok difference
            → ops.marshal difference ≡ ok patch
            → h.dry_run ≡ false
            → Mutated patch)
        → End (compared h uid of_workload ops r m)
    compared_end (err e) k = ends.reviewed _ true true (some e) (with_error e)
    compared_end (ok difference) k =
        patched_end (ops.marshal difference) (λ patch a b. k patch difference refl a b)

    lowered_end :
        (r : Result (R × ScalingSummary))
        → ((patch : Text) (difference : P) (result : R) (summary : ScalingSummary)
            → r ≡ ok (result, summary)
            → ops.compare w result ≡ ok difference
            → ops.marshal difference ≡ ok patch
            → h.dry_run ≡ false
            → Mutated patch)
        → End (lowered h uid of_workload ops w r m)
    lowered_end (err e) k = ends.reviewed _ true true (some e) (with_error e)
    lowered_end (ok (result, summary)) k =
        compared_end (ops.compare w result)
          (λ patch difference a b c. k patch difference result summary refl a b c)

    copied_end :
        (replicas : Replicas) (r : Result R)
        → ops.copy w ≡ r
        → ((patch : Text) → Different replicas patch → Mutated patch)
        → End (copied h uid of_workload ops replicas w r m)
    copied_end replicas (err e) i k =
        ends.reviewed _ false true (some e) (not_accounted _ (not_copied e refl i))
    copied_end replicas (ok copy) i k =
        lowered_end (ops.scale_down replicas copy) (λ patch difference result summary a b c d.
          k patch (record {
            copy = copy;
            result = result;
            summary = summary;
            difference = difference;
            is_copy = i;
            is_lowered = a;
            is_compared = b;
            is_written = c;
            not_dry = d;
          }))

    downscaled_end :
        (scopes : Scopes) (r : Result Replicas)
        → Considered scopes
        → (get_current_scaling now scopes).scaling ≡ scaling_down
        → get_downscale_replicas scopes ≡ r
        → ((patch : Text) (replicas : Replicas)
            → r ≡ ok replicas
            → Different replicas patch
            → Mutated patch)
        → End (downscaled h uid of_workload ops r w m)
    unfolding mutate_workload
    downscaled_end scopes (err e) c d t k =
        ends.reviewed _ false true (some e) (not_accounted _ (without_target scopes e c d refl t))
    downscaled_end scopes (ok replicas) c d t k =
        copied_end replicas (ops.copy w) refl (λ patch d. k patch replicas refl d)

    pub scaling_end :
        (scopes : Scopes) (scaling : Scaling)
        → (get_current_scaling now scopes).scaling ≡ scaling
        → Considered scopes
        → End (evaluate_workload_scaling_conditions h uid of_workload ops scaling scopes w m)
    unfolding evaluate_workload_scaling_conditions
    scaling_end scopes scaling_none d c = ends.reviewed _ false false none without_error
    scaling_end scopes scaling_ignore d c = ends.reviewed _ false false none without_error
    scaling_end scopes scaling_incomplete d c = ends.reviewed _ false false none without_error
    scaling_end scopes scaling_multiple d c =
        ends.reviewed _ false false _ (not_accounted _ (ambiguous scopes c refl d))
    scaling_end scopes scaling_up d c =
        ends.ignored _ (record { scopes = scopes; considered = c; to_scale_up = d })
    scaling_end scopes scaling_down d c =
        downscaled_end scopes (get_downscale_replicas scopes) c d refl (λ patch replicas t change.
          record {
            scopes = scopes;
            replicas = replicas;
            considered = c;
            to_scale_down = d;
            target = t;
            change = change;
          })
