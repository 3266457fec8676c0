-- ===== src/Scalable/Filter/Accounting.antt =====
-- What the metrics record of the workloads that `FilterExcluded` leaves out.
use go_kube_downscaler.Prelude.{
  ℕ, suc, ◌+◌, ◌≡◌, refl, ap, sym, ◌∙◌, inl, inr, List, [], ◌∷◌, none, some, String, str_eq,
  str_eq_iff, str_eq_refl, if◌then◌else◌, Bool-cases, arith,
}
use go_kube_downscaler.Dict.{Dict, lookup, insert, lookup-insert}
use go_kube_downscaler.Metrics.{
  new_namespace_metrics_holder, NamespaceMetricsHolder, Holder, increment_excluded,
}
use go_kube_downscaler.Scalable.Filter.{
  RegexList, Listed, WorkloadIdentifier, NamespaceMetrics, or_new, with_holder, count_excluded,
  insert_if, is_scanned, filter_from, filter_excluded,
}

-- How many of the workloads are in a namespace.
abbrev pub count_in : {W : Type 0} → (W → Listed) → String → List W → ℕ
count_in view namespace [] = 0
count_in view namespace (w ∷ ws) =
    if str_eq (view w).namespace namespace
    then suc (count_in view namespace ws)
    else count_in view namespace ws

-- The metrics of a round with the holder of one namespace made.
abbrev pub made : String → Dict NamespaceMetricsHolder → Dict NamespaceMetricsHolder
made n m = insert n (or_new (lookup n m)) m

-- The metrics with one exclusion more for the namespace.
abbrev pub counted : String → Dict NamespaceMetricsHolder → Dict NamespaceMetricsHolder
unfolding increment_excluded
counted n m = insert_if n (increment_excluded (some (or_new (lookup n m)))) (made n m)

pub count_excluded-with_holder :
    (n : String) (m : Dict NamespaceMetricsHolder)
    → count_excluded n (with_holder n (some m)) ≡ some (counted n m)
unfolding count_excluded with_holder increment_excluded
count_excluded-with_holder n m = rw (lookup-insert n n (or_new (lookup n m)) m, str_eq_refl n) refl

-- A measure of holders that an exclusion raises by one, and that a new holder does not have.
pub record IsMeasure (measure : Holder → ℕ) : Type 0 where
  pub of_none : measure none ≡ 0
  pub of_new : measure (some new_namespace_metrics_holder) ≡ 0
  pub of_excluded :
      (h : NamespaceMetricsHolder) → measure (increment_excluded (some h)) ≡ suc (measure (some h))

-- The measure of the holder of a namespace.
abbrev pub measured : (Holder → ℕ) → String → NamespaceMetrics → ℕ
measured measure namespace none = measure none
measured measure namespace (some m) = measure (lookup namespace m)

module _ (measure : Holder → ℕ) (laws : IsMeasure measure) where
  measure-or_new : (o : Holder) → measure (some (or_new o)) ≡ measure o
  measure-or_new none = laws.of_new ∙ sym laws.of_none
  measure-or_new (some h) = refl

  measure-made :
      (n k : String) (m : Dict NamespaceMetricsHolder)
      → measure (lookup k (made n m)) ≡ measure (lookup k m)
  measure-made n k m = elim (Bool-cases (str_eq n k)) [
    | inl y ↦
        rw (lookup-insert n k (or_new (lookup n m)) m, y)
          (measure-or_new (lookup n m) ∙ ap (λ j. measure (lookup j m)) ((str_eq_iff n k).0 y))
    | inr o ↦ rw (lookup-insert n k (or_new (lookup n m)) m, o) refl
  ]

  measure-counted :
      (n k : String) (m : Dict NamespaceMetricsHolder)
      → measure (lookup k (counted n m))
        ≡ (if str_eq n k then suc (measure (lookup k m)) else measure (lookup k m))
  unfolding counted increment_excluded
  measure-counted n k m = elim (Bool-cases (str_eq n k)) [
    | inl y ↦
        rw (lookup-insert n k _ (made n m), y)
          (laws.of_excluded (or_new (lookup n m))
            ∙ ap suc (measure-or_new (lookup n m))
            ∙ ap (λ j. suc (measure (lookup j m))) ((str_eq_iff n k).0 y))
    | inr o ↦ rw (lookup-insert n k _ (made n m), o) (measure-made n k m)
  ]

  module _ (include_labels excluded_namespaces excluded_workloads : RegexList)
      (externally_scaled : List WorkloadIdentifier) {W : Type 0} (view : W → Listed) where
    abbrev filtered : List W → NamespaceMetrics → List W × NamespaceMetrics
    filtered =
        filter_from include_labels excluded_namespaces excluded_workloads externally_scaled view

    filtered-counts :
        (k : String) (ws : List W) (m : Dict NamespaceMetricsHolder)
        → measured measure k (filtered ws (some m)).1 + count_in view k (filtered ws (some m)).0
          ≡ measure (lookup k m) + count_in view k ws
    unfolding filter_from
    filtered-counts k [] m = refl
    filtered-counts k (w ∷ ws) m =
        elim (Bool-cases (
          is_scanned include_labels excluded_namespaces excluded_workloads externally_scaled
            (view w))) [
              | inl y ↦ rw y (
                  ground (
                    arith,
                    filtered-counts k ws (made (view w).namespace m),
                    measure-made (view w).namespace k m,
                  ))
              | inr o ↦
                  rw (o, count_excluded-with_holder (view w).namespace m)
                    (ground (
                      arith,
                      filtered-counts k ws (counted (view w).namespace m),
                      measure-counted (view w).namespace k m,
                    ))
            ]

  pub filter_excluded-measures :
      {W : Type 0} (view : W → Listed) (namespace : String) (workloads : List W)
      (include_labels excluded_namespaces excluded_workloads : RegexList)
      (m : Dict NamespaceMetricsHolder)
      → measured measure namespace
            (filter_excluded view workloads include_labels excluded_namespaces excluded_workloads
              (some m)).1
          + count_in view namespace
              (filter_excluded view workloads include_labels excluded_namespaces excluded_workloads
                (some m)).0
        ≡ measure (lookup namespace m) + count_in view namespace workloads
  unfolding filter_excluded
  filter_excluded-measures view namespace workloads include_labels excluded_namespaces
        excluded_workloads m =
      filtered-counts include_labels excluded_namespaces excluded_workloads _ view namespace
        workloads m

abbrev pub excluded_of : Holder → ℕ
excluded_of none = 0
excluded_of (some h) = h.excluded_workloads

excluded_of-IsMeasure : IsMeasure excluded_of
unfolding increment_excluded
excluded_of-IsMeasure = record { of_none = refl; of_new = refl; of_excluded = λ h. omega arith }

-- The number of exclusions that the metrics have for a namespace.
abbrev pub excluded_in : String → NamespaceMetrics → ℕ
excluded_in = measured excluded_of

-- `FilterExcluded` returns or counts every workload: in each namespace, the exclusions that it adds
-- to the metrics and the workloads that it returns are together the workloads that it was given.
-- Metrics are enabled; a namespace without a holder counts as one without exclusions.
pub filter_excluded-counts :
    {W : Type 0} (view : W → Listed) (namespace : String) (workloads : List W)
    (include_labels excluded_namespaces excluded_workloads : RegexList)
    (m : Dict NamespaceMetricsHolder)
    → excluded_in namespace
          (filter_excluded view workloads include_labels excluded_namespaces excluded_workloads
            (some m)).1
        + count_in view namespace
            (filter_excluded view workloads include_labels excluded_namespaces excluded_workloads
              (some m)).0
      ≡ excluded_in namespace (some m) + count_in view namespace workloads
filter_excluded-counts view namespace workloads include_labels excluded_namespaces
      excluded_workloads m =
    filter_excluded-measures excluded_of excluded_of-IsMeasure view namespace workloads
      include_labels excluded_namespaces excluded_workloads m
