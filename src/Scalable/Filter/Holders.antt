-- ===== src/Scalable/Filter/Holders.antt =====
-- Which namespaces have a holder after `FilterExcluded`.
use go_kube_downscaler.Prelude.{
  ◌≡◌, refl, Bool, true, inl, inr, Bool-cases, none, some, is_some, All, List, [], ◌∷◌, map, String,
  str_eq_refl, arith,
}
use go_kube_downscaler.Dict.{Dict, lookup, insert, lookup-insert}
use go_kube_downscaler.Metrics.{NamespaceMetricsHolder, Holder, increment_excluded}
use go_kube_downscaler.Scalable.Filter.{
  RegexList, Listed, WorkloadIdentifier, NamespaceMetrics, get_externally_scaled, or_new,
  with_holder, insert_if, is_scanned, filter_from, filter_excluded,
}
use go_kube_downscaler.Scalable.Filter.Accounting.{made, counted, count_excluded-with_holder}

abbrev pub has : String → Dict NamespaceMetricsHolder → Bool
has k d = is_some (lookup k d)

pub has-insert :
    (n k : String) (h : NamespaceMetricsHolder) (d : Dict NamespaceMetricsHolder)
    → has k d ≡ true
    → has k (insert n h d) ≡ true
has-insert n k h d e = rw (lookup-insert n k h d) (ground arith)

pub has-insert_self :
    (n : String) (h : NamespaceMetricsHolder) (d : Dict NamespaceMetricsHolder)
    → has n (insert n h d) ≡ true
has-insert_self n h d = rw (lookup-insert n n h d, str_eq_refl n) refl

pub has-insert_if :
    (n k : String) (o : Holder) (d : Dict NamespaceMetricsHolder)
    → has k d ≡ true
    → has k (insert_if n o d) ≡ true
has-insert_if n k none d e = e
has-insert_if n k (some h) d e = has-insert n k h d e

-- The holders of before are kept, and every workload that is kept has one.
abbrev pub HasHolders :
    {W : Type 0} → (W → Listed) → Dict NamespaceMetricsHolder → List W × NamespaceMetrics → Type 0
HasHolders view d r =
    (d' : Dict NamespaceMetricsHolder) × (r.1 ≡ some d')
    × ((k : String) → has k d ≡ true → has k d' ≡ true)
    × All (λ w. has (view w).namespace d' ≡ true) r.0

has-counted :
    (n k : String) (d : Dict NamespaceMetricsHolder) → has k d ≡ true → has k (counted n d) ≡ true
unfolding increment_excluded
has-counted n k d e = has-insert n k _ (made n d) (has-insert n k (or_new (lookup n d)) d e)

module _ (include_labels excluded_namespaces excluded_workloads : RegexList)
    (externally_scaled : List WorkloadIdentifier) {W : Type 0} (view : W → Listed) where
  filter_from-HasHolders :
      (ws : List W) (d : Dict NamespaceMetricsHolder)
      → HasHolders view d (
          filter_from include_labels excluded_namespaces excluded_workloads externally_scaled view
            ws
            (some d))
  unfolding filter_from with_holder
  filter_from-HasHolders [] d = (d, refl, λ k e. e, tt)
  filter_from-HasHolders (w ∷ ws) d =
      elim (Bool-cases (
        is_scanned include_labels excluded_namespaces excluded_workloads externally_scaled
          (view w))) [
            | inl y ↦
                let n = (view w).namespace in
                let (d', e, grown, kept) = filter_from-HasHolders ws (made n d) in
                rw y (
                  d',
                  e,
                  λ k h. grown k (has-insert n k _ d h),
                  (grown n (has-insert_self n (or_new (lookup n d)) d), kept),
                )
            | inr o ↦
                let n = (view w).namespace in
                let (d', e, grown, kept) = filter_from-HasHolders ws (counted n d) in
                rw (o, count_excluded-with_holder n d)
                  (d', e, λ k h. grown k (has-counted n k d h), kept)
          ]

  -- What holds of all workloads holds of those that are kept.
  filter_from-All :
      (P : W → Type 0) (ws : List W) (m : NamespaceMetrics)
      → All P ws
      → All P
          (filter_from include_labels excluded_namespaces excluded_workloads externally_scaled view
            ws m).0
  unfolding filter_from
  filter_from-All P [] m h = tt
  filter_from-All P (w ∷ ws) m (h, hs) =
      elim (Bool-cases (
        is_scanned include_labels excluded_namespaces excluded_workloads externally_scaled
          (view w))) [
            | inl y ↦ rw y (h, filter_from-All P ws _ hs)
            | inr n ↦ rw n (filter_from-All P ws _ hs)
          ]

pub filter_excluded-All :
    {W : Type 0} (P : W → Type 0) (view : W → Listed) (workloads : List W)
    (include_labels excluded_namespaces excluded_workloads : RegexList) (m : NamespaceMetrics)
    → All P workloads
    → All P
        (filter_excluded view workloads include_labels excluded_namespaces excluded_workloads m).0
unfolding filter_excluded
filter_excluded-All P view workloads include_labels excluded_namespaces excluded_workloads m h =
    filter_from-All include_labels excluded_namespaces excluded_workloads
      (get_externally_scaled (map view workloads)) view P workloads m h

pub filter_excluded-HasHolders :
    {W : Type 0} (view : W → Listed) (workloads : List W)
    (include_labels excluded_namespaces excluded_workloads : RegexList)
    (d : Dict NamespaceMetricsHolder)
    → HasHolders view d (
        filter_excluded view workloads include_labels excluded_namespaces excluded_workloads
          (some d))
unfolding filter_excluded
filter_excluded-HasHolders view workloads include_labels excluded_namespaces excluded_workloads d =
    filter_from-HasHolders include_labels excluded_namespaces excluded_workloads
      (get_externally_scaled (map view workloads)) view workloads d
