-- ===== src/Downscaler/Round/Holders.antt =====
-- Which namespaces have a holder during a round, and what the holders count.
use go_kube_downscaler.Prelude.{
  suc, ◌≡◌, refl, sym, ap, ◌∙◌, true, inl, inr, Bool-cases, none, some, List, [], ◌∷◌, String,
  str_eq, str_eq_iff, if◌then◌else◌, arith,
}
use go_kube_downscaler.Dict.{Dict, lookup, lookup-insert}
use go_kube_downscaler.Metrics.{
  NamespaceMetricsHolder, Holder, increment_excluded, mark_parsing_namespace_scope_error,
}
use go_kube_downscaler.Metrics.Totals.{outcomes}
use go_kube_downscaler.Scalable.Filter.{NamespaceMetrics, insert_if}
use go_kube_downscaler.Scalable.Filter.Accounting.{IsMeasure}
use go_kube_downscaler.Downscaler.Namespaces.{handle_namespace_scope_parsing_errors, mark_error}
use go_kube_downscaler.Scalable.Filter.Holders.{has, has-insert_if}

-- The outcomes of a holder are a measure that an exclusion raises by one.
pub outcomes-IsMeasure : IsMeasure outcomes
unfolding increment_excluded
outcomes-IsMeasure = record { of_none = refl; of_new = refl; of_excluded = λ h. omega arith }

-- What a scan puts back counts one outcome more than before.
pub outcomes-insert_if :
    (n k : String) (o : Holder) (d : Dict NamespaceMetricsHolder)
    → outcomes o ≡ suc (outcomes (lookup n d))
    → outcomes (lookup k (insert_if n o d))
      ≡ (if str_eq n k then suc (outcomes (lookup k d)) else outcomes (lookup k d))
outcomes-insert_if n k none d e = absurd (omega (arith, e))
outcomes-insert_if n k (some h) d e = elim (Bool-cases (str_eq n k)) [
  | inl y ↦
      rw (lookup-insert n k h d, y)
        (e ∙ ap (λ j. suc (outcomes (lookup j d))) ((str_eq_iff n k).0 y))
  | inr o ↦ rw (lookup-insert n k h d, o) refl
]

-- The marks of parsing errors leave the holders and their outcomes.
abbrev pub Marked : Dict NamespaceMetricsHolder → NamespaceMetrics → Type 0
Marked d m =
    (d' : Dict NamespaceMetricsHolder) × (m ≡ some d')
    × ((k : String) → has k d ≡ true → has k d' ≡ true)
    × ((k : String) → outcomes (lookup k d') ≡ outcomes (lookup k d))

mark_outcomes :
    (n k : String) (d : Dict NamespaceMetricsHolder) (o : Holder)
    → lookup n d ≡ o
    → outcomes (lookup k (insert_if n (mark_parsing_namespace_scope_error o) d))
      ≡ outcomes (lookup k d)
unfolding mark_parsing_namespace_scope_error
mark_outcomes n k d none e = refl
mark_outcomes n k d (some h) e = elim (Bool-cases (str_eq n k)) [
  | inl y ↦
      rw (lookup-insert n k (record h { parsing_namespace_scope_errors = 1 }) d, y)
        (ap outcomes (sym e) ∙ ap (λ j. outcomes (lookup j d)) ((str_eq_iff n k).0 y))
  | inr o ↦ rw (lookup-insert n k (record h { parsing_namespace_scope_errors = 1 }) d, o) refl
]

pub handle_namespace_scope_parsing_errors-Marked :
    (failed : List String) (d : Dict NamespaceMetricsHolder)
    → Marked d (handle_namespace_scope_parsing_errors failed (some d))
unfolding handle_namespace_scope_parsing_errors mark_error
handle_namespace_scope_parsing_errors-Marked [] d = (d, refl, λ k e. e, λ k. refl)
handle_namespace_scope_parsing_errors-Marked (n ∷ failed) d =
    let o = mark_parsing_namespace_scope_error (lookup n d) in
    let (d', e, grown, same) =
      handle_namespace_scope_parsing_errors-Marked failed (insert_if n o d) in
    (
      d',
      e,
      λ k h. grown k (has-insert_if n k o d h),
      λ k. same k ∙ mark_outcomes n k d (lookup n d) refl,
    )
