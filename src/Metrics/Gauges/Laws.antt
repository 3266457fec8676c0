-- ===== src/Metrics/Gauges/Laws.antt =====
-- What the gauges show after `UpdateMetrics`.
use go_kube_downscaler.Prelude.{
  ◌≡◌, refl, ◌∙◌, Bool, true, false, inl, inr, Bool-cases, Option-cases, Option, none, some,
  is_some, any, List, [], ◌∷◌, String, str_eq, if◌then◌else◌, ap, str_eq_iff,
}
use go_kube_downscaler.Dict.{Dict, lookup, delete, lookup-insert, lookup-delete}
use go_kube_downscaler.Metrics.{NamespaceMetricsHolder}
use go_kube_downscaler.Metrics.Gauges.{
  Gauges, keys, delete_gone, set_current, entries, update_metrics,
}

abbrev Holders : Type 0
Holders = Dict NamespaceMetricsHolder

abbrev shown :
    Option NamespaceMetricsHolder → Option NamespaceMetricsHolder → Option NamespaceMetricsHolder
shown none below = below
shown (some h) below = some h

lookup-set_current :
    (k : String) (current gauges : Holders)
    → lookup k (set_current current gauges) ≡ shown (lookup k current) (lookup k gauges)
unfolding set_current lookup
lookup-set_current k [] gauges = refl
lookup-set_current k ((j, h) ∷ current) gauges = elim (Bool-cases (str_eq j k)) [
  | inl y ↦ rw (lookup-insert j k h (set_current current gauges), y) refl
  | inr n ↦
      rw (lookup-insert j k h (set_current current gauges), n) (lookup-set_current k current gauges)
]

same_branches : (b : Bool) → ◌≡◌ {A = Option NamespaceMetricsHolder} (if b then none else none) none
same_branches true = refl
same_branches false = refl

-- A namespace that is gone has no gauges where it is among the previous ones, or had none before.
lookup-delete_gone :
    (k : String) (current : Holders) (previous : List String) (gauges : Holders)
    → lookup k current ≡ none
    → lookup k (delete_gone current previous gauges)
      ≡ (if any (λ j. str_eq j k) previous then none else lookup k gauges)
unfolding delete_gone
lookup-delete_gone k current [] gauges e = refl
lookup-delete_gone k current (j ∷ previous) gauges e = elim (Bool-cases (str_eq j k)) [
  | inl y ↦
      rw (y, ap (λ x. lookup x current) ((str_eq_iff j k).0 y) ∙ e)
        (lookup-delete_gone k current previous (delete j gauges) e
          ∙ rw (lookup-delete j k gauges, y) (same_branches (any (λ x. str_eq x k) previous)))
  | inr n ↦ elim (Bool-cases (is_some (lookup j current))) [
    | inl there ↦ rw (n, there) (lookup-delete_gone k current previous gauges e)
    | inr gone ↦
        rw (n, gone)
          (lookup-delete_gone k current previous (delete j gauges) e
            ∙ rw (lookup-delete j k gauges, n) refl)
  ]
]

lookup-keys :
    (k : String) (m : Holders) → any (λ j. str_eq j k) (keys m) ≡ false → lookup k m ≡ none
unfolding lookup
lookup-keys k [] e = refl
lookup-keys k ((j, h) ∷ m) e = elim (Bool-cases (str_eq j k)) [
  | inl y ↦ cc (rw y at e)
  | inr n ↦ rw n (lookup-keys k m (rw n at e))
]

lookup-delete_keys :
    (k : String) (current previous gauges : Holders)
    → lookup k current ≡ none
    → lookup k gauges ≡ lookup k previous
    → lookup k (delete_gone current (keys previous) gauges) ≡ none
lookup-delete_keys k current previous gauges e same =
    lookup-delete_gone k current (keys previous) gauges e
    ∙ elim (Bool-cases (any (λ j. str_eq j k) (keys previous))) [
      | inl y ↦ rw y refl
      | inr n ↦ rw n (same ∙ lookup-keys k previous n)
    ]

-- Where the gauges show the previous metrics, they show the current ones after the update.
pub lookup-update_metrics :
    (k : String) (current previous : Option Holders) (gauges : Gauges)
    → lookup k gauges.namespaces ≡ lookup k (entries previous)
    → lookup k (update_metrics true current previous gauges).namespaces ≡ lookup k (entries current)
unfolding update_metrics
lookup-update_metrics k current previous gauges same =
    let c = entries current in
    let g = delete_gone c (keys (entries previous)) gauges.namespaces in
    lookup-set_current k c g ∙ elim (Option-cases (lookup k c)) [
      | inl gone ↦ rw gone (lookup-delete_keys k c (entries previous) gauges.namespaces gone same)
      | inr (h, there) ↦ rw there refl
    ]
