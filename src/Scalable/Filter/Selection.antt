-- ===== src/Scalable/Filter/Selection.antt =====
-- Which workloads `FilterExcluded` returns.
use go_kube_downscaler.Prelude.{
  ◌≢◌, map, refl, ◌≡◌, Bool, true, false, ◌&&◌, any, All, Any, inl, inr, List, [], ◌∷◌, ◌++◌,
  Option, none, some, Bool-cases, arith, ap,
}
use go_kube_downscaler.Text.{Text, codes}
use go_kube_downscaler.Scalable.Filter.{
  count_excluded, RegexList, OwnerReference, ScaleTarget, Listed, WorkloadIdentifier,
  NamespaceMetrics, add_target, identifier_of, matches_workload_identifier, is_externally_scaled,
  get_externally_scaled, is_controller, is_supported_owner_kind, is_managed_by_owner_reference,
  is_name_excluded, is_workload_excluded, is_namespace_excluded, is_matching_labels,
  check_matches_any, is_scanned, filter_from, filter_excluded, with_holder,
}
use go_kube_downscaler.Prelude.{String}

-- No expression of the list matches the text.
abbrev pub Avoids : RegexList → Text → Type 0
Avoids none text = Unit
Avoids (some regexes) text = All (λ matches. matches text ≡ false) regexes

-- Some label matches some expression, where there is a list of them.
abbrev pub HasLabel : RegexList → List (Text × Text) → Type 0
HasLabel none labels = Unit
HasLabel (some regexes) labels =
    Any (λ l. Any (λ matches. matches (l.0 ++ codes "=" ++ l.1) ≡ true) regexes) labels

-- A controller of a kind that is scaled itself.
abbrev pub Manages : OwnerReference → Type 0
Manages o = (o.controller ≡ some true) × (is_supported_owner_kind o.kind ≡ true)

-- A scaled object whose target is the workload.
abbrev pub Targets : Listed → Listed → Type 0
Targets w s =
    (target : ScaleTarget) × (s.scale_target ≡ some target)
    × (matches_workload_identifier (identifier_of s.namespace target) w ≡ true)

pub record IsScannable (include_labels excluded_namespaces excluded_workloads : RegexList)
    (workloads : List Listed) (w : Listed) : Type 0 where
  pub label : HasLabel include_labels w.labels
  pub namespace : Avoids excluded_namespaces (codes w.namespace)
  pub name : Avoids excluded_workloads w.name
  pub unmanaged : All (λ o. ¬ Manages o) w.owner_references
  pub untargeted : All (λ s. ¬ Targets w s) workloads

any-All {ℓ} :
    {A : Type ℓ} (p : A → Bool) (xs : List A) → any p xs ≡ false → All (λ x. p x ≡ false) xs
any-All p [] h = tt
any-All p (x ∷ xs) h = elim (Bool-cases (p x)) [
  | inl y ↦ cc (h, y)
  | inr o ↦ (o, any-All p xs (cc (h, o)))
]

any-Any {ℓ} : {A : Type ℓ} (p : A → Bool) (xs : List A) → any p xs ≡ true → Any (λ x. p x ≡ true) xs
any-Any p [] h = cc h
any-Any p (x ∷ xs) h = elim (Bool-cases (p x)) [
  | inl y ↦ inl y
  | inr o ↦ inr (any-Any p xs (cc (h, o)))
]

-- A predicate on all elements is weakened on each.
All-map {ℓ κ η} :
    {A : Type ℓ} {P : A → Type κ} {Q : A → Type η} (f : (x : A) → P x → Q x) (xs : List A)
    → All P xs
    → All Q xs
All-map f [] h = tt
All-map f (x ∷ xs) (h, hs) = (f x h, All-map f xs hs)

Any-map {ℓ} :
    {A : Type ℓ} {P Q : A → Type 0} (f : (x : A) → P x → Q x) (xs : List A) → Any P xs → Any Q xs
Any-map f [] h = elim h [ ]
Any-map f (x ∷ xs) (inl h) = inl (f x h)
Any-map f (x ∷ xs) (inr h) = inr (Any-map f xs h)

is_name_excluded-Avoids :
    (w : Listed) (r : RegexList) → is_name_excluded w r ≡ false → Avoids r w.name
unfolding check_matches_any
is_name_excluded-Avoids w none h = tt
is_name_excluded-Avoids w (some regexes) h = any-All (λ matches. matches w.name) regexes h

is_namespace_excluded-Avoids :
    (w : Listed) (r : RegexList) → is_namespace_excluded w r ≡ false → Avoids r (codes w.namespace)
unfolding is_namespace_excluded check_matches_any
is_namespace_excluded-Avoids w none h = tt
is_namespace_excluded-Avoids w (some regexes) h =
    any-All (λ matches. matches (codes w.namespace)) regexes h

is_matching_labels-HasLabel :
    (w : Listed) (r : RegexList) → is_matching_labels w r ≡ true → HasLabel r w.labels
unfolding is_matching_labels check_matches_any
is_matching_labels-HasLabel w none h = tt
is_matching_labels-HasLabel w (some regexes) h =
    Any-map
      (λ (l : Text × Text) k. any-Any (λ matches. matches (l.0 ++ codes "=" ++ l.1)) regexes k)
      w.labels (any-Any _ w.labels h)

not_managing :
    (o : OwnerReference)
    → is_controller o.controller && is_supported_owner_kind o.kind ≡ false
    → ¬ Manages o
not_managing o k (c, s) = cc (ap is_controller c, k, s)

unmanaged_of :
    (w : Listed)
    → is_managed_by_owner_reference w ≡ false
    → All (λ o. ¬ Manages o) w.owner_references
unfolding is_managed_by_owner_reference
unmanaged_of w h = All-map not_managing w.owner_references (any-All _ w.owner_references h)

add_target_lem :
    (namespace : String) (o : Option ScaleTarget) (rest : List WorkloadIdentifier) (w : Listed)
    → is_externally_scaled w (add_target namespace o rest) ≡ false
    → ((target : ScaleTarget)
        → o ≡ some target
        → ¬ (matches_workload_identifier (identifier_of namespace target) w ≡ true))
      × (is_externally_scaled w rest ≡ false)
unfolding is_externally_scaled
add_target_lem namespace none rest w h = ((λ target e. cc e), h)
add_target_lem namespace (some t) rest w h =
    elim (Bool-cases (matches_workload_identifier (identifier_of namespace t) w)) [
      | inl y ↦ cc (h, y)
      | inr o ↦ ((λ target e k. cc (e, k, o)), cc (h, o))
    ]

pub untargeted_of :
    (w : Listed) (ws : List Listed)
    → is_externally_scaled w (get_externally_scaled ws) ≡ false
    → All (λ s. ¬ Targets w s) ws
unfolding get_externally_scaled
untargeted_of w [] h = tt
untargeted_of w (s ∷ ws) h =
    let (now, later) = add_target_lem s.namespace s.scale_target (get_externally_scaled ws) w h in
    ((λ (target, e, k). now target e k), untargeted_of w ws later)

module _ (include_labels excluded_namespaces excluded_workloads : RegexList)
    (workloads : List Listed) where
  abbrev pub IsSelected : Listed → Type 0
  IsSelected = IsScannable include_labels excluded_namespaces excluded_workloads workloads

  pub scanned-IsSelected :
      (w : Listed)
      → is_scanned include_labels excluded_namespaces excluded_workloads
          (get_externally_scaled workloads)
          w
        ≡ true
      → IsSelected w
  unfolding is_scanned is_workload_excluded
  scanned-IsSelected w h = record {
    label = is_matching_labels-HasLabel w include_labels (grind arith);
    namespace = is_namespace_excluded-Avoids w excluded_namespaces (grind arith);
    name = is_name_excluded-Avoids w excluded_workloads (grind arith);
    unmanaged = unmanaged_of w (grind arith);
    untargeted = untargeted_of w workloads (grind arith);
  }

  module _ {W : Type 0} (view : W → Listed) where
    filtered-IsSelected :
        (ws : List W) (m : NamespaceMetrics)
        → All
            (λ w. IsSelected (view w))
            (filter_from include_labels excluded_namespaces excluded_workloads
              (get_externally_scaled workloads)
              view
              ws
              m).0
    unfolding filter_from
    filtered-IsSelected [] m = tt
    filtered-IsSelected (w ∷ ws) m =
        elim (Bool-cases (
          is_scanned include_labels excluded_namespaces excluded_workloads
            (get_externally_scaled workloads) (view w))) [
              | inl y ↦ rw y (
                scanned-IsSelected (view w) y,
                filtered-IsSelected ws (with_holder (view w).namespace m),
              )
              | inr o ↦ rw o (filtered-IsSelected ws _)
            ]

module _ (include_labels excluded_namespaces excluded_workloads : RegexList) {W : Type 0}
    (view : W → Listed) where
  -- What `FilterExcluded` returns has a label that is asked for, is in no excluded namespace, has
  -- no excluded name, has no controller of a kind that is scaled itself, and is the target of no
  -- scaled object among the workloads.
  pub filter_excluded-IsScannable :
      (workloads : List W) (m : NamespaceMetrics)
      → All
          (λ w.
            IsScannable include_labels excluded_namespaces excluded_workloads
              (map view workloads)
              (view w))
          (filter_excluded view workloads include_labels excluded_namespaces excluded_workloads m).0
  unfolding filter_excluded
  filter_excluded-IsScannable workloads m =
      filtered-IsSelected include_labels excluded_namespaces excluded_workloads (map view workloads)
        view workloads m

  -- One workload that is left over can be scanned.
  pub filter_excluded_singleton :
      (w : W)
      → (filter_excluded view (w ∷ []) include_labels excluded_namespaces excluded_workloads none).0
        ≢ []
      → IsScannable include_labels excluded_namespaces excluded_workloads (view w ∷ []) (view w)
  unfolding filter_excluded filter_from with_holder count_excluded
  filter_excluded_singleton w k =
      elim (Bool-cases (
        is_scanned include_labels excluded_namespaces excluded_workloads
          (get_externally_scaled (view w ∷ [])) (view w))) [
            | inl y ↦
                scanned-IsSelected include_labels excluded_namespaces excluded_workloads
                  (view w ∷ []) (view w) y
            | inr n ↦ absurd (k (rw n refl))
          ]
