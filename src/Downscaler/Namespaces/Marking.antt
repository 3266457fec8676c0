-- ===== src/Downscaler/Namespaces/Marking.antt =====
-- Which namespaces of a round have a scope, and which are marked in the metrics.
use go_kube_downscaler.Prelude.{
  ℕ, ◌≡◌, refl, Bool, true, false, ◌||◌, inl, inr, Bool-cases, List, [], ◌∷◌, any, Option, none,
  some, String, str_eq, str_eq_iff, if◌then◌else◌, ◌∙◌, sym, ap,
}
use go_kube_downscaler.Fault.{Result, ok, err, is_ok}
use go_kube_downscaler.Text.{Text}
use go_kube_downscaler.Dict.{Dict, lookup, lookup-insert}
use go_kube_downscaler.Time.{Location}
use go_kube_downscaler.Metrics.{NamespaceMetricsHolder, Holder, mark_parsing_namespace_scope_error}
use go_kube_downscaler.Scalable.Filter.{NamespaceMetrics, insert_if}
use go_kube_downscaler.Values.{Scope}
use go_kube_downscaler.Downscaler.Namespaces.{
  handle_namespace_scope_parsing_errors, mark_error, namespace_set, get_namespace_scope, add_scope,
  collect, get_namespaces_scopes,
}

abbrev pub member : String → List String → Bool
member n ns = any (λ k. str_eq k n) ns

member-namespace_set : (n : String) (ns : List String) → member n (namespace_set ns) ≡ member n ns
unfolding namespace_set
member-namespace_set n [] = refl
member-namespace_set n (k ∷ ns) = elim (Bool-cases (member k (namespace_set ns))) [
  | inl y ↦ elim (Bool-cases (str_eq k n)) [
    | inl same ↦
        rw (y, same) (ap (λ j. member j (namespace_set ns)) (sym ((str_eq_iff k n).0 same)) ∙ y)
    | inr other ↦ rw (y, other) (member-namespace_set n ns)
  ]
  | inr o ↦ rw o (ap (λ b. str_eq k n || b) (member-namespace_set n ns))
]

-- What a namespace has in the map, from the reading of its annotations.
abbrev pub scope_option : Result Scope → Option Scope
scope_option (err e) = none
scope_option (ok scope) = some scope

abbrev pub errors_of : Holder → ℕ
errors_of none = 0
errors_of (some h) = h.parsing_namespace_scope_errors

negated :
    (b : Bool) (x y : ℕ) → (if (if b then false else true) then x else y) ≡ (if b then y else x)
negated true x y = refl
negated false x y = refl

-- The marks of a namespace in the metrics.
abbrev pub errors_in : String → NamespaceMetrics → ℕ
errors_in namespace none = 0
errors_in namespace (some m) = errors_of (lookup namespace m)

other_kept :
    (n k : String) (o : Holder) (m : Dict NamespaceMetricsHolder)
    → str_eq k n ≡ false
    → lookup n (insert_if k (mark_parsing_namespace_scope_error o) m) ≡ lookup n m
unfolding mark_parsing_namespace_scope_error
other_kept n k none m d = refl
other_kept n k (some h) m d = lookup-insert k n _ m ∙ rw d refl

marked_at :
    (n k : String) (h : NamespaceMetricsHolder) (m : Dict NamespaceMetricsHolder)
    → str_eq k n ≡ true
    → lookup n m ≡ some h
    → lookup n (insert_if k (mark_parsing_namespace_scope_error (lookup k m)) m)
      ≡ some (record h { parsing_namespace_scope_errors = 1 })
unfolding mark_parsing_namespace_scope_error
marked_at n k h m s e =
    rw (ap (λ j. lookup j m) ((str_eq_iff k n).0 s) ∙ e) (lookup-insert k n _ m ∙ rw s refl)

handled-marks :
    (n : String) (failed : List String) (m : Dict NamespaceMetricsHolder)
    (h : NamespaceMetricsHolder)
    → lookup n m ≡ some h
    → errors_in n (handle_namespace_scope_parsing_errors failed (some m))
      ≡ (if member n failed then 1 else h.parsing_namespace_scope_errors)
unfolding handle_namespace_scope_parsing_errors mark_error
handled-marks n [] m h e = ap errors_of e
handled-marks n (k ∷ failed) m h e = elim (Bool-cases (str_eq k n)) [
  | inl same ↦ elim (Bool-cases (member n failed)) [
    | inl y ↦ rw same (handled-marks n failed _ _ (marked_at n k h m same e) ∙ rw y refl)
    | inr o ↦ rw same (handled-marks n failed _ _ (marked_at n k h m same e) ∙ rw o refl)
  ]
  | inr other ↦ rw other (handled-marks n failed _ h (other_kept n k (lookup k m) m other ∙ e))
]

module _ (load_location : Text → Result Location)
    (get_namespace_annotations : String → Result (Dict Text)) where
  abbrev pub scope_of : String → Result Scope
  scope_of = get_namespace_scope load_location get_namespace_annotations

  abbrev IsSplit : String → Dict Scope × List String → Bool → Type 0
  IsSplit n r asked =
      (lookup n r.0 ≡ (if asked then scope_option (scope_of n) else none))
      × (member n r.1 ≡ (if asked then (if is_ok (scope_of n) then false else true) else false))

  added_same :
      (n k : String) (o : Result Scope) (r : Dict Scope × List String) (asked : Bool)
      → str_eq k n ≡ true
      → scope_of n ≡ o
      → IsSplit n r asked
      → IsSplit n (add_scope load_location get_namespace_annotations k o r) true
  unfolding add_scope
  added_same n k (err e) r true s p h = rw p (h.0 ∙ ap scope_option p, rw s refl)
  added_same n k (err e) r false s p h = rw p (h.0, rw s refl)
  added_same n k (ok scope) r true s p h =
      rw p
        (lookup-insert k n scope r.0 ∙ rw s refl, h.1 ∙ ap (λ o. if is_ok o then false else true) p)
  added_same n k (ok scope) r false s p h = rw p (lookup-insert k n scope r.0 ∙ rw s refl, h.1)

  added_other :
      (n k : String) (o : Result Scope) (r : Dict Scope × List String) (asked : Bool)
      → str_eq k n ≡ false
      → IsSplit n r asked
      → IsSplit n (add_scope load_location get_namespace_annotations k o r) asked
  unfolding add_scope
  added_other n k (err e) r asked d h = (h.0, rw d h.1)
  added_other n k (ok scope) r asked d h = (lookup-insert k n scope r.0 ∙ rw d h.0, h.1)

  added-IsSplit :
      (n k : String) (o : Result Scope) (r : Dict Scope × List String) (asked : Bool)
      → scope_of k ≡ o
      → IsSplit n r asked
      → IsSplit n (add_scope load_location get_namespace_annotations k o r) (str_eq k n || asked)
  unfolding add_scope
  added-IsSplit n k o r asked e h = elim (Bool-cases (str_eq k n)) [
    | inl same ↦
        rw same (added_same n k o r asked same (ap scope_of (sym ((str_eq_iff k n).0 same)) ∙ e) h)
    | inr other ↦ rw other (added_other n k o r asked other h)
  ]

  collect-IsSplit :
      (n : String) (ns : List String)
      → IsSplit n (collect load_location get_namespace_annotations ns) (member n ns)
  unfolding collect lookup
  collect-IsSplit n [] = (refl, refl)
  collect-IsSplit n (k ∷ ns) = added-IsSplit n k _ _ (member n ns) refl (collect-IsSplit n ns)

  pub lookup-get_namespaces_scopes :
      (n : String) (namespaces : List String)
      → member n namespaces ≡ true
      → lookup n (get_namespaces_scopes load_location get_namespace_annotations namespaces).0
        ≡ scope_option (scope_of n)
  unfolding get_namespaces_scopes
  lookup-get_namespaces_scopes n namespaces asked =
      (collect-IsSplit n (namespace_set namespaces)).0
      ∙ rw (member-namespace_set n namespaces ∙ asked) refl

  -- A round gives a namespace of its workloads the scope that the annotations of the namespace
  -- define. Where they cannot be read it gives none, and then, and only then, marks the error in
  -- the metrics of the namespace. Metrics are enabled, and the namespace has a holder.
  pub handle_namespace_scope_parsing_errors-get_namespaces_scopes :
      (namespace : String) (namespaces : List String) (m : Dict NamespaceMetricsHolder)
      (h : NamespaceMetricsHolder)
      → member namespace namespaces ≡ true
      → lookup namespace m ≡ some h
      → (lookup namespace
            (get_namespaces_scopes load_location get_namespace_annotations namespaces).0
          ≡ scope_option (scope_of namespace))
        × (errors_in namespace (
              handle_namespace_scope_parsing_errors
                (get_namespaces_scopes load_location get_namespace_annotations namespaces).1
                (some m))
            ≡ (if is_ok (scope_of namespace) then h.parsing_namespace_scope_errors else 1))
  unfolding get_namespaces_scopes
  handle_namespace_scope_parsing_errors-get_namespaces_scopes namespace namespaces m h asked e =
      let (found, failed) = collect-IsSplit namespace (namespace_set namespaces) in
      let was = member-namespace_set namespace namespaces ∙ asked in
      (
        found ∙ rw was refl,
        handled-marks namespace _ m h e
            ∙ rw (failed, was)
                (negated (is_ok (scope_of namespace)) 1 h.parsing_namespace_scope_errors),
      )
