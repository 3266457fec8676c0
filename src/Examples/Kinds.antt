-- ===== src/Examples/Kinds.antt =====
-- The theorems on the kinds of workloads, at small objects.
use mathlib.Core.List.{Permᴰ}
use go_kube_downscaler.Prelude.{
  ◌≡◌, refl, sym, ap, ℕ, suc, String, str_eq, [], ◌∷◌, Option, some, ℤ, if◌then◌else◌,
}
use go_kube_downscaler.Fault.{Result, ok, err, api, ok-injective}
use go_kube_downscaler.Text.{codes}
use go_kube_downscaler.Scalable.ReplicaScaled.Laws.{ReplicaLaws}
use go_kube_downscaler.Scalable.Resources.Kafka.{
  Any, int64, kafka_bridge, NestedLaws, kafka_laws, HasPlace, owns_nothing,
}
use go_kube_downscaler.Scalable.Children.{get_children}
use go_kube_downscaler.Scalable.Children.Orders.{AreChildren, get_children-AreChildren}
use go_kube_downscaler.Scalable.Comparing.{
  Boxed, copy, compare, returned, deployment, replica_scaled_workload,
}
use go_kube_downscaler.Scalable.Comparing.Copies.{compare-copy}

-- An object that is nothing but its replicas.
abbrev nested_field : Any → Result (Option Any)
nested_field o = ok (some o)

abbrev set_nested_field : ℤ → Any → Result Any
set_nested_field n o = ok (int64 n)

nested : NestedLaws nested_field set_nested_field
nested = record {
  found = λ n o o' e. ap (λ p. ok (some p)) (sym (ok-injective e));
  set_again = λ n m o o' e. (int64 m, refl);
}

kafka_laws_example :
    ReplicaLaws
      (kafka_bridge nested_field set_nested_field)
      (HasPlace nested_field set_nested_field)
      (owns_nothing nested_field set_nested_field)
kafka_laws_example = kafka_laws nested_field set_nested_field nested

-- One of three jobs is gone.
abbrev job_named : String → Result String
job_named n = if str_eq n "gone" then err (api (codes "jobs.batch \"gone\" not found")) else ok n

get_children-AreChildren_example :
    AreChildren job_named
      ("first" ∷ "second" ∷ "gone" ∷ [])
      (get_children job_named ("second" ∷ "first" ∷ "gone" ∷ []))
get_children-AreChildren_example =
    get_children-AreChildren job_named ("second" ∷ "first" ∷ "gone" ∷ [])
      ("first" ∷ "second" ∷ "gone" ∷ []) (Permᴰ.swap refl refl)

abbrev pair : ℕ → ℕ → Result (ℕ × ℕ)
pair a b = ok (a, b)

abbrev boxed : ℕ → Boxed ℕ
boxed n = record { wrapper = replica_scaled_workload; resource = deployment; object = some n }

compare-copy_example :
    (c : Boxed ℕ) × (copy (boxed 3) ≡ returned (ok c))
    × (c.resource ≡ deployment)
    × (compare pair (boxed 3) (record c { object = some 4 }) ≡ returned (ok (3, 4)))
compare-copy_example = compare-copy pair (boxed 3) 3 suc refl
