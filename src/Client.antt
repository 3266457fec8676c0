-- ===== src/Client.antt =====
-- internal/api/kubernetes/client.go: the lists of workloads that the client gets.
--
-- `list` stands for the calls to the API that list the objects of a kind in a namespace; the empty
-- namespace stands for all of them.
use go_kube_downscaler.Prelude.{List, [], ◌∷◌, ◌++◌, Option, none, some, String}
use go_kube_downscaler.Fault.{Result, ok, ◌>>=◌}
use go_kube_downscaler.Text.{Text, codes, to_lower}
use go_kube_downscaler.Scalable.Kinds
use go_kube_downscaler.Scalable.Kinds.{Kind}

module _ {W : Type 0} (list : Kind → String → Result (List W)) where
  unfoldable pub of_resources : String → List Text → Result (List W)
  of_resources namespace [] = ok []
  of_resources namespace (resource_type ∷ rest) = do
    workloads ← Kinds.get_workloads list (to_lower resource_type) namespace
    results ← of_resources namespace rest
    ok (workloads ++ results)

  unfoldable pub of_namespaces : List String → List Text → Result (List W)
  unfolding of_resources
  of_namespaces [] resource_types = ok []
  of_namespaces (namespace ∷ rest) resource_types = do
    workloads ← of_resources namespace resource_types
    results ← of_namespaces rest resource_types
    ok (workloads ++ results)

  abbrev or_all : Option (List String) → List String
  or_all none = "" ∷ []
  or_all (some namespaces) = namespaces

  -- `GetWorkloads` of the client: nil namespaces are the empty one.
  unfoldable pub get_workloads : Option (List String) → List Text → Result (List W)
  unfolding of_namespaces
  get_workloads namespaces resource_types = of_namespaces (or_all namespaces) resource_types

  unfoldable pub get_scaled_objects : String → Result (List W)
  get_scaled_objects namespace = Kinds.get_workloads list (codes "scaledobject") namespace
