-- ===== src/Downscaler/Namespaces.antt =====
-- The scopes of the namespaces: GetNamespacesScopes and GetNamespaceScope of
-- internal/api/kubernetes/client.go, handleNamespaceScopeParsingErrors of
-- cmd/kubedownscaler/main.go.
--
-- The annotations of a namespace come from the API, one answer for each namespace of a round. The
-- goroutines that ask for them share nothing, so their order does not matter.
pub mod Marking
use go_kube_downscaler.Prelude.{
  Bool, List, [], ◌∷◌, map, any, Option, none, some, String, str_eq, if◌then◌else◌,
}
use go_kube_downscaler.Fault.{Result, ok, err, ◌>>=◌}
use go_kube_downscaler.Text.{Text}
use go_kube_downscaler.Dict.{Dict, lookup, insert}
use go_kube_downscaler.Time.{Location}
use go_kube_downscaler.Metrics.{NamespaceMetricsHolder, mark_parsing_namespace_scope_error}
use go_kube_downscaler.Values.{Scope, new_scope}
use go_kube_downscaler.Values.ScopeParser.{get_scope_from_annotations}
use go_kube_downscaler.Scalable.Filter.{NamespaceMetrics, insert_if}

-- The keys of `namespaceSet`, from the namespaces of the workloads.
unfoldable pub namespace_set : List String → List String
namespace_set [] = []
namespace_set (n ∷ ns) =
    let rest = namespace_set ns in if any (λ k. str_eq k n) rest then rest else n ∷ rest

-- `handleNamespaceScopeParsingErrors`: a namespace without a holder, which is logged, is passed
-- over.
unfoldable pub mark_error : String → NamespaceMetrics → NamespaceMetrics
unfolding mark_parsing_namespace_scope_error
mark_error namespace none = none
mark_error namespace (some m) =
    some (insert_if namespace (mark_parsing_namespace_scope_error (lookup namespace m)) m)

unfoldable pub handle_namespace_scope_parsing_errors :
    List String → NamespaceMetrics → NamespaceMetrics
unfolding mark_error
handle_namespace_scope_parsing_errors [] m = m
handle_namespace_scope_parsing_errors (n ∷ ns) m =
    handle_namespace_scope_parsing_errors ns (mark_error n m)

module _ (load_location : Text → Result Location)
    (get_namespace_annotations : String → Result (Dict Text)) where
  unfoldable pub get_namespace_scope : String → Result Scope
  get_namespace_scope namespace = do
    annotations ← get_namespace_annotations namespace
    get_scope_from_annotations load_location annotations new_scope

  -- A scope goes to the map, and an error, with its namespace, to the list.
  unfoldable pub add_scope :
      String → Result Scope → Dict Scope × List String → Dict Scope × List String
  add_scope namespace (err e) (scopes, failed) = (scopes, namespace ∷ failed)
  add_scope namespace (ok scope) (scopes, failed) = (insert namespace scope scopes, failed)

  unfoldable pub collect : List String → Dict Scope × List String
  unfolding add_scope get_namespace_scope
  collect [] = ([], [])
  collect (n ∷ ns) = add_scope n (get_namespace_scope n) (collect ns)

  -- `GetNamespacesScopes` of workloads in these namespaces.
  unfoldable pub get_namespaces_scopes : List String → Dict Scope × List String
  unfolding collect namespace_set
  get_namespaces_scopes namespaces = collect (namespace_set namespaces)
