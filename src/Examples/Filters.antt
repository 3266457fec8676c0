-- ===== src/Examples/Filters.antt =====
-- The theorems on the filter of the workloads, at a small cluster.
use go_kube_downscaler.Prelude.{◌≡◌, refl, All, true, List, [], ◌∷◌, none, some, String}
use go_kube_downscaler.Text.{Text, codes, to_lower, text_eq}
use go_kube_downscaler.Scalable.Filter.{
  RegexList, Listed, filter_excluded, is_matching_labels, is_namespace_excluded,
  is_workload_excluded, is_externally_scaled,
}
use go_kube_downscaler.Scalable.Filter.Selection.{IsScannable, filter_excluded-IsScannable}

abbrev pub deployment_named : Text → String → Listed
deployment_named name namespace = record {
  name = name;
  namespace = namespace;
  group = codes "apps";
  kind = codes "Deployment";
  labels = (codes "tier", codes "web") ∷ [];
  owner_references = [];
  scale_target = none;
}

-- A scaled object that targets the deployment `api`; its kind and its API version are left out.
abbrev scaler : Listed
scaler = record {
  name = codes "scaler";
  namespace = "shop";
  group = codes "keda.sh";
  kind = codes "ScaledObject";
  labels = (codes "tier", codes "web") ∷ [];
  owner_references = [];
  scale_target = some (record { api_version = []; kind = []; name = codes "api" });
}

-- A deployment that another one controls.
abbrev owned : Listed
owned = record (deployment_named (codes "child") "shop") {
  owner_references = record { controller = some true; kind = codes "Deployment" } ∷ [];
}

abbrev cluster : List Listed
cluster =
    deployment_named (codes "front") "shop"
    ∷ deployment_named (codes "api") "shop"
    ∷ scaler
    ∷ owned
    ∷ deployment_named (codes "dns") "kube-system"
    ∷ []

abbrev web : RegexList
web = some (text_eq (codes "tier=web") ∷ [])

abbrev system : RegexList
system = some (text_eq (codes "kube-system") ∷ [])

abbrev itself : Listed → Listed
itself w = w

cluster-filtered :
    (filter_excluded itself cluster web system none (some [])).0
    ≡ deployment_named (codes "front") "shop" ∷ scaler ∷ []
unfolding filter_excluded is_matching_labels text_eq is_namespace_excluded is_workload_excluded
    is_externally_scaled to_lower
cluster-filtered = refl

filter_excluded-IsScannable_example :
    All
      (λ w. IsScannable web system none cluster w)
      (filter_excluded itself cluster web system none (some [])).0
filter_excluded-IsScannable_example =
    filter_excluded-IsScannable web system none itself cluster (some [])
