-- ===== src/Scalable/Kinds.antt =====
-- internal/pkg/scalable/workload.go: the tables of the resources and of the kinds.
--
-- The functions of the tables call the Kubernetes API or decode JSON; they are parameters, a
-- function for each kind.
use go_kube_downscaler.Prelude.{List, [], ◌∷◌, Option, none, some, String, if◌then◌else◌}
use go_kube_downscaler.Fault.{Result, err, invalid_resource}
use go_kube_downscaler.Text.{Text, codes, text_eq}

pub data Kind : Type 0 where
  deployment : Kind
  stateful_set : Kind
  cron_job : Kind
  job : Kind
  daemon_set : Kind
  pod_disruption_budget : Kind
  horizontal_pod_autoscaler : Kind
  scaled_object : Kind
  rollout : Kind
  stack : Kind
  prometheus : Kind
  autoscaling_runner_set : Kind
  service : Kind
  aws_nlb_service : Kind
  aws_elb_service : Kind
  ingress : Kind
  gateway : Kind
  postgresql : Kind
  kafka_connect : Kind
  kafka_mirror_maker2 : Kind
  kafka_bridge : Kind
  advanced_stateful_set : Kind
  advanced_cron_job : Kind
  advanced_daemon_set : Kind
  broadcast_job : Kind
  image_pull_job : Kind
  clone_set : Kind

-- A Go map that is written out, as the list of its entries: no key stands twice.
abbrev pub Table : Type 0
Table = List (Text × Kind)

unfoldable pub find : Text → Table → Option Kind
unfolding text_eq
find key [] = none
find key ((k, kind) ∷ table) =
    let rest = find key table in if text_eq k key then some kind else rest

abbrev pub resource_func_map : Table
resource_func_map =
    (codes "deployments", deployment)
    ∷ (codes "statefulsets", stateful_set)
    ∷ (codes "cronjobs", cron_job)
    ∷ (codes "jobs", job)
    ∷ (codes "daemonsets", daemon_set)
    ∷ (codes "poddisruptionbudgets", pod_disruption_budget)
    ∷ (codes "horizontalpodautoscalers", horizontal_pod_autoscaler)
    ∷ (codes "scaledobjects", scaled_object)
    ∷ (codes "rollouts", rollout)
    ∷ (codes "stacks", stack)
    ∷ (codes "prometheuses", prometheus)
    ∷ (codes "autoscalingrunnersets", autoscaling_runner_set)
    ∷ (codes "services", service)
    ∷ (codes "awsnlbservices", aws_nlb_service)
    ∷ (codes "awselbservices", aws_elb_service)
    ∷ (codes "ingresses", ingress)
    ∷ (codes "gateways", gateway)
    ∷ (codes "postgresqls", postgresql)
    ∷ (codes "kafkaconnects", kafka_connect)
    ∷ (codes "kafkamirrormaker2s", kafka_mirror_maker2)
    ∷ (codes "kafkabridges", kafka_bridge)
    ∷ (codes "kruisestatefulsets", advanced_stateful_set)
    ∷ (codes "advancedstatefulsets", advanced_stateful_set)
    ∷ (codes "advancedcronjobs", advanced_cron_job)
    ∷ (codes "advanceddaemonsets", advanced_daemon_set)
    ∷ (codes "broadcastjobs", broadcast_job)
    ∷ (codes "imagepulljobs", image_pull_job)
    ∷ (codes "clonesets", clone_set)
    ∷ []

abbrev pub parse_workload_func_map : Table
parse_workload_func_map =
    (codes "deployment", deployment)
    ∷ (codes "statefulset", stateful_set)
    ∷ (codes "cronjob", cron_job)
    ∷ (codes "job", job)
    ∷ (codes "daemonset", daemon_set)
    ∷ (codes "poddisruptionbudget", pod_disruption_budget)
    ∷ (codes "horizontalpodautoscaler", horizontal_pod_autoscaler)
    ∷ (codes "scaledobject", scaled_object)
    ∷ (codes "rollout", rollout)
    ∷ (codes "stack", stack)
    ∷ (codes "prometheus", prometheus)
    ∷ (codes "autoscalingrunnerset", autoscaling_runner_set)
    ∷ (codes "service", service)
    ∷ (codes "awsnlbservice", service)
    ∷ (codes "awselbservice", service)
    ∷ (codes "ingress", ingress)
    ∷ (codes "gateway", gateway)
    ∷ (codes "postgresql", postgresql)
    ∷ (codes "kafkaconnect", kafka_connect)
    ∷ (codes "kafkamirrormaker2", kafka_mirror_maker2)
    ∷ (codes "kafkabridge", kafka_bridge)
    ∷ (codes "advancedcronjob", advanced_cron_job)
    ∷ (codes "advanceddaemonset", advanced_daemon_set)
    ∷ (codes "broadcastjob", broadcast_job)
    ∷ (codes "imagepulljob", image_pull_job)
    ∷ (codes "advancedstatefulsets", advanced_stateful_set)
    ∷ (codes "clonesets", clone_set)
    ∷ []

-- The function that stands in the table is called, and its error is wrapped.
abbrev call {ℓ} : {A : Type ℓ} → (Kind → Result A) → Option Kind → Result A
call f none = err invalid_resource
call f (some kind) = f kind

module _ {W : Type 0} where
  -- `GetWorkloads` of this package.
  unfoldable pub get_workloads : (Kind → String → Result (List W)) → Text → String → Result (List W)
  unfolding find
  get_workloads list resource namespace =
      call (λ kind. list kind namespace) (find resource resource_func_map)

  unfoldable pub parse_workload_from_raw_object : (Kind → Text → Result W) → Text → Text → Result W
  unfolding find
  parse_workload_from_raw_object parse resource raw =
      call (λ kind. parse kind raw) (find resource parse_workload_func_map)
