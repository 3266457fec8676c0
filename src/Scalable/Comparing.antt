-- ===== src/Scalable/Comparing.antt =====
-- `Copy` and `Compare` of the kinds in internal/pkg/scalable: what the webhook does with an object
-- to find out what scaling changes.
--
-- A workload is a value of an interface: a pointer to a wrapper around a pointer to the wrapper of
-- a kind, which holds a pointer to the object. The files of the kinds repeat the two methods, so
-- they are written once here, with the types that each file names in `Copy` and those that it names
-- in `Compare` as two tables. `DeepCopy` gives an equal object, and `jsondiff.Compare` is a
-- parameter.
pub mod Copies
use go_kube_downscaler.Prelude.{ℕ, ◌==◌, Bool, true, false, not, Option, none, some, if◌then◌else◌}
use go_kube_downscaler.Fault.{Result, ok, err, nil_underlying_object, expect_type_got_type}

-- The types of the wrappers. A budget has none.
pub data Wrapper : Type 0 where
  replica_scaled_workload : Wrapper
  suspend_scaled_workload : Wrapper
  node_selector_scaled_workload : Wrapper
  value_scaled_workload : Wrapper
  no_wrapper : Wrapper

-- The types that wrap an object of their kind.
pub data ResourceType : Type 0 where
  deployment : ResourceType
  stateful_set : ResourceType
  horizontal_pod_autoscaler : ResourceType
  scaled_object : ResourceType
  rollout : ResourceType
  stack : ResourceType
  prometheus : ResourceType
  autoscaling_runner_set : ResourceType
  postgresql : ResourceType
  kafka_connect : ResourceType
  kafka_mirror_maker2 : ResourceType
  kafka_bridge : ResourceType
  advanced_stateful_set : ResourceType
  advanced_stateful_set_v1alpha1 : ResourceType
  image_pull_job : ResourceType
  clone_set : ResourceType
  cron_job : ResourceType
  job : ResourceType
  advanced_cron_job : ResourceType
  broadcast_job : ResourceType
  daemon_set : ResourceType
  advanced_daemon_set : ResourceType
  service : ResourceType
  ingress : ResourceType
  gateway : ResourceType
  pod_disruption_budget : ResourceType

-- The types that the `Copy` of a kind names: those of the workload that it builds.
unfoldable pub copy_types : ResourceType → Wrapper × ResourceType
copy_types deployment = (replica_scaled_workload, deployment)
copy_types stateful_set = (replica_scaled_workload, stateful_set)
copy_types horizontal_pod_autoscaler = (replica_scaled_workload, horizontal_pod_autoscaler)
copy_types scaled_object = (replica_scaled_workload, scaled_object)
copy_types rollout = (replica_scaled_workload, rollout)
copy_types stack = (replica_scaled_workload, stack)
copy_types prometheus = (replica_scaled_workload, prometheus)
copy_types autoscaling_runner_set = (replica_scaled_workload, autoscaling_runner_set)
copy_types postgresql = (replica_scaled_workload, postgresql)
copy_types kafka_connect = (replica_scaled_workload, kafka_connect)
copy_types kafka_mirror_maker2 = (replica_scaled_workload, kafka_mirror_maker2)
copy_types kafka_bridge = (replica_scaled_workload, kafka_bridge)
copy_types advanced_stateful_set = (replica_scaled_workload, advanced_stateful_set)
copy_types advanced_stateful_set_v1alpha1 =
    (replica_scaled_workload, advanced_stateful_set_v1alpha1)
copy_types image_pull_job = (replica_scaled_workload, image_pull_job)
copy_types clone_set = (replica_scaled_workload, clone_set)
copy_types cron_job = (suspend_scaled_workload, cron_job)
copy_types job = (suspend_scaled_workload, job)
copy_types advanced_cron_job = (suspend_scaled_workload, advanced_cron_job)
copy_types broadcast_job = (suspend_scaled_workload, broadcast_job)
copy_types daemon_set = (node_selector_scaled_workload, daemon_set)
copy_types advanced_daemon_set = (node_selector_scaled_workload, advanced_daemon_set)
copy_types service = (value_scaled_workload, service)
copy_types ingress = (value_scaled_workload, ingress)
copy_types gateway = (value_scaled_workload, gateway)
copy_types pod_disruption_budget = (no_wrapper, pod_disruption_budget)

-- The types that the `Compare` of a kind names: those that it asserts of the other workload.
unfoldable pub compare_types : ResourceType → Wrapper × ResourceType
compare_types deployment = (replica_scaled_workload, deployment)
compare_types stateful_set = (replica_scaled_workload, stateful_set)
compare_types horizontal_pod_autoscaler = (replica_scaled_workload, horizontal_pod_autoscaler)
compare_types scaled_object = (replica_scaled_workload, scaled_object)
compare_types rollout = (replica_scaled_workload, rollout)
compare_types stack = (replica_scaled_workload, stack)
compare_types prometheus = (replica_scaled_workload, prometheus)
compare_types autoscaling_runner_set = (replica_scaled_workload, autoscaling_runner_set)
compare_types postgresql = (replica_scaled_workload, postgresql)
compare_types kafka_connect = (replica_scaled_workload, kafka_connect)
compare_types kafka_mirror_maker2 = (replica_scaled_workload, kafka_mirror_maker2)
compare_types kafka_bridge = (replica_scaled_workload, kafka_bridge)
compare_types advanced_stateful_set = (replica_scaled_workload, advanced_stateful_set)
compare_types advanced_stateful_set_v1alpha1 =
    (replica_scaled_workload, advanced_stateful_set_v1alpha1)
compare_types image_pull_job = (replica_scaled_workload, image_pull_job)
compare_types clone_set = (replica_scaled_workload, clone_set)
compare_types cron_job = (suspend_scaled_workload, cron_job)
compare_types job = (suspend_scaled_workload, job)
compare_types advanced_cron_job = (suspend_scaled_workload, advanced_cron_job)
compare_types broadcast_job = (suspend_scaled_workload, broadcast_job)
compare_types daemon_set = (node_selector_scaled_workload, daemon_set)
compare_types advanced_daemon_set = (node_selector_scaled_workload, advanced_daemon_set)
compare_types service = (value_scaled_workload, service)
compare_types ingress = (value_scaled_workload, ingress)
compare_types gateway = (value_scaled_workload, gateway)
compare_types pod_disruption_budget = (no_wrapper, pod_disruption_budget)

abbrev pub wrapper_number : Wrapper → ℕ
wrapper_number replica_scaled_workload = 0
wrapper_number suspend_scaled_workload = 1
wrapper_number node_selector_scaled_workload = 2
wrapper_number value_scaled_workload = 3
wrapper_number no_wrapper = 4

unfoldable pub type_number : ResourceType → ℕ
type_number deployment = 0
type_number stateful_set = 1
type_number horizontal_pod_autoscaler = 2
type_number scaled_object = 3
type_number rollout = 4
type_number stack = 5
type_number prometheus = 6
type_number autoscaling_runner_set = 7
type_number postgresql = 8
type_number kafka_connect = 9
type_number kafka_mirror_maker2 = 10
type_number kafka_bridge = 11
type_number advanced_stateful_set = 12
type_number advanced_stateful_set_v1alpha1 = 13
type_number image_pull_job = 14
type_number clone_set = 15
type_number cron_job = 16
type_number job = 17
type_number advanced_cron_job = 18
type_number broadcast_job = 19
type_number daemon_set = 20
type_number advanced_daemon_set = 21
type_number service = 22
type_number ingress = 23
type_number gateway = 24
type_number pod_disruption_budget = 25

-- The strimzi kinds hold an unstructured object, whose map may be nil.
unfoldable pub is_unstructured : ResourceType → Bool
is_unstructured kafka_bridge = true
is_unstructured kafka_connect = true
is_unstructured kafka_mirror_maker2 = true
is_unstructured _ = false

-- `object` is `none` where the pointer to it, or the map of an unstructured object, is nil.
pub record Boxed (O : Type 0) : Type 0 where
  pub wrapper : Wrapper
  pub resource : ResourceType
  pub object : Option O

-- The end of a call that may panic.
pub data Ended (A : Type 0) : Type 0 where
  returned : Result A → Ended A
  panicked : Ended A

-- `newNilUnderlyingObjectError` of the kind, which is read through the nil pointer.
unfoldable pub nil_error : {A : Type 0} → ResourceType → Ended A
unfolding is_unstructured
nil_error r = if is_unstructured r then returned (err nil_underlying_object) else panicked

abbrev pub copied : {O : Type 0} → ResourceType → Option O → Ended (Boxed O)
unfolding nil_error copy_types
copied r none = nil_error r
copied r (some o) =
    returned
      (ok (record { wrapper = (copy_types r).0; resource = (copy_types r).1; object = some o }))

-- `Copy`.
unfoldable pub copy : {O : Type 0} → Boxed O → Ended (Boxed O)
unfolding nil_error copy_types
copy b = copied b.resource b.object

module _ {O P : Type 0} (diff : O → O → Result P) where
  abbrev pub compare_objects : ResourceType → Option O → Option O → Ended P
  unfolding nil_error
  compare_objects r none other = nil_error r
  compare_objects r (some o) none = returned (err nil_underlying_object)
  compare_objects r (some o) (some p) = returned (diff o p)

  -- `Compare`.
  unfoldable pub compare : Boxed O → Boxed O → Ended P
  unfolding nil_error compare_types type_number
  compare b other =
      if not (wrapper_number (compare_types b.resource).0 == wrapper_number other.wrapper)
      then returned (err expect_type_got_type)
      else if not (type_number (compare_types b.resource).1 == type_number other.resource)
      then returned (err expect_type_got_type)
      else compare_objects b.resource b.object other.object
