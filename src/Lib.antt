-- ===== src/Lib.antt =====
-- GoKubeDownscaler: workloads of a Kubernetes cluster are scaled down outside of working hours and
-- up again.
--
-- The program scans the workloads of the cluster in rounds (cmd/kubedownscaler/main.go). For each it
-- reads a scope from the workload's annotations, joins it with the scopes of the namespace, the
-- command line, the environment and the defaults, asks them (internal/pkg/values) whether the workload
-- is in its grace period or excluded and which scaling applies now, and scales the workload by its kind
-- (internal/pkg/scalable). The client (internal/api/kubernetes/client.go) writes the object back;
-- a conflict with another writer is tried again. What became of each workload is counted
-- (internal/pkg/metrics).
--
-- The files:
-- - Prelude: shared names, integers over the native numbers, Boolean tests, lists.
-- - Fault: the error values (errors.go of the packages) and results. `fmt.Errorf` with %w is the
--   error that it wraps.
-- - Text, Text.Decimal, Text.Matching: strings, strconv and regexp as far as they are called. A text
--   is a list of code points below 256.
-- - Time, Time.Duration: time.Parse for RFC 3339, time.ParseDuration, wall-clock readings. An instant
--   is a number of nanoseconds; a location is the offset that the time-zone database gives at each
--   instant, and the database itself, `load_location`, is a parameter.
-- - Dict: maps.
-- - Replicas: internal/pkg/values/replicas.go.
-- - Values: internal/pkg/values/scope.go, timespan.go, dayTime.go, scalingValue.go and triStateBool.go.
--   Values.Defaults fills in missing values of relative timespans, Values.Span evaluates timespans,
--   Values.ScopeScaling is the scaling of one scope, Values.Decision that of all, Values.Query the
--   other questions, Values.Parsing the parsers, and Values.ScopeParser scopeParser.go. Values.Priority
--   holds the rules by which the five scopes are ranked.
-- - Metrics: namespaceMetricsHolder.go and savedResources.go of internal/pkg/metrics; Metrics.Gauges is
--   UpdateMetrics of its metrics.go.
-- - Scalable: internal/pkg/scalable. util.go is in Scalable itself; the four ways of scaling
--   (replicaScaledWorkloads.go, suspendScaledWorkloads.go, valueScaledWorkloads.go and
--   nodeSelectorScaledWorkload.go) are ReplicaScaled, SuspendScaled, ValueScaled and
--   NodeSelectorScaled, each over a record of the interface's operations with a record of the
--   laws that the theorems use; Scalable.Resources has the kinds that fill them, all that the tables of
--   workload.go name. Scalable.Comparing is Copy and Compare, which the files of the kinds repeat, and
--   Scalable.Children GetChildren of cronjobs.go and advancedcronjobs.go.
--   Scalable.Filter is FilterExcluded of internal/pkg/scalable/util.go: the regular expressions of the
--   configuration are tests of texts.
-- - Workload: the interface Workload and DownscaleWorkload, UpscaleWorkload of the client.
-- - Downscaler: attemptScaling and scaleWorkload of cmd/kubedownscaler/main.go, and Downscaler.Scan its
--   scanWorkload. Downscaler.Namespaces reads the scopes of the namespaces, as GetNamespacesScopes of
--   the client does, and marks the errors in the metrics. Downscaler.Round is startScanning: the round
--   over all workloads, from the filter to the gauges, and the rounds one after another.
-- - Client: GetWorkloads and GetScaledObjects of internal/api/kubernetes/client.go, over the tables of
--   internal/pkg/scalable/workload.go (Scalable.Kinds).
-- - Admission: internal/api/kubernetes/admission, the webhook that scales objects down where they are
--   stored, with internal/pkg/metrics/admissionMetrics.go. Admission.Mutation is the mutation handler,
--   and Admission.Scaling what it does with a workload that nothing excludes. The handler's Branches is
--   the induction over the branches that its theorems use, and its Agreement compares it with the main
--   loop.
-- - Settings: the lists in flags and environment variables (regexList.go, stringlistValue.go, env.go and
--   ParseConfigEnvVars of internal/pkg/util). Compiling an expression is a parameter.
-- - Examples: the theorems at concrete inputs.
--
-- A method that changes its receiver returns the new value. A function of the main loop takes and
-- returns a session: the workload in memory, the state of the cluster and the metrics of the namespace.
-- The Kubernetes API is a parameter, functions on a cluster state of any type that may fail
-- and change the cluster in any way. All calls of `time.Now` in one scan return one instant. Loops over
-- lists are structural recursion, and the loop over the attempts is recursion on their number. The
-- printing of an int64 has fuel for twenty digits, which hold every int64, and the reading of a duration
-- has the length of its text, since every term takes a character.
--
-- Counters and sums of resources are float64 in the source and exact numbers here. Log lines,
-- events, the decoding and encoding of JSON, the registration of metrics and flags, and leader election
-- are not modelled. The main loop and the webhook copy and compare objects as values. The goroutines of
-- a round, which share the holders, run one after another in any order; what they do to a holder is a list
-- of calls (Metrics.Calls), which may be interleaved (Downscaler.Scan.Interleaving), while the calls to
-- the API are not; those that scale the children of a workload, which nobody awaits in the source, run in the order in
-- which they are started and end before the scan of the workload returns. `startScanning` takes the answers of as many rounds as it lives.
pub mod Client
pub mod Admission
pub mod Settings
pub mod Prelude
pub mod Fault
pub mod Text
pub mod Dict
pub mod Time
pub mod Values
pub mod Metrics
pub mod Scalable
pub mod Replicas
pub mod Workload
pub mod Downscaler
pub mod Examples
