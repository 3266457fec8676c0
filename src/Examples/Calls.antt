-- ===== src/Examples/Calls.antt =====
-- The theorems on the calls of the goroutines, at two scans.
use go_kube_downscaler.Prelude.{pos}
use go_kube_downscaler.Downscaler.Scan.{scan_workload}
use go_kube_downscaler.Downscaler.Scan.Interleaving.{
  AreInterleavable, scan_workload-AreInterleavable,
}
use go_kube_downscaler.Examples.{utc_only}
use go_kube_downscaler.Examples.Looping.{kind, contested, config, shared, session}

scan_workload-AreInterleavable_example :
    AreInterleavable
      (scan_workload kind contested config utc_only (pos 0) shared)
      (session (0, 1))
      (session (0, 0))
scan_workload-AreInterleavable_example =
    scan_workload-AreInterleavable kind contested config utc_only (pos 0) shared (session (0, 1))
      (session (0, 0))
