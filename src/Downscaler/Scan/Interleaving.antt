-- ===== src/Downscaler/Scan/Interleaving.antt =====
-- Two goroutines of a round that scan workloads of one namespace.
use mathlib.Core.List.{Permᴰ}
use go_kube_downscaler.Prelude.{◌≡◌, refl, sym, ap, ◌∙◌, ℤ, Option, List, [], ◌∷◌, ◌++◌}
use go_kube_downscaler.Fault.{Fault, Result}
use go_kube_downscaler.Text.{Text}
use go_kube_downscaler.Time.{Location}
use go_kube_downscaler.Metrics.{Holder}
use go_kube_downscaler.Metrics.Calls.{Call, call_all, call_all-reordered}
use go_kube_downscaler.Workload.{Workload, Api, Session}
use go_kube_downscaler.Downscaler.{Configuration}
use go_kube_downscaler.Downscaler.Metering.{with_metrics, call_all-append}
use go_kube_downscaler.Downscaler.Scan.{SharedScopes, scan_workload}
use go_kube_downscaler.Downscaler.Scan.Metering.{scan_workload-IsMetered}

-- The third list has the calls of the first two, each of them in its order.
pub data Interleaving : List Call → List Call → List Call → Type 0 where
  done : Interleaving [] [] []
  first :
      {c : Call} {cs ds es : List Call} → Interleaving cs ds es → Interleaving (c ∷ cs) ds (c ∷ es)
  second :
      {d : Call} {cs ds es : List Call} → Interleaving cs ds es → Interleaving cs (d ∷ ds) (d ∷ es)

moved : (cs : List Call) (d : Call) (ds : List Call) → Permᴰ (cs ++ (d ∷ ds)) (d ∷ (cs ++ ds))
moved [] d [] = Permᴰ.cons refl Permᴰ.nil
moved [] d (e ∷ ds) = Permᴰ.cons refl (moved [] e ds)
moved (c ∷ cs) d ds = Permᴰ.trans (Permᴰ.cons refl (moved cs d ds)) (Permᴰ.swap refl refl)

Interleaving-Permᴰ : {cs ds es : List Call} → Interleaving cs ds es → Permᴰ (cs ++ ds) es
Interleaving-Permᴰ done = Permᴰ.nil
Interleaving-Permᴰ (first i) = Permᴰ.cons refl (Interleaving-Permᴰ i)
Interleaving-Permᴰ (second {d = d} {cs = cs} {ds = ds} i) =
    Permᴰ.trans (moved cs d ds) (Permᴰ.cons refl (Interleaving-Permᴰ i))

module _ {R C : Type 0} where
  -- The metrics that a scan leaves, where the holder is this one at its start.
  abbrev pub metrics_after :
      (Session R C → Session R C × Option Fault) → Session R C → Holder → Holder
  metrics_after scan s h = (scan (with_metrics h s)).0.metrics

  -- Each of two scans makes certain calls on any holder, and in whatever way these are interleaved,
  -- the holder ends as if one scan had run after the other.
  abbrev pub AreInterleavable :
      (Session R C → Session R C × Option Fault) → Session R C → Session R C → Type 0
  AreInterleavable scan s t =
      (cs : List Call) × (ds : List Call) × ((h : Holder) → metrics_after scan s h ≡ call_all cs h)
      × ((h : Holder) → metrics_after scan t h ≡ call_all ds h)
      × ((es : List Call) (h : Holder)
          → Interleaving cs ds es
          → call_all es h ≡ metrics_after scan t (metrics_after scan s h))

module _ {R C : Type 0} (kind : Workload R) (api : Api R C) (config : Configuration)
    (load_location : Text → Result Location) (now : ℤ) where
  -- The calls that the scans of two goroutines make on the holder that they share can be
  -- interleaved in any way: the holder ends with the same metrics as if one scan had run after the
  -- other. What the API answers to each of the scans is given.
  pub scan_workload-AreInterleavable :
      (shared : SharedScopes) (s t : Session R C)
      → AreInterleavable (scan_workload kind api config load_location now shared) s t
  scan_workload-AreInterleavable shared s t =
      let scan = scan_workload kind api config load_location now shared in
      let (cs, m) = scan_workload-IsMetered kind api config load_location now shared s in
      let (ds, n) = scan_workload-IsMetered kind api config load_location now shared t in
      let of_first : (h : Holder) → metrics_after scan s h ≡ call_all cs h =
        λ h. ap (λ (r : Session R C × Option Fault). r.0.metrics) (m h) in
      let of_second : (h : Holder) → metrics_after scan t h ≡ call_all ds h =
        λ h. ap (λ (r : Session R C × Option Fault). r.0.metrics) (n h) in
      (
        cs,
        ds,
        of_first,
        of_second,
        λ es h i.
            sym (call_all-reordered h (Interleaving-Permᴰ i))
            ∙ call_all-append cs ds h
            ∙ sym (of_second (call_all cs h))
            ∙ ap (metrics_after scan t) (sym (of_first h)),
      )
