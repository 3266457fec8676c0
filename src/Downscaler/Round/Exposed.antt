-- ===== src/Downscaler/Round/Exposed.antt =====
-- What the gauges show between the rounds.
use go_kube_downscaler.Prelude.{
  ◌≡◌, true, inl, inr, Bool-cases, Option, none, some, List, [], ◌∷◌, String,
}
use go_kube_downscaler.Fault.{Fault, Result, ok, err}
use go_kube_downscaler.Text.{Text}
use go_kube_downscaler.Dict.{lookup}
use go_kube_downscaler.Time.{Location}
use go_kube_downscaler.Metrics.Gauges.{entries}
use go_kube_downscaler.Metrics.Gauges.Laws.{lookup-update_metrics}
use go_kube_downscaler.Scalable.Filter.{Listed, NamespaceMetrics}
use go_kube_downscaler.Workload.{Workload, Api}
use go_kube_downscaler.Downscaler.Round.{
  RoundConfiguration, GlobalScopes, Loop, Replies, scan_round, close_round, round_of, round,
  next_rounds, start_scanning,
}

-- The gauges of every namespace are the metrics of the last round.
abbrev pub IsExposed : {C : Type 0} → Loop C → Type 0
IsExposed l = (k : String) → lookup k l.gauges.namespaces ≡ lookup k (entries l.previous)

module _ {R C : Type 0} (kind : Workload R) (view : R → Listed) (api : Api R C)
    (config : RoundConfiguration) (load_location : Text → Result Location) (global : GlobalScopes)
    (enabled : config.metrics_enabled ≡ true) where
  close_round-IsExposed :
      (l : Loop C) (r : C × NamespaceMetrics)
      → IsExposed l
      → IsExposed (close_round kind view api config load_location global l r)
  close_round-IsExposed l (c, m) h k =
      rw enabled (lookup-update_metrics k m l.previous l.gauges (h k))

  round-IsExposed :
      (answers : Replies kind view api config load_location global) (l : Loop C)
      (r : C × Result (List R))
      → IsExposed l
      → IsExposed (round_of kind view api config load_location global answers l r).0
  unfolding scan_round
  round-IsExposed answers l (c, err e) h = h
  round-IsExposed answers l (c, ok workloads) h =
      close_round-IsExposed l
        (scan_round kind view api config load_location global answers.now answers.order
          answers.annotations c workloads)
        h

  next_rounds-IsExposed :
      (rest : Loop C → Loop C × Option Fault) (r : Loop C × Option Fault)
      → IsExposed r.0
      → ((l : Loop C) → IsExposed l → IsExposed (rest l).0)
      → IsExposed (next_rounds kind view api config load_location global rest r).0
  next_rounds-IsExposed rest (l, some e) h k = h
  next_rounds-IsExposed rest (l, none) h k = elim (Bool-cases config.once) [
    | inl y ↦ rw y h
    | inr n ↦ rw n (k l h)
  ]

  -- However many rounds `startScanning` makes, the gauges that it leaves show exactly the metrics
  -- of the last round: a namespace that is gone from the cluster has no gauges. Metrics are
  -- enabled, and the gauges show the previous metrics at the start.
  pub start_scanning-IsExposed :
      (answers : List (Replies kind view api config load_location global)) (l : Loop C)
      → IsExposed l
      → IsExposed (start_scanning kind view api config load_location global answers l).0
  unfolding start_scanning round
  start_scanning-IsExposed [] l h = h
  start_scanning-IsExposed (a ∷ answers) l h =
      next_rounds-IsExposed (start_scanning kind view api config load_location global answers)
        (round kind view api config load_location global a l)
        (round-IsExposed a l (a.workloads l.cluster) h) (start_scanning-IsExposed answers)
