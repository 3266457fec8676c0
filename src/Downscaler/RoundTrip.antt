-- ===== src/Downscaler/RoundTrip.antt =====
-- Two scans of a workload that is scaled by a replica count, in a cluster that accepts updates.
use go_kube_downscaler.Prelude.{
  ◌≡◌, ◌∙◌, refl, Bool, true, false, none, ℤ, pos, pos_part, ◌+ℤ◌, IsInt32, String, [], ℕ, suc,
  arith, ◌-ℤ◌, wrap32,
}
use go_kube_downscaler.Fault.{ok}
use go_kube_downscaler.Metrics.{Holder}
use go_kube_downscaler.Replicas.{Replicas, absolute, as_int32}
use go_kube_downscaler.Replicas.RoundTrip.{IsStorable}
use go_kube_downscaler.Scalable.{ScalingSummary, set_original_replicas}
use go_kube_downscaler.Scalable.ReplicaScaled.{
  ReplicaScaledResource, scale_up, scale_down, stay_or_lower, lower_to, is_at_target, down_summary,
}
use go_kube_downscaler.Scalable.ReplicaScaled.Laws.{ReplicaLaws}
use go_kube_downscaler.Scalable.ReplicaScaled.Lowering.{get-set_original}
use go_kube_downscaler.Scalable.ReplicaScaled.RoundTrip.{scale_up-scale_down}
use go_kube_downscaler.Values.{Scopes, ScalingDecision, scaling_down, scaling_up}
use go_kube_downscaler.Values.Query.{get_downscale_replicas}
use go_kube_downscaler.Workload.{
  Workload, Api, Session, store_downscaled, downscale_workload, store_upscaled, upscale_workload,
}
use go_kube_downscaler.Downscaler.{
  Configuration, downscaled, downscale_to, upscaled, scale_workload, after_attempt, attempts,
  attempt_scaling,
}

-- `replicaScaledWorkload` as the main loop sees it.
abbrev pub replica_scaled_workload :
    {R : Type 0} → ReplicaScaledResource R → String → ℤ → Workload R
replica_scaled_workload ops namespace created = record {
  scale_up = scale_up ops;
  scale_down = scale_down ops;
  get_annotations = ops.base.get_annotations;
  get_namespace = λ w. namespace;
  get_creation_timestamp = λ w. created;
}

-- A cluster that holds the object and stores every update of it.
abbrev pub storing : {R : Type 0} → Api R R
storing = record {
  update = λ w c. (w, none);
  reget = λ w c. (c, ok c);
  get_children = λ w c. (c, ok []);
}

attempts_of_retries : (k : ℕ) (z : ℤ) → z ≡ pos k → pos_part (z +ℤ pos 1) ≡ suc k
unfolding ◌+ℤ◌
attempts_of_retries k z e = ground arith

module _ {R : Type 0} (kind : Workload R) (config : Configuration) where
  attempt-down :
      (k : ℕ) (decision : ScalingDecision) (scopes : Scopes) (s : Session R R) (target : Replicas)
      (w : R) (summary : ScalingSummary)
      → config.max_retries_on_conflict ≡ pos k
      → config.dry_run ≡ false
      → decision.scaling ≡ scaling_down
      → get_downscale_replicas scopes ≡ ok target
      → kind.scale_down target s.workload ≡ ok (w, summary)
      → summary.is_update_needed ≡ true
      → ((attempt_scaling kind storing config decision scopes s).0.cluster ≡ w)
        × ((attempt_scaling kind storing config decision scopes s).1 ≡ none)
  unfolding attempt_scaling attempts after_attempt scale_workload downscale_to downscaled
      downscale_workload store_downscaled
  attempt-down k decision scopes s target w summary m d g t e u =
      rw (attempts_of_retries k config.max_retries_on_conflict m, g, t, e, u, d) (refl, refl)

  attempt-up :
      (k : ℕ) (decision : ScalingDecision) (scopes : Scopes) (s : Session R R) (w : R)
      (summary : ScalingSummary)
      → config.max_retries_on_conflict ≡ pos k
      → config.dry_run ≡ false
      → decision.scaling ≡ scaling_up
      → kind.scale_up s.workload ≡ ok (w, summary)
      → summary.is_update_needed ≡ true
      → ((attempt_scaling kind storing config decision scopes s).0.cluster ≡ w)
        × ((attempt_scaling kind storing config decision scopes s).1 ≡ none)
  unfolding attempt_scaling attempts after_attempt scale_workload upscaled upscale_workload
      store_upscaled
  attempt-up k decision scopes s w summary m d g e u =
      rw (attempts_of_retries k config.max_retries_on_conflict m, g, e, u, d) (refl, refl)

module _ {R : Type 0} (ops : ReplicaScaledResource R) (CanHold : R → ℤ → Type 0)
    (owns : String → Bool) (laws : ReplicaLaws ops CanHold owns) where
  -- An attempt from this object, in the cluster as in memory, fails not and leaves that object in
  -- the cluster.
  abbrev pub Leaves :
      String → ℤ → Configuration → ScalingDecision → Scopes → R → Holder → R → Type 0
  Leaves namespace created config decision scopes w m result =
      let kind = replica_scaled_workload ops namespace created in
      let s : Session R R = record { workload = w; cluster = w; metrics = m } in
      ((attempt_scaling kind storing config decision scopes s).0.cluster ≡ result)
      × ((attempt_scaling kind storing config decision scopes s).1 ≡ none)

  -- Above its target, a workload is lowered to it.
  lowers :
      (w : R) (c n : ℤ)
      → CanHold w n
      → ops.get_replicas w ≡ ok (absolute c)
      → is_at_target ops c n ≡ false
      → (w1 : R) × (summary : ScalingSummary) × (scale_down ops (absolute n) w ≡ ok (w1, summary))
        × (summary.is_update_needed ≡ true)
        × (ops.get_replicas w1 ≡ ok (absolute n))
  unfolding scale_down stay_or_lower lower_to as_int32
  lowers w c n h g a =
      let (w', e, x) = laws.get_set n w h in
      (
        set_original_replicas ops.base (absolute c) w',
        down_summary ops (ops.get_saved_resources_requests (wrap32 (c -ℤ n)) w') true (absolute c)
            (absolute n),
        rw (g, a, e) refl,
        refl,
        get-set_original ops CanHold owns laws (absolute c) w' ∙ x,
      )

  -- A decision to scale down followed, on the object that the cluster holds then, by one to scale
  -- up: neither attempt fails, the first stores an object with the replicas of its target, and the
  -- second stores one with the replicas of before the first. The workload is above the target and
  -- can hold both counts, the count of before can be stored in the annotation, the run is not dry,
  -- and the cluster stores every update.
  pub down_then_up :
      (config : Configuration) (k : ℕ) (namespace : String) (created c n : ℤ) (w : R)
      (m m' : Holder) (down up : ScalingDecision) (scopes scopes' : Scopes)
      → config.max_retries_on_conflict ≡ pos k
      → config.dry_run ≡ false
      → down.scaling ≡ scaling_down
      → up.scaling ≡ scaling_up
      → get_downscale_replicas scopes ≡ ok (absolute n)
      → IsInt32 n
      → IsStorable (absolute c)
      → CanHold w c
      → CanHold w n
      → ops.get_replicas w ≡ ok (absolute c)
      → is_at_target ops c n ≡ false
      → (w1 w2 : R) × Leaves namespace created config down scopes w m w1
        × (ops.get_replicas w1 ≡ ok (absolute n))
        × Leaves namespace created config up scopes' w1 m' w2
        × (ops.get_replicas w2 ≡ ok (absolute c))
  down_then_up config k namespace created c n w m m' down up scopes scopes' mk d sd su g i st hc hn
        r a =
      let kind = replica_scaled_workload ops namespace created in
      let (w1, s1, e1, u1, low) = lowers w c n hn r a in
      let back = scale_up-scale_down ops CanHold owns laws w w1 c n s1 i st hc r e1 u1 in
      (
        w1,
        back.result,
        attempt-down kind config k down scopes (record { workload = w; cluster = w; metrics = m })
            (absolute n) w1 s1 mk d sd g e1 u1,
        low,
        attempt-up kind config k up scopes' (record { workload = w1; cluster = w1; metrics = m' })
            back.result back.summary mk d su back.scaled_up back.updated,
        back.replicas,
      )
