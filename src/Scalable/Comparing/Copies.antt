-- ===== src/Scalable/Comparing/Copies.antt =====
-- An object and its copy can be compared.
use go_kube_downscaler.Prelude.{
  ℕ, ◌≡◌, refl, sym, ap, ◌∙◌, ◌==◌, true, Option, none, some, inl, inr, Bool-cases, arith,
}
use go_kube_downscaler.Fault.{Result, ok}
use go_kube_downscaler.Scalable.Comparing.{
  Wrapper, Boxed, Ended, returned, panicked, ResourceType, copy_types, compare_types,
  wrapper_number, type_number, deployment, stateful_set, horizontal_pod_autoscaler, scaled_object,
  rollout, stack, prometheus, autoscaling_runner_set, postgresql, kafka_connect,
  kafka_mirror_maker2, kafka_bridge, advanced_stateful_set, advanced_stateful_set_v1alpha1,
  image_pull_job, clone_set, cron_job, job, advanced_cron_job, broadcast_job, daemon_set,
  advanced_daemon_set, service, ingress, gateway, pod_disruption_budget, copy, compare_objects,
  compare, nil_error, is_unstructured,
}

==-refl : (n : ℕ) → (n == n) ≡ true
==-refl n = ground arith

numbers : (m n : ℕ) → (m == n) ≡ true → m ≡ n
numbers m n h = ground arith

abbrev result_in : {A : Type 0} → Result A → Ended A → Result A
result_in d (returned r) = r
result_in d panicked = d

returned-injective : {A : Type 0} {r s : Result A} → returned r ≡ returned s → r ≡ s
returned-injective {r} h = ap (result_in r) h

-- Every file names the same types in `Compare` as in `Copy`.
compare_types-copy_types : (r : ResourceType) → compare_types r ≡ copy_types r
unfolding compare_types copy_types
compare_types-copy_types deployment = refl
compare_types-copy_types stateful_set = refl
compare_types-copy_types horizontal_pod_autoscaler = refl
compare_types-copy_types scaled_object = refl
compare_types-copy_types rollout = refl
compare_types-copy_types stack = refl
compare_types-copy_types prometheus = refl
compare_types-copy_types autoscaling_runner_set = refl
compare_types-copy_types postgresql = refl
compare_types-copy_types kafka_connect = refl
compare_types-copy_types kafka_mirror_maker2 = refl
compare_types-copy_types kafka_bridge = refl
compare_types-copy_types advanced_stateful_set = refl
compare_types-copy_types advanced_stateful_set_v1alpha1 = refl
compare_types-copy_types image_pull_job = refl
compare_types-copy_types clone_set = refl
compare_types-copy_types cron_job = refl
compare_types-copy_types job = refl
compare_types-copy_types advanced_cron_job = refl
compare_types-copy_types broadcast_job = refl
compare_types-copy_types daemon_set = refl
compare_types-copy_types advanced_daemon_set = refl
compare_types-copy_types service = refl
compare_types-copy_types ingress = refl
compare_types-copy_types gateway = refl
compare_types-copy_types pod_disruption_budget = refl

-- `Copy` keeps the kind.
copy_types-kind : (r : ResourceType) → (copy_types r).1 ≡ r
unfolding copy_types
copy_types-kind deployment = refl
copy_types-kind stateful_set = refl
copy_types-kind horizontal_pod_autoscaler = refl
copy_types-kind scaled_object = refl
copy_types-kind rollout = refl
copy_types-kind stack = refl
copy_types-kind prometheus = refl
copy_types-kind autoscaling_runner_set = refl
copy_types-kind postgresql = refl
copy_types-kind kafka_connect = refl
copy_types-kind kafka_mirror_maker2 = refl
copy_types-kind kafka_bridge = refl
copy_types-kind advanced_stateful_set = refl
copy_types-kind advanced_stateful_set_v1alpha1 = refl
copy_types-kind image_pull_job = refl
copy_types-kind clone_set = refl
copy_types-kind cron_job = refl
copy_types-kind job = refl
copy_types-kind advanced_cron_job = refl
copy_types-kind broadcast_job = refl
copy_types-kind daemon_set = refl
copy_types-kind advanced_daemon_set = refl
copy_types-kind service = refl
copy_types-kind ingress = refl
copy_types-kind gateway = refl
copy_types-kind pod_disruption_budget = refl

module _ {O P : Type 0} (diff : O → O → Result P) where
  -- What is compared is the two objects, and their types are the same.
  pub record IsCompared (b c : Boxed O) (result : Result P) : Type 0 where
    pub mine : O
    pub other : O
    pub objects : (b.object ≡ some mine) × (c.object ≡ some other)
    pub types : type_number b.resource ≡ type_number c.resource
    pub differences : result ≡ diff mine other

  -- The object of a workload of any kind can be copied to a workload of its kind, and whatever is
  -- done to the object of the copy, comparing the workload with it gives the differences between
  -- the two objects: no test of the types fails, since the types that the kind builds on copying
  -- are those that it asserts on comparing, and no test for nil fails. The workload has an object.
  pub compare-copy :
      (b : Boxed O) (o : O) (change : O → O)
      → b.object ≡ some o
      → (c : Boxed O) × (copy b ≡ returned (ok c))
        × (c.resource ≡ b.resource)
        × (compare diff b (record c { object = some (change o) }) ≡ returned (diff o (change o)))
  unfolding copy compare
  compare-copy b o change e = (
    record {
      wrapper = (copy_types b.resource).0;
      resource = (copy_types b.resource).1;
      object = some o;
    },
    rw e refl,
    copy_types-kind b.resource,
    rw
        (
          e,
          compare_types-copy_types b.resource,
          ==-refl (wrapper_number (copy_types b.resource).0),
          ==-refl (type_number (copy_types b.resource).1),
        )
        refl,
  )

  objects-IsCompared :
      (b c : Boxed O) (m n : Option O) (p : P)
      → b.object ≡ m
      → c.object ≡ n
      → type_number b.resource ≡ type_number c.resource
      → compare_objects diff b.resource m n ≡ returned (ok p)
      → IsCompared b c (ok p)
  unfolding compare_objects nil_error
  objects-IsCompared b c none n p e f t h = elim (Bool-cases (is_unstructured b.resource)) [
    | inl y ↦ cc (rw y at h)
    | inr o ↦ cc (rw o at h)
  ]
  objects-IsCompared b c (some o) none p e f t h = cc h
  objects-IsCompared b c (some o) (some o') p e f t h = record {
    mine = o;
    other = o';
    objects = (e, f);
    types = t;
    differences = returned-injective (sym h);
  }

  -- A comparison that gives a patch has compared two objects of one type.
  pub compare-IsCompared :
      (b c : Boxed O) (p : P) → compare diff b c ≡ returned (ok p) → IsCompared b c (ok p)
  unfolding compare
  compare-IsCompared b c p h =
      let kind : (compare_types b.resource).1 ≡ b.resource =
        ap (λ (t : Wrapper × ResourceType). t.1) (compare_types-copy_types b.resource)
        ∙ copy_types-kind b.resource in
      elim (Bool-cases (wrapper_number (compare_types b.resource).0 == wrapper_number c.wrapper)) [
        | inr o ↦ cc (rw o at h)
        | inl y ↦
            elim (Bool-cases (type_number (compare_types b.resource).1 == type_number c.resource)) [
              | inr o ↦ cc (rw (y, o) at h)
              | inl same ↦
                  objects-IsCompared b c b.object c.object p refl refl
                    (ap type_number (sym kind)
                      ∙ numbers (type_number (compare_types b.resource).1) (type_number c.resource)
                          same)
                    (rw (y, same) at h)
            ]
      ]
