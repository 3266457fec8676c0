-- ===== src/Scalable/Resources/Kafka.antt =====
-- internal/pkg/scalable/kafkabridges.go, kafkaconnects.go and kafkamirrormaker2s.go, which repeat
-- the same methods on unstructured objects, and unstructuredReplicasToInt32 of util.go.
--
-- The accessors of the package unstructured are parameters, at the path spec.replicas. An object is
-- its annotations and a part of any type that the accessors work on.
use go_kube_downscaler.Prelude.{
  ◌≡◌, refl, ap, sym, ◌∙◌, Bool, false, ◌||◌, String, Option, none, some, ℤ, pos, negsuc,
  if◌then◌else◌, ltb_ℤ, IsInt32, wrap32, wrap32-IsInt32, arith,
}
use go_kube_downscaler.Fault.{
  Result, ok, err, ok-injective, no_replicas, unexpected_replicas_type, ◌>>=◌, >>=-eq-ok,
}
use go_kube_downscaler.Text.{Text}
use go_kube_downscaler.Dict.{Dict, lookup}
use go_kube_downscaler.Replicas.{Replicas, absolute}
use go_kube_downscaler.Metrics.{SavedResources, no_saved_resources}
use go_kube_downscaler.Scalable.{ScalableResource}
use go_kube_downscaler.Scalable.ReplicaScaled.{ReplicaScaledResource}
use go_kube_downscaler.Scalable.ReplicaScaled.Laws.{ReplicaLaws}

-- A value of an unstructured object, as far as the type switch tells them apart. A float64 is its
-- integer value, `none` where it has none; an infinity is as far out of range as any large integer.
pub data Any : Type 0 where
  int64 : ℤ → Any
  float64 : Option ℤ → Any
  other : Any

abbrev pub in_int32 : ℤ → Option ℤ
in_int32 value =
    if ltb_ℤ value (negsuc 2147483647) || ltb_ℤ (pos 2147483647) value
    then none
    else some (wrap32 value)

-- `unstructuredReplicasToInt32`.
unfoldable pub unstructured_replicas_to_int32 : Any → Option ℤ
unstructured_replicas_to_int32 (int64 value) = in_int32 value
unstructured_replicas_to_int32 (float64 none) = none
unstructured_replicas_to_int32 (float64 (some value)) = in_int32 value
unstructured_replicas_to_int32 other = none

pub record Unstructured (O : Type 0) : Type 0 where
  pub annotations : Dict Text
  pub object : O

abbrev pub base : {O : Type 0} → ScalableResource (Unstructured O)
base = record {
  get_annotations = λ k. k.annotations;
  set_annotations = λ a k. record k { annotations = a };
}

abbrev pub replicas_or_fault : Option ℤ → Result Replicas
replicas_or_fault none = err unexpected_replicas_type
replicas_or_fault (some n) = ok (absolute n)

abbrev pub replicas_found : Option Any → Result Replicas
unfolding unstructured_replicas_to_int32
replicas_found none = err no_replicas
replicas_found (some value) = replicas_or_fault (unstructured_replicas_to_int32 value)

module _ {O : Type 0} (nested_field : O → Result (Option Any))
    (set_nested_field : ℤ → O → Result O) where
  unfoldable pub get_replicas : Unstructured O → Result Replicas
  get_replicas k = nested_field k.object >>= replicas_found

  unfoldable pub set_replicas : ℤ → Unstructured O → Result (Unstructured O)
  set_replicas n k = set_nested_field n k.object >>= λ o. ok (record k { object = o })

  abbrev pub get_saved_resources_requests : ℤ → Unstructured O → SavedResources
  get_saved_resources_requests diff_replicas k = no_saved_resources

  abbrev pub kafka_bridge : ReplicaScaledResource (Unstructured O)
  kafka_bridge = record {
    base = base;
    set_replicas = set_replicas;
    get_replicas = get_replicas;
    get_saved_resources_requests = get_saved_resources_requests;
  }

  abbrev pub kafka_connect : ReplicaScaledResource (Unstructured O)
  kafka_connect = kafka_bridge

  abbrev pub kafka_mirror_maker2 : ReplicaScaledResource (Unstructured O)
  kafka_mirror_maker2 = kafka_bridge

  -- What the code relies on: a value that is set is found, and a field that is set can be set
  -- again.
  pub record NestedLaws : Type 0 where
    pub found :
        (n : ℤ) (o o' : O) → set_nested_field n o ≡ ok o' → nested_field o' ≡ ok (some (int64 n))
    pub set_again :
        (n m : ℤ) (o o' : O)
        → set_nested_field n o ≡ ok o'
        → (p : O) × (set_nested_field m o' ≡ ok p)

  abbrev pub owns_nothing : String → Bool
  owns_nothing k = false

  -- The count is an int32, and the object has a place for it.
  abbrev pub HasPlace : Unstructured O → ℤ → Type 0
  HasPlace k n = IsInt32 n × ((o : O) × (set_nested_field n k.object ≡ ok o))

  replicas_found-int64 : (n : ℤ) → IsInt32 n → replicas_found (some (int64 n)) ≡ ok (absolute n)
  unfolding unstructured_replicas_to_int32
  replicas_found-int64 n h = rw (wrap32-IsInt32 n h) (ground arith)

  set_replicas-ok :
      (n : ℤ) (w w' : Unstructured O)
      → set_replicas n w ≡ ok w'
      → (o : O) × (set_nested_field n w.object ≡ ok o) × (record w { object = o } ≡ w')
  unfolding set_replicas
  set_replicas-ok n w w' e =
      let (o, s, t) = >>=-eq-ok (set_nested_field n w.object) _ e in (o, s, ok-injective t)

  get_replicas-found :
      (n : ℤ) (w : Unstructured O)
      → IsInt32 n
      → nested_field w.object ≡ ok (some (int64 n))
      → get_replicas w ≡ ok (absolute n)
  unfolding get_replicas
  get_replicas-found n w h e = rw e (replicas_found-int64 n h)

  module _ (nested : NestedLaws) where
    get_replicas-set :
        (n : ℤ) (w w' : Unstructured O)
        → IsInt32 n
        → set_replicas n w ≡ ok w'
        → get_replicas w' ≡ ok (absolute n)
    get_replicas-set n w w' h e =
        let (o, s, t) = set_replicas-ok n w w' e in
        ap get_replicas (sym t)
        ∙ get_replicas-found n (record w { object = o }) h (nested.found n w.object o s)

    settable :
        (n : ℤ) (w : Unstructured O)
        → HasPlace w n
        → (w' : Unstructured O) × (set_replicas n w ≡ ok w') × (get_replicas w' ≡ ok (absolute n))
    unfolding set_replicas
    settable n w (h, (o, s)) =
        let w' : Unstructured O = record w { object = o } in
        (w', rw s refl, get_replicas-found n w' h (nested.found n w.object o s))

    HasPlace-set :
        (n c : ℤ) (w w' : Unstructured O) → set_replicas n w ≡ ok w' → HasPlace w c → HasPlace w' c
    HasPlace-set n c w w' e (h, _) =
        let (o, s, t) = set_replicas-ok n w w' e in
        let (p, again) = nested.set_again n c w.object o s in
        (h, (p, ap (λ (k : Unstructured O). set_nested_field c k.object) (sym t) ∙ again))

  -- An unstructured object keeps what is asked of a resource with a count, for every count that is
  -- an int32 where the object has a place for it: the conversions to an int64 and back keep the
  -- count, and no annotation is touched. A field that is set is found again, and can be set again.
  pub kafka_laws : NestedLaws → ReplicaLaws kafka_bridge HasPlace owns_nothing
  unfolding set_replicas get_replicas
  kafka_laws nested = record {
    annotations = record { get_set = λ a w. refl };
    not_original = refl;
    get_frame = λ a w h. refl;
    get_set = λ n w h. settable nested n w h;
    get_ok = λ n w w' i e. (absolute n, get_replicas-set nested n w w' i e);
    set_frame = λ n w w' k e o.
        let (o', s, t) = set_replicas-ok n w w' e in
        ap (λ (u : Unstructured O). lookup k u.annotations) (sym t);
    hold_set = λ n c w w' e h. HasPlace-set nested n c w w' e h;
    hold_annotations = λ a w c h. h;
  }
