-- ===== src/Fault.antt =====
-- Go's `error` values, and the results of fallible code.
--
-- A constructor stands for an error type of the packages (internal/pkg/values/errors.go,
-- internal/pkg/scalable/errors.go, internal/api/kubernetes/admission/errors.go and
-- cmd/kubedownscaler/errors.go) or for an error of a library
-- call. It keeps the text that the message takes from outside the program, so that a search in
-- `err.Error()` can be modelled. `fmt.Errorf("…: %w", err)` keeps the identity of `err` for
-- errors.Is and errors.As and adds fixed text only, so a wrapped error is the error itself.
use go_kube_downscaler.Prelude.{ℕ, List, [], ◌≡◌, refl, ap, Bool, true, false}

pub data Fault : Type 0 where
  incompatible_fields : Fault
  value_not_set : Fault
  invalid_syntax : List ℕ → Fault
  invalid_value : List ℕ → Fault
  invalid_replica_type : List ℕ → Fault
  replica_format_not_matched : Fault
  is_time_in_span_fault : Fault
  undefined_default : Fault
  parse_failure : List ℕ → Fault
  invalid_week_frame : List ℕ → Fault
  original_replicas_unset : Fault
  no_replicas : Fault
  unexpected_original_replicas : List ℕ → Fault
  ingress_class_name_nil : Fault
  min_replicas_bounds_exceeded : Fault
  invalid_resource : Fault
  namespace_scope_retrieve : Fault
  max_retries_exceeded : Fault
  scaling_invalid : Fault
  metrics_disabled : Fault
  metric_holder_not_found : Fault
  no_external_scaling : Fault
  nil_underlying_object : Fault
  unexpected_replicas_type : Fault
  expect_type_got_type : Fault
  content_type : List ℕ → Fault
  failed_to_read_body : Fault
  request_body_is_empty : Fault
  failed_to_parse_request : Fault
  request_field_is_nil : Fault
  joined : List ℕ → Fault
  api : List ℕ → Fault

-- The outside text of an error's message.
unfoldable pub quoted : Fault → List ℕ
quoted (invalid_syntax t) = t
quoted (invalid_value t) = t
quoted (invalid_replica_type t) = t
quoted (parse_failure t) = t
quoted (invalid_week_frame t) = t
quoted (unexpected_original_replicas t) = t
quoted (content_type t) = t
quoted (joined t) = t
quoted (api t) = t
quoted _ = []

pub data Result {ℓ} (A : Type ℓ) : Type ℓ where
  ok : A → Result A
  err : Fault → Result A

infixl 5 ◌>>=◌
abbrev pub ◌>>=◌ {ℓ κ} : {A : Type ℓ} {B : Type κ} → Result A → (A → Result B) → Result B
ok value >>= next = next value
err fault >>= next = err fault

abbrev pub is_ok {ℓ} : {A : Type ℓ} → Result A → Bool
is_ok (ok _) = true
is_ok (err _) = false

abbrev value_or {ℓ} : {A : Type ℓ} → A → Result A → A
value_or d (ok a) = a
value_or d (err e) = d

pub ok-injective {ℓ} : {A : Type ℓ} {a b : A} → ok a ≡ ok b → a ≡ b
ok-injective {a} h = ap (value_or a) h

-- What a chain of steps that succeeds has gone through.
pub >>=-eq-ok {ℓ κ} :
    {A : Type ℓ} {B : Type κ} {result : B} (step : Result A) (next : A → Result B)
    → (step >>= next) ≡ ok result
    → (value : A) × (step ≡ ok value) × (next value ≡ ok result)
>>=-eq-ok (ok value) next e = (value, refl, e)
>>=-eq-ok (err fault) next e = cc
