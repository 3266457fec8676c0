-- ===== src/Values.antt =====
-- internal/pkg/values: the scopes and the timespans that they hold (scope.go, timespan.go,
-- triStateBool.go, scalingValue.go, and WeekFrame of internal/pkg/util/weekFrameValue.go).
--
-- A Go pointer or slice that may be nil is an `Option`. The children hold the operations and the
-- theorems.
pub mod Defaults
pub mod Span
pub mod ScopeScaling
pub mod Decision
pub mod Query
pub mod Priority
pub mod Parsing
pub mod ScopeParser
use go_kube_downscaler.Prelude.{
  ℕ, Bool, true, false, ℤ, pos, List, [], ◌∷◌, Option, none, some, ◌*◌, String, negsuc,
}
use go_kube_downscaler.Text.{Text}
use go_kube_downscaler.Replicas.{Replicas, absolute}
use go_kube_downscaler.Time.{Location, second}

pub record WeekFrame : Type 0 where
  pub weekday_from : Option ℕ
  pub weekday_to : Option ℕ

-- A `time.Weekday` is its number, from 0 for Sunday, and a `dayTime` the minutes passed in the day.
-- The parser always sets both times, so they are no options here.
pub record RelativeTimeSpan : Type 0 where
  pub timezone : Option Location
  pub weekday_from : Option ℕ
  pub weekday_to : Option ℕ
  pub time_from : ℕ
  pub time_to : ℕ

-- `DirectionalMode` is an int with two named values.
abbrev pub mode_from : ℕ
mode_from = 0

abbrev pub mode_until : ℕ
mode_until = 1

-- The implementations of the interface `TimeSpan`.
pub data TimeSpan : Type 0 where
  relative : RelativeTimeSpan → TimeSpan
  absolute_span : ℤ → ℤ → TimeSpan
  directional : Option ℕ → ℤ → TimeSpan
  boolean_span : Bool → TimeSpan

abbrev pub TimeSpans : Type 0
TimeSpans = Option (List TimeSpan)

pub record TriStateBool : Type 0 where
  pub is_set : Bool
  pub value : Bool

pub record Scope : Type 0 where
  pub downscale_period : TimeSpans
  pub down_time : TimeSpans
  pub upscale_period : TimeSpans
  pub up_time : TimeSpans
  pub exclude : TimeSpans
  pub exclude_until : Option ℤ
  pub force_uptime : TimeSpans
  pub force_downtime : TimeSpans
  pub downscale_replicas : Option Replicas
  pub grace_period : ℤ
  pub scale_children : TriStateBool
  pub upscale_excluded : TriStateBool
  pub default_timezone : Option Location
  pub default_week_frame : Option WeekFrame

abbrev pub undefined_duration : ℤ
undefined_duration = negsuc 0

abbrev pub unset_bool : TriStateBool
unset_bool = record { is_set = false; value = false }

-- `NewScope`.
unfoldable pub new_scope : Scope
new_scope = record {
  downscale_period = none;
  down_time = none;
  upscale_period = none;
  up_time = none;
  exclude = none;
  exclude_until = none;
  force_uptime = none;
  force_downtime = none;
  downscale_replicas = none;
  grace_period = undefined_duration;
  scale_children = unset_bool;
  upscale_excluded = unset_bool;
  default_timezone = none;
  default_week_frame = none;
}

-- `GetDefaultScope`.
unfoldable pub get_default_scope : Scope
get_default_scope = record {
  downscale_period = none;
  down_time = none;
  upscale_period = none;
  up_time = none;
  exclude = none;
  exclude_until = none;
  force_uptime = none;
  force_downtime = none;
  downscale_replicas = some (absolute (pos 0));
  grace_period = pos (15 * 60 * second);
  scale_children = unset_bool;
  upscale_excluded = unset_bool;
  default_timezone = none;
  default_week_frame = none;
}

pub data ScopeId : Type 0 where
  scope_none scope_workload scope_namespace scope_cli scope_environment scope_default : ScopeId

-- The array `[5]*Scope`. A loop `for scopeID, scope := range s` goes through `ranged s`.
pub record Scopes : Type 0 where
  pub workload : Scope
  pub namespace : Scope
  pub cli : Scope
  pub environment : Scope
  pub default : Scope

abbrev pub ranged : Scopes → List (ScopeId × Scope)
ranged s =
    (scope_workload, s.workload)
    ∷ (scope_namespace, s.namespace)
    ∷ (scope_cli, s.cli)
    ∷ (scope_environment, s.environment)
    ∷ (scope_default, s.default)
    ∷ []

-- A loop over the scopes whose body either continues or ends the loop with a value.
abbrev pub or_later {ℓ} :
    {A : Type ℓ} → ScopeId → Option A → Option (ScopeId × A) → Option (ScopeId × A)
or_later i none later = later
or_later i (some a) later = some (i, a)

unfoldable pub first_of {ℓ} :
    {A : Type ℓ} → (Scope → Option A) → List (ScopeId × Scope) → Option (ScopeId × A)
first_of body [] = none
first_of body ((i, s) ∷ rest) = or_later i (body s) (first_of body rest)

pub data Scaling : Type 0 where
  scaling_none scaling_ignore scaling_down scaling_up scaling_multiple scaling_incomplete : Scaling

pub record ScalingValue : Type 0 where
  pub time_spans : List TimeSpan
  pub bool : Option Bool

pub record ScalingDecision : Type 0 where
  pub scaling : Scaling
  pub scope : ScopeId
  pub value : ScalingValue
  pub reason : String

pub record ScopeEvaluation : Type 0 where
  pub matched : Bool
  pub scope : ScopeId
