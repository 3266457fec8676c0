-- ===== src/Examples.antt =====
-- Concrete inputs at which the theorems are applied.
mod Decisions
mod Parsers
mod Workloads
mod States
mod Looping
mod Filters
mod Namespaces
mod Webhook
mod Rounds
mod Kinds
mod Calls
mod Agreement
mod Variables
use go_kube_downscaler.Prelude.{
  ℕ, Bool, true, false, ◌*◌, Option, none, some, ℤ, pos, negsuc, List, [], ◌∷◌,
}
use go_kube_downscaler.Fault.{Result, ok}
use go_kube_downscaler.Text.{Text}
use go_kube_downscaler.Replicas.{Replicas, absolute}
use go_kube_downscaler.Time.{Location, second}
use go_kube_downscaler.Values.{
  Scope, Scopes, TimeSpans, boolean_span, undefined_duration, unset_bool, WeekFrame,
}

abbrev pub utc : Location
utc = record { offset = λ t. pos 0 }

-- A database of time zones that knows UTC only, by whatever name.
abbrev pub utc_only : Text → Result Location
utc_only name = ok utc

abbrev pub always : TimeSpans
always = some (boolean_span true ∷ [])

abbrev pub never : TimeSpans
never = some (boolean_span false ∷ [])

abbrev pub empty_scope : Scope
empty_scope = record {
  downscale_period = none;
  down_time = none;
  upscale_period = none;
  up_time = none;
  exclude = none;
  exclude_until = none;
  force_uptime = none;
  force_downtime = none;
  downscale_replicas = none;
  grace_period = undefined_duration;
  scale_children = unset_bool;
  upscale_excluded = unset_bool;
  default_timezone = none;
  default_week_frame = none;
}

-- The environment has the defaults of timespans, and the default scope the replicas.
abbrev pub environment_scope : Scope
environment_scope = record empty_scope {
  default_timezone = some utc;
  default_week_frame = some (record { weekday_from = some 1; weekday_to = some 5 });
}

abbrev pub default_scope : Scope
default_scope = record empty_scope { downscale_replicas = some (absolute (pos 0)) }

abbrev pub scopes_with : Scope → Scope → Scopes
scopes_with workload namespace = record {
  workload = workload;
  namespace = namespace;
  cli = empty_scope;
  environment = environment_scope;
  default = default_scope;
}

-- The namespace is down, and the workload sets nothing.
abbrev pub resting : Scopes
resting = scopes_with empty_scope (record empty_scope { down_time = always })

-- The workload forces its uptime against the namespace's downtime.
abbrev pub working : Scopes
working =
    scopes_with (record empty_scope { force_uptime = always })
      (record empty_scope { down_time = always })

-- The namespace is excluded until an instant.
abbrev pub sheltered : Scopes
sheltered =
    scopes_with (record empty_scope { exclude = never })
      (record empty_scope { exclude_until = some (pos (1000 * second)) })
