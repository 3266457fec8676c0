-- ===== src/Values/ScopeParser.antt =====
-- internal/pkg/values/scopeParser.go: the scope that the annotations of an object give, and the one
-- that the environment gives.
--
-- Where an error is returned, the callers drop the scope, so the fields that were filled in before
-- are not kept. Events and log lines are left out.
pub mod Fields
pub mod Complete
use go_kube_downscaler.Prelude.{Bool, true, false, String, Option, none, some, ℤ}
use go_kube_downscaler.Fault.{Fault, Result, ok, err, ◌>>=◌}
use go_kube_downscaler.Text.{Text}
use go_kube_downscaler.Dict.{Dict, lookup}
use go_kube_downscaler.Replicas.{Replicas, set}
use go_kube_downscaler.Time.{Location, parse_rfc3339}
use go_kube_downscaler.Values.{TimeSpans, TriStateBool, Scope, WeekFrame}
use go_kube_downscaler.Values.ScopeScaling.{check_for_incompatible_fields}
use go_kube_downscaler.Values.Parsing.{set_time_spans, set_tri_state, set_duration, set_week_frame}

abbrev pub annotation_downscale_period : String
annotation_downscale_period = "downscaler/downscale-period"

abbrev pub annotation_downtime : String
annotation_downtime = "downscaler/downtime"

abbrev pub annotation_upscale_period : String
annotation_upscale_period = "downscaler/upscale-period"

abbrev pub annotation_uptime : String
annotation_uptime = "downscaler/uptime"

abbrev pub annotation_exclude : String
annotation_exclude = "downscaler/exclude"

abbrev pub annotation_exclude_until : String
annotation_exclude_until = "downscaler/exclude-until"

abbrev pub annotation_force_uptime : String
annotation_force_uptime = "downscaler/force-uptime"

abbrev pub annotation_force_downtime : String
annotation_force_downtime = "downscaler/force-downtime"

abbrev pub annotation_downscale_replicas : String
annotation_downscale_replicas = "downscaler/downscale-replicas"

abbrev pub annotation_grace_period : String
annotation_grace_period = "downscaler/grace-period"

abbrev pub annotation_scale_children : String
annotation_scale_children = "downscaler/scale-children"

abbrev pub annotation_exclusion_upscale : String
annotation_exclusion_upscale = "downscaler/upscale-excluded"

-- A field keeps its value where its text is missing.
unfoldable pub read {ℓ} : {A : Type ℓ} → (Text → Result A) → A → Option Text → Result A
read parse default none = ok default
read parse default (some text) = parse text

abbrev some_of {ℓ} : {A : Type ℓ} → (Text → Result A) → Text → Result (Option A)
some_of parse text = do a ← parse text; ok (some a)

-- `upscale-excluded` is the one annotation whose error is not returned: `Set` has stored false
-- then, and whether the field is set is as before.
unfoldable pub or_unset : TriStateBool → Result TriStateBool → TriStateBool
or_unset default (ok t) = t
or_unset default (err e) = record default { value = false }

unfoldable pub read_tolerantly : TriStateBool → Option Text → TriStateBool
unfolding or_unset
read_tolerantly default none = default
read_tolerantly default (some text) = or_unset default (set_tri_state text)

module _ (load_location : Text → Result Location) where
  -- `GetScopeFromAnnotations`.
  unfoldable pub get_scope_from_annotations : Dict Text → Scope → Result Scope
  unfolding read read_tolerantly
  get_scope_from_annotations annotations s = do
    downscale_period ←
        read (set_time_spans load_location) s.downscale_period
          (lookup annotation_downscale_period annotations)
    down_time ←
        read (set_time_spans load_location) s.down_time (lookup annotation_downtime annotations)
    upscale_period ←
        read (set_time_spans load_location) s.upscale_period
          (lookup annotation_upscale_period annotations)
    up_time ← read (set_time_spans load_location) s.up_time (lookup annotation_uptime annotations)
    exclude ← read (set_time_spans load_location) s.exclude (lookup annotation_exclude annotations)
    exclude_until ←
        read (some_of parse_rfc3339) s.exclude_until (lookup annotation_exclude_until annotations)
    force_uptime ←
        read (set_time_spans load_location) s.force_uptime
          (lookup annotation_force_uptime annotations)
    force_downtime ←
        read (set_time_spans load_location) s.force_downtime
          (lookup annotation_force_downtime annotations)
    downscale_replicas ←
        read (some_of set) s.downscale_replicas (lookup annotation_downscale_replicas annotations)
    grace_period ← read set_duration s.grace_period (lookup annotation_grace_period annotations)
    scale_children ←
        read set_tri_state s.scale_children (lookup annotation_scale_children annotations)
    let filled = record s {
      downscale_period = downscale_period;
      down_time = down_time;
      upscale_period = upscale_period;
      up_time = up_time;
      exclude = exclude;
      exclude_until = exclude_until;
      force_uptime = force_uptime;
      force_downtime = force_downtime;
      downscale_replicas = downscale_replicas;
      grace_period = grace_period;
      scale_children = scale_children;
      upscale_excluded =
          read_tolerantly s.upscale_excluded (lookup annotation_exclusion_upscale annotations);
    }
    compatible ← check_for_incompatible_fields filled
    ok filled

  -- `GetScopeFromEnv`, where `env` holds the environment. A timezone that is not set is a nil one,
  -- whatever the scope held.
  unfoldable pub get_scope_from_env : Dict Text → Scope → Result Scope
  unfolding read
  get_scope_from_env env s = do
    upscale_period ←
        read (set_time_spans load_location) s.upscale_period (lookup "UPSCALE_PERIOD" env)
    up_time ← read (set_time_spans load_location) s.up_time (lookup "DEFAULT_UPTIME" env)
    downscale_period ←
        read (set_time_spans load_location) s.downscale_period (lookup "DOWNSCALE_PERIOD" env)
    down_time ← read (set_time_spans load_location) s.down_time (lookup "DEFAULT_DOWNTIME" env)
    default_timezone ← read (some_of load_location) none (lookup "DEFAULT_TIMEZONE" env)
    default_week_frame ←
        read (some_of set_week_frame) s.default_week_frame (lookup "DEFAULT_WEEKFRAME" env)
    let filled = record s {
      upscale_period = upscale_period;
      up_time = up_time;
      downscale_period = downscale_period;
      down_time = down_time;
      default_timezone = default_timezone;
      default_week_frame = default_week_frame;
    }
    compatible ← check_for_incompatible_fields filled
    ok filled
