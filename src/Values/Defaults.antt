-- ===== src/Values/Defaults.antt =====
-- `GetDefaultTimeSpan`, `GetDefaultWeekdayFrom` and `GetDefaultWeekdayTo` of
-- internal/pkg/values/scope.go, and `defaultTimeSpan` of timespan.go.
use go_kube_downscaler.Prelude.{ℕ, Option, none, some}
use go_kube_downscaler.Fault.{Result, ok, err, undefined_default, ◌>>=◌}
use go_kube_downscaler.Time.{Location}
use go_kube_downscaler.Values.{WeekFrame, RelativeTimeSpan, ScopeId, Scopes, ranged, first_of}

abbrev pub found {ℓ} : {A : Type ℓ} → Option (ScopeId × A) → Option A
found none = none
found (some (i, a)) = some a

abbrev frame_from : Option WeekFrame → Option ℕ
frame_from none = none
frame_from (some frame) = frame.weekday_from

abbrev frame_to : Option WeekFrame → Option ℕ
frame_to none = none
frame_to (some frame) = frame.weekday_to

unfoldable pub get_default_timezone : Scopes → Option Location
unfolding first_of
get_default_timezone s = found (first_of (λ scope. scope.default_timezone) (ranged s))

unfoldable pub get_default_weekday_from : Scopes → Option ℕ
unfolding first_of
get_default_weekday_from s =
    found (first_of (λ scope. frame_from scope.default_week_frame) (ranged s))

unfoldable pub get_default_weekday_to : Scopes → Option ℕ
unfolding first_of
get_default_weekday_to s = found (first_of (λ scope. frame_to scope.default_week_frame) (ranged s))

-- A relative timespan with its missing values filled in.
pub record FilledTimeSpan : Type 0 where
  pub timezone : Location
  pub weekday_from : ℕ
  pub weekday_to : ℕ
  pub time_from : ℕ
  pub time_to : ℕ

-- A set value is kept, else the default is taken, else it is an error.
unfoldable pub fill {ℓ} : {A : Type ℓ} → Option A → Option A → Result A
fill (some a) default = ok a
fill none (some a) = ok a
fill none none = err undefined_default

unfoldable pub default_time_span : RelativeTimeSpan → Scopes → Result FilledTimeSpan
unfolding fill
default_time_span t scopes = do
  zone ← fill t.timezone (get_default_timezone scopes)
  from ← fill t.weekday_from (get_default_weekday_from scopes)
  to ← fill t.weekday_to (get_default_weekday_to scopes)
  ok (record {
    timezone = zone;
    weekday_from = from;
    weekday_to = to;
    time_from = t.time_from;
    time_to = t.time_to;
  })
