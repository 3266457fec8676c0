-- ===== src/Values/ScopeScaling/Meaning.antt =====
-- What one scope asks for, where its fields are compatible.
use go_kube_downscaler.Prelude.{◌≡◌, ◌↔◌, ◌⊎◌, true, false, is_some, ℤ, arith}
use go_kube_downscaler.Fault.{ok}
use go_kube_downscaler.Values.{Scope, Scopes, TimeSpans, scaling_down, scaling_up}
use go_kube_downscaler.Values.Span.{in_time_spans}
use go_kube_downscaler.Values.ScopeScaling.{check_for_incompatible_fields, get_scope_scaling}

module _ (now : ℤ) (scopes : Scopes) where
  abbrev pub In : TimeSpans → Type 0
  In spans = in_time_spans now scopes spans ≡ ok true

  abbrev pub Out : TimeSpans → Type 0
  Out spans = in_time_spans now scopes spans ≡ ok false

  -- Of a scope that passed `CheckForIncompatibleFields`, the scaling is down exactly in its
  -- downtime, out of its uptime if it has one, or in its downscale period and out of its upscale
  -- period; and up the other way round.
  pub get_scope_scaling_iff :
      (s : Scope)
      → check_for_incompatible_fields s ≡ ok tt
      → ((get_scope_scaling now scopes s ≡ scaling_down) ↔ (
          In s.down_time
          ⊎ ((is_some s.up_time ≡ true) × Out s.up_time)
          ⊎ (In s.downscale_period × Out s.upscale_period)))
        × ((get_scope_scaling now scopes s ≡ scaling_up) ↔ (
            In s.up_time
            ⊎ ((is_some s.down_time ≡ true) × Out s.down_time)
            ⊎ (In s.upscale_period × Out s.downscale_period)))
  unfolding get_scope_scaling check_for_incompatible_fields in_time_spans
  get_scope_scaling_iff s c = ground arith
