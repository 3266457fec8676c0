-- ===== src/Values/ScopeParser/Complete.antt =====
-- Scopes that were read from annotations decide on a scaling.
use go_kube_downscaler.Prelude.{
  ◌≡◌, inl, inr, refl, ap, Bool, true, false, ◌||◌, Option, none, is_some, ℤ, Bool-cases,
}
use go_kube_downscaler.Fault.{Result, ok, err, is_ok}
use go_kube_downscaler.Text.{Text}
use go_kube_downscaler.Dict.{Dict}
use go_kube_downscaler.Time.{Location}
use go_kube_downscaler.Values.{
  Scope, Scopes, TimeSpans, new_scope, Scaling, scaling_none, scaling_ignore, scaling_down,
  scaling_up, scaling_incomplete,
}
use go_kube_downscaler.Values.Span.{in_time_spans}
use go_kube_downscaler.Values.ScopeScaling.{
  merge, choose, get_scaling_from_periods, get_scope_scaling, get_force_scaling,
}
use go_kube_downscaler.Values.Parsing.{set_time_spans}
use go_kube_downscaler.Values.Parsing.Evaluable.{HasDefaults, in_time_spans-set}
use go_kube_downscaler.Values.ScopeParser.{get_scope_from_annotations}
use go_kube_downscaler.Values.ScopeParser.Fields.{ComesFrom, get_scope_from_annotations-IsReadFrom}

-- A scaling that the main loop can act on or skip with a reason.
abbrev pub is_complete : Scaling → Bool
is_complete scaling_incomplete = false
is_complete _ = true

choose_complete :
    (a b : Scaling) (r : Result Bool)
    → is_ok r ≡ true
    → is_complete a ≡ true
    → is_complete b ≡ true
    → is_complete (choose a b r) ≡ true
choose_complete a b (ok true) h p q = p
choose_complete a b (ok false) h p q = q
choose_complete a b (err e) h p q = cc h

merge_complete :
    (a : Scaling) (down up : Result Bool)
    → is_ok down ≡ true
    → is_ok up ≡ true
    → is_complete a ≡ true
    → is_complete (merge a down up) ≡ true
unfolding merge
merge_complete a (err e) up h k p = cc h
merge_complete a (ok d) (err e) h k p = cc k
merge_complete a (ok true) (ok true) h k p = refl
merge_complete a (ok true) (ok false) h k p = refl
merge_complete a (ok false) (ok true) h k p = refl
merge_complete a (ok false) (ok false) h k p = p

module _ (now : ℤ) (scopes : Scopes) where
  Evaluates : TimeSpans → Type 0
  Evaluates spans = is_ok (in_time_spans now scopes spans) ≡ true

  scope_scaling_complete :
      (s : Scope)
      → Evaluates s.down_time
      → Evaluates s.up_time
      → Evaluates s.downscale_period
      → Evaluates s.upscale_period
      → is_complete (get_scope_scaling now scopes s) ≡ true
  unfolding get_scope_scaling get_scaling_from_periods Evaluates
  scope_scaling_complete s down up downscale upscale = elim (Bool-cases (is_some s.down_time)) [
    | inl d ↦ rw d (choose_complete scaling_down scaling_up _ down refl refl)
    | inr n ↦ elim (Bool-cases (is_some s.up_time)) [
      | inl u ↦ rw (n, u) (choose_complete scaling_up scaling_down _ up refl refl)
      | inr m ↦ elim (Bool-cases (is_some s.downscale_period || is_some s.upscale_period)) [
        | inl p ↦ rw (n, m, p) (merge_complete scaling_ignore _ _ downscale upscale refl)
        | inr q ↦ rw (n, m, q) refl
      ]
    ]
  ]

  force_scaling_complete :
      (s : Scope)
      → Evaluates s.force_downtime
      → Evaluates s.force_uptime
      → is_complete (get_force_scaling now scopes s) ≡ true
  unfolding get_force_scaling Evaluates
  force_scaling_complete s down up =
      elim (Bool-cases (is_some s.force_downtime || is_some s.force_uptime)) [
        | inl f ↦ rw f (merge_complete scaling_ignore _ _ down up refl)
        | inr n ↦ rw n (merge_complete scaling_none _ _ down up refl)
      ]

  ComesFrom-Evaluates :
      (load_location : Text → Result Location) (o : Option Text) (spans : TimeSpans)
      → ComesFrom (set_time_spans load_location) o none spans
      → HasDefaults scopes
      → Evaluates spans
  unfolding in_time_spans Evaluates
  ComesFrom-Evaluates load_location o spans (inl (missing, e)) d =
      ap (λ s. is_ok (in_time_spans now scopes s)) e
  ComesFrom-Evaluates load_location o spans (inr (text, there, e)) d =
      in_time_spans-set load_location text spans now scopes e d

  -- A scope that was read from annotations never leaves its scaling or its forced scaling
  -- undetermined, at any instant and under any scopes that have a default timezone and a default
  -- week frame.
  pub get_scope_from_annotations_complete :
      (load_location : Text → Result Location) (annotations : Dict Text) (scope : Scope)
      → get_scope_from_annotations load_location annotations new_scope ≡ ok scope
      → HasDefaults scopes
      → (is_complete (get_scope_scaling now scopes scope) ≡ true)
        × (is_complete (get_force_scaling now scopes scope) ≡ true)
  unfolding new_scope
  get_scope_from_annotations_complete load_location annotations scope e d =
      let f = get_scope_from_annotations-IsReadFrom load_location annotations new_scope scope e in
      let evaluates =
        λ (o : Option Text) (spans : TimeSpans)
            (h : ComesFrom (set_time_spans load_location) o none spans).
          ComesFrom-Evaluates load_location o spans h d in
      (
        scope_scaling_complete scope (evaluates _ _ f.down_time) (evaluates _ _ f.up_time)
            (evaluates _ _ f.downscale_period) (evaluates _ _ f.upscale_period),
        force_scaling_complete scope (evaluates _ _ f.force_downtime)
            (evaluates _ _ f.force_uptime),
      )
