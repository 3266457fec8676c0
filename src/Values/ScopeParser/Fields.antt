-- ===== src/Values/ScopeParser/Fields.antt =====
-- What a scope that was read from annotations holds.
use go_kube_downscaler.Prelude.{◌≡◌, ◌⊎◌, inl, inr, refl, sym, false, Option, none, some, String}
use mathlib.Core.Path.{subst}
use go_kube_downscaler.Fault.{Fault, Result, ok, err, >>=-eq-ok, ok-injective}
use go_kube_downscaler.Text.{Text}
use go_kube_downscaler.Dict.{Dict, lookup}
use go_kube_downscaler.Time.{Location, parse_rfc3339}
use go_kube_downscaler.Replicas.{set}
use go_kube_downscaler.Values.{Scope, TimeSpans, TriStateBool}
use go_kube_downscaler.Values.ScopeScaling.{check_for_incompatible_fields}
use go_kube_downscaler.Values.Parsing.{set_time_spans, set_tri_state, set_duration}
use go_kube_downscaler.Values.ScopeParser.{
  annotation_downscale_period, annotation_downtime, annotation_upscale_period, annotation_uptime,
  annotation_exclude, annotation_exclude_until, annotation_force_uptime, annotation_force_downtime,
  annotation_downscale_replicas, annotation_grace_period, annotation_scale_children,
  annotation_exclusion_upscale, read, some_of, or_unset, read_tolerantly,
  get_scope_from_annotations,
}

-- A field is as before where there is no text, and what the parser gives for the text where there
-- is one.
abbrev pub ComesFrom : {A : Type 0} → (Text → Result A) → Option Text → A → A → Type 0
ComesFrom parse o before after =
    ((o ≡ none) × (after ≡ before)) ⊎ ((text : Text) × (o ≡ some text) × (parse text ≡ ok after))

-- The same for a field that may be unset.
abbrev pub ValueFrom : {A : Type 0} → (Text → Result A) → Option Text → Option A → Option A → Type 0
ValueFrom {A} parse o before after =
    ((o ≡ none) × (after ≡ before))
    ⊎ ((text : Text) × (value : A) × (o ≡ some text)
        × (parse text ≡ ok value)
        × (after ≡ some value))

-- The same for a flag, which is false where the parser refuses the text, and set if it was so
-- before.
abbrev pub FlagFrom : Option Text → TriStateBool → TriStateBool → Type 0
FlagFrom o before after =
    ComesFrom set_tri_state o before after
    ⊎ ((text : Text) × (e : Fault) × (o ≡ some text)
        × (set_tri_state text ≡ err e)
        × (after.value ≡ false)
        × (after.is_set ≡ before.is_set))

read-ComesFrom :
    {A : Type 0} (parse : Text → Result A) (o : Option Text) (before after : A)
    → read parse before o ≡ ok after
    → ComesFrom parse o before after
unfolding read
read-ComesFrom parse none before after e = inl (refl, sym (ok-injective e))
read-ComesFrom parse (some text) before after e = inr (text, refl, e)

read-ValueFrom :
    {A : Type 0} (parse : Text → Result A) (o : Option Text) (before after : Option A)
    → read (some_of parse) before o ≡ ok after
    → ValueFrom parse o before after
unfolding read
read-ValueFrom parse none before after e = inl (refl, sym (ok-injective e))
read-ValueFrom parse (some text) before after e =
    let (value, p, q) = >>=-eq-ok (parse text) _ e in
    inr (text, value, refl, p, sym (ok-injective q))

or_unset-FlagFrom :
    (text : Text) (before : TriStateBool) (r : Result TriStateBool)
    → set_tri_state text ≡ r
    → FlagFrom (some text) before (or_unset before r)
unfolding or_unset
or_unset-FlagFrom text before (ok t) e = inl (inr (text, refl, e))
or_unset-FlagFrom text before (err f) e = inr (text, f, refl, e, refl, refl)

read_tolerantly-FlagFrom :
    (o : Option Text) (before : TriStateBool) → FlagFrom o before (read_tolerantly before o)
unfolding read_tolerantly
read_tolerantly-FlagFrom none before = inl (inl (refl, refl))
read_tolerantly-FlagFrom (some text) before = or_unset-FlagFrom text before _ refl

module _ (load_location : Text → Result Location) (annotations : Dict Text) where
  -- A list of timespans before and after its annotation was read.
  abbrev pub SpansFrom : String → TimeSpans → TimeSpans → Type 0
  SpansFrom key before after =
      ComesFrom (set_time_spans load_location) (lookup key annotations) before after

  -- Every field comes from its own annotation, or is as in `s`.
  pub record IsReadFrom (s scope : Scope) : Type 0 where
    pub downscale_period :
        SpansFrom annotation_downscale_period s.downscale_period scope.downscale_period
    pub down_time : SpansFrom annotation_downtime s.down_time scope.down_time
    pub upscale_period : SpansFrom annotation_upscale_period s.upscale_period scope.upscale_period
    pub up_time : SpansFrom annotation_uptime s.up_time scope.up_time
    pub exclude : SpansFrom annotation_exclude s.exclude scope.exclude
    pub exclude_until :
        ValueFrom parse_rfc3339
          (lookup annotation_exclude_until annotations)
          s.exclude_until
          scope.exclude_until
    pub force_uptime : SpansFrom annotation_force_uptime s.force_uptime scope.force_uptime
    pub force_downtime : SpansFrom annotation_force_downtime s.force_downtime scope.force_downtime
    pub downscale_replicas :
        ValueFrom set
          (lookup annotation_downscale_replicas annotations)
          s.downscale_replicas
          scope.downscale_replicas
    pub grace_period :
        ComesFrom set_duration
          (lookup annotation_grace_period annotations)
          s.grace_period
          scope.grace_period
    pub scale_children :
        ComesFrom set_tri_state
          (lookup annotation_scale_children annotations)
          s.scale_children
          scope.scale_children
    pub upscale_excluded :
        FlagFrom
          (lookup annotation_exclusion_upscale annotations)
          s.upscale_excluded
          scope.upscale_excluded
    pub default_timezone : scope.default_timezone ≡ s.default_timezone
    pub default_week_frame : scope.default_week_frame ≡ s.default_week_frame
    pub compatible : check_for_incompatible_fields scope ≡ ok tt

  spans :
      (key : String) (before after : TimeSpans)
      → read (set_time_spans load_location) before (lookup key annotations) ≡ ok after
      → SpansFrom key before after
  spans key before after e = read-ComesFrom _ (lookup key annotations) before after e

  -- Where `GetScopeFromAnnotations` returns no error, every field of the scope is as before where
  -- its own annotation is missing, and holds what the parser of the field reads from the annotation
  -- where it is there. The one exception is an `upscale-excluded` that the parser refuses: the flag
  -- is then false, and set if it was set before, with no error returned. The defaults of the
  -- timespans are as before, and the scope has no incompatible fields.
  pub get_scope_from_annotations-IsReadFrom :
      (s scope : Scope)
      → get_scope_from_annotations load_location annotations s ≡ ok scope
      → IsReadFrom s scope
  unfolding get_scope_from_annotations
  get_scope_from_annotations-IsReadFrom s scope e =
      let (downscale_period, a1, e1) =
        >>=-eq-ok
          (read (set_time_spans load_location) s.downscale_period
            (lookup annotation_downscale_period annotations))
          _ e in
      let (down_time, a2, e2) =
        >>=-eq-ok
          (read (set_time_spans load_location) s.down_time (lookup annotation_downtime annotations))
          _ e1 in
      let (upscale_period, a3, e3) =
        >>=-eq-ok
          (read (set_time_spans load_location) s.upscale_period
            (lookup annotation_upscale_period annotations))
          _ e2 in
      let (up_time, a4, e4) =
        >>=-eq-ok
          (read (set_time_spans load_location) s.up_time (lookup annotation_uptime annotations)) _
          e3 in
      let (exclude, a5, e5) =
        >>=-eq-ok
          (read (set_time_spans load_location) s.exclude (lookup annotation_exclude annotations)) _
          e4 in
      let (exclude_until, a6, e6) =
        >>=-eq-ok
          (read (some_of parse_rfc3339) s.exclude_until
            (lookup annotation_exclude_until annotations))
          _ e5 in
      let (force_uptime, a7, e7) =
        >>=-eq-ok
          (read (set_time_spans load_location) s.force_uptime
            (lookup annotation_force_uptime annotations))
          _ e6 in
      let (force_downtime, a8, e8) =
        >>=-eq-ok
          (read (set_time_spans load_location) s.force_downtime
            (lookup annotation_force_downtime annotations))
          _ e7 in
      let (downscale_replicas, a9, e9) =
        >>=-eq-ok
          (read (some_of set) s.downscale_replicas
            (lookup annotation_downscale_replicas annotations))
          _ e8 in
      let (grace_period, a10, e10) =
        >>=-eq-ok (read set_duration s.grace_period (lookup annotation_grace_period annotations)) _
          e9 in
      let (scale_children, a11, e11) =
        >>=-eq-ok
          (read set_tri_state s.scale_children (lookup annotation_scale_children annotations)) _
          e10 in
      let (compatible, a12, e12) = >>=-eq-ok (check_for_incompatible_fields _) _ e11 in
      subst (IsReadFrom s) (ok-injective e12) (record {
        downscale_period = spans annotation_downscale_period s.downscale_period _ a1;
        down_time = spans annotation_downtime s.down_time _ a2;
        upscale_period = spans annotation_upscale_period s.upscale_period _ a3;
        up_time = spans annotation_uptime s.up_time _ a4;
        exclude = spans annotation_exclude s.exclude _ a5;
        exclude_until =
            read-ValueFrom _ (lookup annotation_exclude_until annotations) s.exclude_until _ a6;
        force_uptime = spans annotation_force_uptime s.force_uptime _ a7;
        force_downtime = spans annotation_force_downtime s.force_downtime _ a8;
        downscale_replicas =
            read-ValueFrom _ (lookup annotation_downscale_replicas annotations) s.downscale_replicas
              _ a9;
        grace_period =
            read-ComesFrom _ (lookup annotation_grace_period annotations) s.grace_period _ a10;
        scale_children =
            read-ComesFrom _ (lookup annotation_scale_children annotations) s.scale_children _ a11;
        upscale_excluded =
            read_tolerantly-FlagFrom (lookup annotation_exclusion_upscale annotations)
              s.upscale_excluded;
        default_timezone = refl;
        default_week_frame = refl;
        compatible = a12;
      })
