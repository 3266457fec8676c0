-- ===== src/Values/Parsing/Evaluable.antt =====
-- Timespans that were read from a text, evaluated at any instant.
use go_kube_downscaler.Prelude.{
  ℕ, ◌≡◌, ◌⊎◌, inl, inr, refl, sym, ap, ◌∙◌, Bool, true, false, List, [], ◌∷◌, Option, none, some,
  is_some, All, ℤ,
}
use go_kube_downscaler.Fault.{Result, ok, err, is_ok, >>=-eq-ok, ok-injective}
use go_kube_downscaler.Text.{Text, split}
use go_kube_downscaler.Time.{Location}
use go_kube_downscaler.Values.{
  TimeSpan, RelativeTimeSpan, relative, absolute_span, directional, boolean_span, mode_from,
  mode_until, TimeSpans, Scopes,
}
use go_kube_downscaler.Values.Defaults.{
  get_default_timezone, get_default_weekday_from, get_default_weekday_to, fill, default_time_span,
}
use go_kube_downscaler.Values.Span.{
  is_time_in_span, is_in_relative, is_in_directional, in_spans, in_time_spans, or_in,
}
use go_kube_downscaler.Values.Parsing.{fields, parse_time_spans, set_time_spans}
use go_kube_downscaler.Values.Parsing.WellFormed.{IsWellFormed, parse_time_spans-IsWellFormed}

-- The scopes have a default for everything that a relative timespan may leave out.
abbrev pub HasDefaults : Scopes → Type 0
HasDefaults scopes =
    (is_some (get_default_timezone scopes) ≡ true)
    × (is_some (get_default_weekday_from scopes) ≡ true)
    × (is_some (get_default_weekday_to scopes) ≡ true)

fill-total {ℓ} :
    {A : Type ℓ} (value default : Option A)
    → is_some default ≡ true
    → (a : A) × (fill value default ≡ ok a)
unfolding fill
fill-total (some a) default h = (a, refl)
fill-total none (some a) h = (a, refl)
fill-total none none h = cc h

relative-total :
    (now : ℤ) (scopes : Scopes) (t : RelativeTimeSpan)
    → HasDefaults scopes
    → is_ok (is_in_relative now scopes t) ≡ true
unfolding is_in_relative default_time_span
relative-total now scopes t h =
    let (zone, a) = fill-total t.timezone (get_default_timezone scopes) h.0 in
    let (from, b) = fill-total t.weekday_from (get_default_weekday_from scopes) h.1 in
    let (to, c) = fill-total t.weekday_to (get_default_weekday_to scopes) h.2 in rw (a, b, c) refl

directional-total :
    (now : ℤ) (mode : Option ℕ) (time : ℤ)
    → (mode ≡ some mode_from) ⊎ (mode ≡ some mode_until)
    → is_ok (is_in_directional now mode time) ≡ true
unfolding is_in_directional
directional-total now mode time (inl e) = rw e refl
directional-total now mode time (inr e) = rw e refl

span-total :
    (now : ℤ) (scopes : Scopes) (span : TimeSpan)
    → HasDefaults scopes
    → IsWellFormed span
    → is_ok (is_time_in_span now scopes span) ≡ true
unfolding is_time_in_span
span-total now scopes (relative t) d h = relative-total now scopes t d
span-total now scopes (absolute_span from to) d h = refl
span-total now scopes (directional mode time) d h = directional-total now mode time h
span-total now scopes (boolean_span b) d h = refl

or_in-total : (a b : Result Bool) → is_ok a ≡ true → is_ok b ≡ true → is_ok (or_in a b) ≡ true
unfolding or_in
or_in-total (ok true) b h k = refl
or_in-total (ok false) b h k = k
or_in-total (err e) b h k = cc h

spans-total :
    (now : ℤ) (scopes : Scopes) (spans : List TimeSpan)
    → HasDefaults scopes
    → All IsWellFormed spans
    → is_ok (in_spans now scopes spans) ≡ true
unfolding in_spans
spans-total now scopes [] d h = refl
spans-total now scopes (t ∷ ts) d h =
    or_in-total (is_time_in_span now scopes t) (in_spans now scopes ts)
      (span-total now scopes t d h.0) (spans-total now scopes ts d h.1)

-- The timespans that `Set` reads from a text are evaluated without an error at every instant, under
-- scopes that have a default timezone and a default week frame.
pub in_time_spans-set :
    (load_location : Text → Result Location) (text : Text) (spans : TimeSpans) (now : ℤ)
    (scopes : Scopes)
    → set_time_spans load_location text ≡ ok spans
    → HasDefaults scopes
    → is_ok (in_time_spans now scopes spans) ≡ true
unfolding set_time_spans in_time_spans
in_time_spans-set load_location text spans now scopes e d =
    let (read, a, b) =
      >>=-eq-ok (parse_time_spans load_location (fields load_location (split b',' text))) _ e in
    let w =
      parse_time_spans-IsWellFormed load_location (fields load_location (split b',' text)) read a in
    ap (λ s. is_ok (in_time_spans now scopes s)) (sym (ok-injective b))
    ∙ spans-total now scopes read d w
