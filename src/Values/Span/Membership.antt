-- ===== src/Values/Span/Membership.antt =====
-- What `inTimeSpans` answers on a list, and the half-open intervals of the absolute timespans.
use go_kube_downscaler.Prelude.{
  ◌≡◌, ◌≢◌, ◌↔◌, ◌⊎◌, inl, inr, ◌∙◌, refl, sym, ap, Bool, true, false, List, [], ◌∷◌, ◌++◌, some,
  All, arith, ℤ, ◌≤ℤ◌, ◌<ℤ◌,
}
use go_kube_downscaler.Fault.{Result, ok, err}
use go_kube_downscaler.Values.{TimeSpan, mode_from, mode_until, Scopes}
use go_kube_downscaler.Values.Span.{
  is_in_absolute, is_in_directional, is_time_in_span, or_in, in_spans, in_time_spans,
}

Result-cases : (x : Result Bool) → (x ≡ ok false) ⊎ ((rest : Result Bool) → or_in x rest ≡ x)
unfolding or_in
Result-cases (ok true) = inr (λ rest. refl)
Result-cases (ok false) = inl refl
Result-cases (err e) = inr (λ rest. refl)

module _ (now : ℤ) (scopes : Scopes) where
  -- The timespans that are looked at and do not hold.
  abbrev pub Misses : List TimeSpan → Type 0
  Misses = All (λ t. is_time_in_span now scopes t ≡ ok false)

  pub in_spans-Misses :
      (spans : List TimeSpan) → Misses spans → in_spans now scopes spans ≡ ok false
  unfolding in_spans
  in_spans-Misses [] h = refl
  in_spans-Misses (t ∷ spans) h = rw h.0 (in_spans-Misses spans h.1)

  pub in_spans-first :
      (before after : List TimeSpan) (t : TimeSpan) (r : Result Bool)
      → Misses before
      → is_time_in_span now scopes t ≡ r
      → r ≢ ok false
      → in_spans now scopes (before ++ t ∷ after) ≡ r
  unfolding in_spans
  in_spans-first [] after t (ok true) h e n = rw e refl
  in_spans-first [] after t (ok false) h e n = absurd (n refl)
  in_spans-first [] after t (err x) h e n = rw e refl
  in_spans-first (u ∷ before) after t r h e n = rw h.0 (in_spans-first before after t r h.1 e n)

  -- The answer is given by a timespan behind others that all miss.
  pub record Answer (spans : List TimeSpan) (r : Result Bool) : Type 0 where
    pub before : List TimeSpan
    pub hit : TimeSpan
    pub after : List TimeSpan
    pub parts : spans ≡ before ++ hit ∷ after
    pub misses : Misses before
    pub answer : is_time_in_span now scopes hit ≡ r

  Answer-here :
      (t : TimeSpan) (spans : List TimeSpan) (r : Result Bool)
      → is_time_in_span now scopes t ≡ r
      → Answer (t ∷ spans) r
  Answer-here t spans r e = record {
    before = [];
    hit = t;
    after = spans;
    parts = refl;
    misses = tt;
    answer = e;
  }

  Answer-later :
      (t : TimeSpan) (spans : List TimeSpan) (r : Result Bool)
      → is_time_in_span now scopes t ≡ ok false
      → Answer spans r
      → Answer (t ∷ spans) r
  Answer-later t spans r e a = record {
    before = t ∷ a.before;
    hit = a.hit;
    after = a.after;
    parts = ap (λ l. t ∷ l) a.parts;
    misses = (e, a.misses);
    answer = a.answer;
  }

  pub Answer-of_in_spans :
      (spans : List TimeSpan) (r : Result Bool)
      → r ≢ ok false
      → in_spans now scopes spans ≡ r
      → Answer spans r
  unfolding in_spans
  Answer-of_in_spans [] r n h = absurd (n (sym h))
  Answer-of_in_spans (t ∷ spans) r n h = elim (Result-cases (is_time_in_span now scopes t)) [
    | inl miss ↦ Answer-later t spans r miss (
        Answer-of_in_spans spans r n (sym (ap (λ x. or_in x (in_spans now scopes spans)) miss) ∙ h))
    | inr hit ↦ Answer-here t spans r (sym (hit (in_spans now scopes spans)) ∙ h)
  ]

  -- `inTimeSpans` returns an error or yes exactly where a timespan gives that answer behind
  -- timespans that all give no.
  pub in_time_spans_iff :
      (spans : List TimeSpan) (r : Result Bool)
      → r ≢ ok false
      → (in_time_spans now scopes (some spans) ≡ r) ↔ Answer spans r
  unfolding in_time_spans
  in_time_spans_iff spans r n = (
    Answer-of_in_spans spans r n,
    λ a.
        ap (in_spans now scopes) a.parts
        ∙ in_spans-first a.before a.after a.hit r a.misses a.answer n,
  )

-- An absolute timespan holds from its start, included, to its end, excluded.
pub is_in_absolute_iff :
    (now from to : ℤ) → (is_in_absolute now from to ≡ true) ↔ ((from ≤ℤ now) × (now <ℤ to))
unfolding is_in_absolute
is_in_absolute_iff now from to = ground arith

-- A `from` timespan and an `until` timespan of one instant hold at opposite instants.
pub is_in_directional-until :
    (now time : ℤ)
    → ((is_in_directional now (some mode_from) time ≡ ok true) ↔ (time ≤ℤ now))
      × ((is_in_directional now (some mode_until) time ≡ ok true) ↔ (now <ℤ time))
unfolding is_in_directional
is_in_directional-until now time = ground arith
