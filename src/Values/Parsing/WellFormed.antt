-- ===== src/Values/Parsing/WellFormed.antt =====
-- The timespans that are read from a text hold values in their ranges, and can be evaluated.
use mathlib.Core.Path.{subst}
use go_kube_downscaler.Prelude.{
  ℕ, ◌+◌, ◌*◌, ◌<◌, ◌≤◌, ◌≡◌, ◌⊎◌, inl, inr, refl, ap, Bool, not, ◌||◌, List, [], ◌∷◌, Option, none,
  some, is_some, All, arith, Bool-cases, ℤ, pos, ltb_ℤ, pos_part, if◌then◌else◌,
}
use go_kube_downscaler.Fault.{Result, ok, err, >>=-eq-ok, ok-injective}
use go_kube_downscaler.Text.{Text, codes, to_lower, text_eq, trim_space, cut_prefix, split}
use go_kube_downscaler.Text.Decimal.{atoi}
use go_kube_downscaler.Text.Matching.{find_submatch}
use go_kube_downscaler.Time.{Location, parse_rfc3339}
use go_kube_downscaler.Values.{
  TimeSpan, relative, absolute_span, directional, boolean_span, mode_from, mode_until,
}
use go_kube_downscaler.Values.Parsing.Patterns.{RelativeMatch, relative_time_span}
use go_kube_downscaler.Values.Parsing.{
  parse_boolean_time_span, absolute_groups, parse_absolute_time_span, is_directional_timespan,
  directional_at, timestamp_after, parse_directional_time_span, weekday_of, known_weekday,
  get_weekday, second_part, checked_hour, checked_minute, parse_day_time, loaded, relative_of,
  parse_relative_time_span, or_unboolean, or_unabsolute, parse_time_span, parse_time_spans,
}

-- A weekday is below 7 if it is set.
abbrev pub IsWeekday : Option ℕ → Type 0
IsWeekday none = Unit
IsWeekday (some day) = day < 7

-- The latest time of day that is accepted is 24:59.
abbrev pub IsDayTime : ℕ → Type 0
IsDayTime t = t ≤ 24 * 60 + 59

abbrev pub IsWellFormed : TimeSpan → Type 0
IsWellFormed (relative t) =
    IsWeekday t.weekday_from × IsWeekday t.weekday_to × IsDayTime t.time_from × IsDayTime t.time_to
IsWellFormed (absolute_span from to) = Unit
IsWellFormed (directional mode time) = (mode ≡ some mode_from) ⊎ (mode ≡ some mode_until)
IsWellFormed (boolean_span b) = Unit

abbrev IsGood : Result TimeSpan → Type 0
IsGood (ok span) = IsWellFormed span
IsGood (err e) = Unit

checked_hour-le : (hour : ℤ) (h : ℕ) → checked_hour hour ≡ ok h → h ≤ 24
checked_hour-le hour h e = elim (Bool-cases (ltb_ℤ hour (pos 0) || ltb_ℤ (pos 24) hour)) [
  | inl bad ↦ cc (rw bad at e)
  | inr good ↦ let p : pos_part hour ≡ h = ok-injective (rw good at e) in ground arith
]

checked_minute-lt : (minute : ℤ) (m : ℕ) → checked_minute minute ≡ ok m → m < 60
checked_minute-lt minute m e =
    elim (Bool-cases (ltb_ℤ minute (pos 0) || not (ltb_ℤ minute (pos 60)))) [
      | inl bad ↦ cc (rw bad at e)
      | inr good ↦ let p : pos_part minute ≡ m = ok-injective (rw good at e) in ground arith
    ]

-- The times of day that `parseDayTime` accepts.
parse_day_time-le : (s : Text) (t : ℕ) → parse_day_time s ≡ ok t → IsDayTime t
unfolding parse_day_time
parse_day_time-le s t e =
    let (hour, a, e1) = >>=-eq-ok (atoi (split b':' s).0) _ e in
    let (hours, b, e2) = >>=-eq-ok (checked_hour hour) _ e1 in
    let (rest, c, e3) = >>=-eq-ok (second_part (split b':' s).1) _ e2 in
    let (minute, d, e4) = >>=-eq-ok (atoi rest) _ e3 in
    let (minutes, f, e5) = >>=-eq-ok (checked_minute minute) _ e4 in
    let g : hours * 60 + minutes ≡ t = ok-injective e5 in
    omega (arith, checked_hour-le hour hours b, checked_minute-lt minute minutes f)

weekday_of-IsWeekday : (s : Text) → IsWeekday (weekday_of s)
unfolding weekday_of
weekday_of-IsWeekday s = ground arith

known_weekday-IsWeekday :
    (s : Text) (o day : Option ℕ) → IsWeekday o → known_weekday s o ≡ ok day → IsWeekday day
known_weekday-IsWeekday s none day h e = cc e
known_weekday-IsWeekday s (some n) day h e = subst IsWeekday (ok-injective e) h

get_weekday-IsWeekday : (s : Text) (day : Option ℕ) → get_weekday s ≡ ok day → IsWeekday day
unfolding get_weekday
get_weekday-IsWeekday [] day e = subst IsWeekday (ok-injective e) tt
get_weekday-IsWeekday (c ∷ s) day e =
    known_weekday-IsWeekday (c ∷ s) (weekday_of (to_lower (c ∷ s))) day
      (weekday_of-IsWeekday (to_lower (c ∷ s))) e

directional_at-IsWellFormed :
    (text : Text) (mode : ℕ) (s : Text) (span : TimeSpan)
    → (mode ≡ mode_from) ⊎ (mode ≡ mode_until)
    → directional_at text mode s ≡ ok span
    → IsWellFormed span
unfolding directional_at
directional_at-IsWellFormed text mode [] span m e = cc e
directional_at-IsWellFormed text mode (c ∷ s) span m e =
    let (time, a, e1) = >>=-eq-ok (parse_rfc3339 (c ∷ s)) _ e in
    subst IsWellFormed (ok-injective e1)
      (elim m [ inl f ↦ inl (ap some f) | inr u ↦ inr (ap some u) ])

directional-IsWellFormed :
    (text : Text) (span : TimeSpan) → parse_directional_time_span text ≡ ok span → IsWellFormed span
unfolding parse_directional_time_span
directional-IsWellFormed text span e =
    let trimmed = trim_space text in
    elim (Bool-cases (text_eq trimmed [])) [
      | inl empty ↦ cc (rw empty at e)
      | inr full ↦ elim (Bool-cases (is_some (cut_prefix (to_lower trimmed) (codes "from")))) [
        | inl f ↦
            directional_at-IsWellFormed text mode_from (timestamp_after 4 trimmed) span (inl refl)
              (rw (full, f) at e)
        | inr g ↦ elim (Bool-cases (is_some (cut_prefix (to_lower trimmed) (codes "until")))) [
          | inl u ↦
              directional_at-IsWellFormed text mode_until (timestamp_after 5 trimmed) span
                (inr refl) (rw (full, g, u) at e)
          | inr v ↦ cc (rw (full, g, v) at e)
        ]
      ]
    ]

absolute-IsWellFormed :
    (groups : Text × Text) (span : TimeSpan)
    → parse_absolute_time_span groups ≡ ok span
    → IsWellFormed span
unfolding parse_absolute_time_span
absolute-IsWellFormed groups span e =
    let (from, a, e1) = >>=-eq-ok (parse_rfc3339 (trim_space groups.0)) _ e in
    let (to, b, e2) = >>=-eq-ok (parse_rfc3339 (trim_space groups.1)) _ e1 in
    subst IsWellFormed (ok-injective e2) tt

module _ (load_location : Text → Result Location) where
  relative_of-IsWellFormed :
      (text : Text) (o : Option RelativeMatch) (span : TimeSpan)
      → relative_of load_location text o ≡ ok span
      → IsWellFormed span
  unfolding relative_of
  relative_of-IsWellFormed text none span e = cc e
  relative_of-IsWellFormed text (some match) span e =
      let (from, a, e1) = >>=-eq-ok (get_weekday match.from_weekday) _ e in
      let (to, b, e2) = >>=-eq-ok (get_weekday match.to_weekday) _ e1 in
      let (start, c, e3) = >>=-eq-ok (parse_day_time match.from_time) _ e2 in
      let (stop, d, e4) = >>=-eq-ok (parse_day_time match.to_time) _ e3 in
      let (zone, f, e5) = >>=-eq-ok (loaded load_location match.timezone) _ e4 in
      subst IsWellFormed (ok-injective e5) (
        get_weekday-IsWeekday match.from_weekday from a,
        get_weekday-IsWeekday match.to_weekday to b,
        parse_day_time-le match.from_time start c,
        parse_day_time-le match.to_time stop d,
      )

  rest-IsWellFormed :
      (text : Text) (span : TimeSpan)
      → (if is_directional_timespan text
          then parse_directional_time_span text
          else parse_relative_time_span load_location text)
        ≡ ok span
      → IsWellFormed span
  unfolding parse_relative_time_span
  rest-IsWellFormed text span e = elim (Bool-cases (is_directional_timespan text)) [
    | inl d ↦ directional-IsWellFormed text span (rw d at e)
    | inr r ↦ relative_of-IsWellFormed text (find_submatch relative_time_span text) span (rw r at e)
  ]

  kinds-IsWellFormed :
      (b : Option Bool) (a : Option (Text × Text)) (r : Result TimeSpan) (span : TimeSpan)
      → ((s : TimeSpan) → r ≡ ok s → IsWellFormed s)
      → or_unboolean load_location b (or_unabsolute load_location a r) ≡ ok span
      → IsWellFormed span
  kinds-IsWellFormed (some v) a r span h e = subst IsWellFormed (ok-injective e) tt
  kinds-IsWellFormed none (some groups) r span h e = absolute-IsWellFormed groups span e
  kinds-IsWellFormed none none r span h e = h span e

  parse_time_span-IsWellFormed :
      (text : Text) (span : TimeSpan)
      → parse_time_span load_location text ≡ ok span
      → IsWellFormed span
  unfolding parse_time_span
  parse_time_span-IsWellFormed text span e =
      kinds-IsWellFormed (parse_boolean_time_span text) (absolute_groups text) _ span
        (rest-IsWellFormed text) e

  -- The timespans that are read from the fields of a text hold weekdays below 7, times of day up to
  -- 24:59, and, where they are directional, one of the two modes.
  pub parse_time_spans-IsWellFormed :
      (texts : List Text) (spans : List TimeSpan)
      → parse_time_spans load_location texts ≡ ok spans
      → All IsWellFormed spans
  unfolding parse_time_spans
  parse_time_spans-IsWellFormed [] spans e = subst (All IsWellFormed) (ok-injective e) tt
  parse_time_spans-IsWellFormed (text ∷ texts) spans e =
      let (span, a, e1) = >>=-eq-ok (parse_time_span load_location (trim_space text)) _ e in
      let (rest, b, e2) = >>=-eq-ok (parse_time_spans load_location texts) _ e1 in
      subst (All IsWellFormed) (ok-injective e2) (
        parse_time_span-IsWellFormed (trim_space text) span a,
        parse_time_spans-IsWellFormed texts rest b,
      )
