-- ===== src/Values/Parsing/Patterns.antt =====
-- The regular expressions of internal/pkg/values/timespan.go.
use go_kube_downscaler.Prelude.{ℕ, Bool, ◌||◌, [], ◌∷◌, ◌++◌, Option, none, some, between, ◌==◌}
use go_kube_downscaler.Text.{Text, codes}
use go_kube_downscaler.Text.Matching.{
  Matcher, ◌>>=◌, ◌>>◌, give, one, many, some_of, optional, either, end, word, is_digit, is_blank,
  is_any,
}

abbrev literal : ℕ → Matcher ℕ
literal c = one (λ x. x == c)

-- `\d{2}:\d{2}`, the constant `timeofday`.
unfoldable pub time_of_day : Matcher Text
unfolding one
time_of_day = do
  a ← one is_digit
  b ← one is_digit
  literal b':'
  c ← one is_digit
  d ← one is_digit
  give (a ∷ b ∷ b':' ∷ c ∷ d ∷ [])

-- `(.+Z|.+[+-]\d{2}:\d{2})`, the constant `rfc3339Regex`.
unfoldable pub rfc3339 : Matcher Text
unfolding some_of one time_of_day
rfc3339 =
    either (do t ← some_of is_any; z ← literal b'Z'; give (t ++ z ∷ []))
      (do
        t ← some_of is_any
        sign ← one (λ c. c == b'+' || c == b'-')
        offset ← time_of_day
        give (t ++ sign ∷ offset))

-- `absoluteTimeSpanRegex`, with its two groups.
unfoldable pub absolute_time_span : Matcher (Text × Text)
unfolding rfc3339 many one end
absolute_time_span = do
  from ← rfc3339
  many (λ c. c == b' ')
  literal b'-'
  many (λ c. c == b' ')
  to ← rfc3339
  end
  give (from, to)

-- The constant `weekday`.
unfoldable pub weekday : Matcher Text
unfolding word
weekday = either (word (codes "mon")) (
    either (word (codes "tue")) (
      either (word (codes "wed")) (
        either (word (codes "thu"))
          (either (word (codes "fri")) (either (word (codes "sat")) (word (codes "sun")))))))

-- The class of the constant `timezone`.
abbrev pub is_timezone : ℕ → Bool
is_timezone c =
    between b'A' b'Z' c
    || between b'a' b'z' c
    || is_digit c
    || c == b'/'
    || c == b'_'
    || c == b'+'
    || c == b'-'

-- The named groups of `relativeTimeSpanRegex`; a group that takes no part gives "".
pub record RelativeMatch : Type 0 where
  pub from_weekday : Text
  pub to_weekday : Text
  pub from_time : Text
  pub to_time : Text
  pub timezone : Text

abbrev or_empty : Option Text → Text
or_empty none = []
or_empty (some t) = t

abbrev pub relative_match : Option (Text × Text) → Text → Text → Option Text → RelativeMatch
relative_match none from_time to_time timezone = record {
  from_weekday = [];
  to_weekday = [];
  from_time = from_time;
  to_time = to_time;
  timezone = or_empty timezone;
}
relative_match (some (from, to)) from_time to_time timezone = record {
  from_weekday = from;
  to_weekday = to;
  from_time = from_time;
  to_time = to_time;
  timezone = or_empty timezone;
}

abbrev weekdays : Matcher (Text × Text)
weekdays = do from ← weekday; literal b'-'; to ← weekday; some_of is_blank; give (from, to)

-- `relativeTimeSpanRegex`.
unfoldable pub relative_time_span : Matcher RelativeMatch
unfolding weekday one some_of time_of_day end
relative_time_span = do
  days ← optional weekdays
  from_time ← time_of_day
  literal b'-'
  to_time ← time_of_day
  timezone ← optional (do some_of is_blank; some_of is_timezone)
  end
  give (relative_match days from_time to_time timezone)
