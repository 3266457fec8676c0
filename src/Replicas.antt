-- ===== src/Replicas.antt =====
-- internal/pkg/values/replicas.go: the replica values, how they are read from a text and printed,
-- and their conversions.
pub mod RoundTrip
use go_kube_downscaler.Prelude.{
  ℕ, ◌≡◌, Bool, true, false, ◌||◌, List, [], ◌∷◌, ◌++◌, Option, none, some, if◌then◌else◌, ℤ, pos,
  negsuc, negate, ltb_ℤ, ◌-◌, ◌^◌, ◌==◌, eqb_ℤ, not, ◌&&◌,
}
use go_kube_downscaler.Fault.{
  Fault, invalid_replica_type, replica_format_not_matched, Result, ok, err, is_ok,
}
use go_kube_downscaler.Text.{Text, codes, text_eq, is_alpha, to_lower, trim_space, cut_suffix}
use go_kube_downscaler.Text.Decimal.{itoa, magnitude, parse_int, atoi}

-- The four implementations of the interface `Replicas`. `absolute` holds an int32, `percentage`
-- an int. A nil interface value is the `none` of an `Option Replicas`.
pub data Replicas : Type 0 where
  absolute : ℤ → Replicas
  percentage : ℤ → Replicas
  boolean : Bool → Replicas
  string : Text → Replicas

abbrev pub undefined : ℤ
undefined = negsuc 0

abbrev pub true_text : Text
true_text = codes "true"

abbrev pub false_text : Text
false_text = codes "false"

unfoldable pub format_bool : Bool → Text
format_bool true = true_text
format_bool false = false_text

-- The methods `String`.
unfoldable pub to_text : Replicas → Text
unfolding format_bool
to_text (absolute a) = itoa a
to_text (percentage p) = itoa p ++ codes "%"
to_text (boolean b) = format_bool b
to_text (string s) = s

unfoldable pub as_int32 : Replicas → Result ℤ
as_int32 (absolute a) = ok a
as_int32 (percentage p) = err (invalid_replica_type (to_text (percentage p)))
as_int32 (boolean b) = err (invalid_replica_type (to_text (boolean b)))
as_int32 (string s) = err (invalid_replica_type (to_text (string s)))

unfoldable pub as_bool : Replicas → Result Bool
as_bool (absolute a) = err (invalid_replica_type (to_text (absolute a)))
as_bool (percentage p) = err (invalid_replica_type (to_text (percentage p)))
as_bool (boolean b) = ok b
as_bool (string s) = err (invalid_replica_type (to_text (string s)))

-- `intstr.IntOrString`: its type tag chooses between an int32 and a string.
pub data IntOrString : Type 0 where
  int : ℤ → IntOrString
  str : Text → IntOrString

unfoldable pub as_int_str : Replicas → IntOrString
unfolding format_bool
as_int_str (absolute a) = int a
as_int_str (percentage p) = str (itoa p ++ codes "%")
as_int_str (boolean b) = str (format_bool b)
as_int_str (string s) = str s

-- A parser's result: it matched (with a replica or a validation error) or it did not.
unfoldable pub is_unexpected_replica_parse_error : Fault → Bool
is_unexpected_replica_parse_error replica_format_not_matched = false
is_unexpected_replica_parse_error _ = true

-- The second result of the source, whether the format matched, is true exactly where the error is
-- not the no-match error, so it is not kept apart.
unfoldable pub check_absolute : Text → Result ℤ → Result Replicas
check_absolute value (err _) = err replica_format_not_matched
check_absolute value (ok replica) =
    if ltb_ℤ replica (pos 0) && not (eqb_ℤ replica undefined)
    then err (invalid_replica_type value)
    else ok (absolute replica)

unfoldable pub parse_absolute_replicas : Text → Result Replicas
unfolding check_absolute
parse_absolute_replicas value = check_absolute value (parse_int 32 value)

unfoldable pub check_percentage : Text → Result ℤ → Result Replicas
check_percentage value (err _) = err replica_format_not_matched
check_percentage value (ok p) =
    if ltb_ℤ p (pos 0) || ltb_ℤ (pos 100) p
    then err (invalid_replica_type value)
    else ok (percentage p)

unfoldable pub trimmed_percentage : Text → Option Text → Result Replicas
unfolding check_percentage
trimmed_percentage value none = err replica_format_not_matched
trimmed_percentage value (some number) = check_percentage value (atoi number)

unfoldable pub parse_percentage_replicas : Text → Result Replicas
unfolding trimmed_percentage
parse_percentage_replicas value = trimmed_percentage value (cut_suffix value (codes "%"))

unfoldable pub is_boolean_string : Text → Bool
is_boolean_string s = text_eq (to_lower s) true_text || text_eq (to_lower s) false_text

-- `strconv.ParseBool`.
unfoldable pub parse_bool : Text → Option Bool
parse_bool s =
    if text_eq s (codes "1")
      || text_eq s (codes "t")
      || text_eq s (codes "T")
      || text_eq s (codes "TRUE")
      || text_eq s true_text
      || text_eq s (codes "True")
    then some true
    else if text_eq s (codes "0")
        || text_eq s (codes "f")
        || text_eq s (codes "F")
        || text_eq s (codes "FALSE")
        || text_eq s false_text
        || text_eq s (codes "False")
    then some false
    else none

unfoldable pub check_boolean : Text → Option Bool → Result Replicas
check_boolean value none = err (invalid_replica_type value)
check_boolean value (some parsed) = ok (boolean parsed)

unfoldable pub parse_boolean_replicas : Text → Result Replicas
unfolding is_boolean_string parse_bool check_boolean
parse_boolean_replicas value =
    if is_boolean_string value
    then check_boolean value (parse_bool (to_lower (trim_space value)))
    else err replica_format_not_matched

-- One step of `Set`: an unexpected error is returned, a match is taken, else the next parser runs.
unfoldable pub or_next : Result Replicas → Result Replicas → Result Replicas
unfolding is_unexpected_replica_parse_error
or_next (ok replica) next = ok replica
or_next (err e) next = if is_unexpected_replica_parse_error e then err e else next

unfoldable pub set_string : Text → Result Replicas
set_string value = if is_alpha value then ok (string value) else err (invalid_replica_type value)

-- `ReplicasValue.Set`: the value to store, or the error with which nothing is stored.
unfoldable pub set : Text → Result Replicas
unfolding or_next parse_absolute_replicas parse_percentage_replicas parse_boolean_replicas
    set_string
set value = or_next (parse_absolute_replicas value) (
    or_next (parse_percentage_replicas value)
      (or_next (parse_boolean_replicas value) (set_string value)))

-- The value that `Atoi` returns beside its error: the nearest int at a range error (the text is
-- then an integer of more digits), and 0 at a syntax error.
unfoldable pub saturated : Option ℕ → Text → ℤ
saturated none s = pos 0
saturated (some _) [] = pos 0
saturated (some _) (c ∷ s) = if c == b'-' then negate (2 ^ 63) else pos (2 ^ 63 - 1)

unfoldable pub unsigned : Text → Text
unsigned [] = []
unsigned (c ∷ s) = if c == b'-' || c == b'+' then s else c ∷ s

unfoldable pub value_or_saturated : Result ℤ → Text → ℤ
unfolding saturated unsigned
value_or_saturated (ok val) s = val
value_or_saturated (err _) s = saturated (magnitude (unsigned s)) s

unfoldable pub atoi_value : Text → ℤ
unfolding value_or_saturated
atoi_value s = value_or_saturated (atoi s) s

unfoldable pub or_whole : Option Text → Text → Text
or_whole none s = s
or_whole (some r) s = r

-- `strings.TrimSuffix`.
unfoldable pub without_suffix : Text → Text → Text
unfolding or_whole
without_suffix s t = or_whole (cut_suffix s t) s

-- `NewReplicasFromIntOrStr`; a nil pointer gives a nil interface.
unfoldable pub new_replicas_from_int_or_str : Option IntOrString → Option Replicas
unfolding atoi_value without_suffix
new_replicas_from_int_or_str none = none
new_replicas_from_int_or_str (some (int val)) = some (absolute val)
new_replicas_from_int_or_str (some (str text)) =
    some (percentage (atoi_value (without_suffix text (codes "%"))))
