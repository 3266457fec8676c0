-- ===== src/Time/Tests.antt =====
-- Timestamps whose instants are known.
use go_kube_downscaler.Prelude.{◌≡◌, refl, pos, negsuc, ◌+ℤ◌, ◌-ℤ◌, ◌*ℤ◌}
use go_kube_downscaler.Fault.{ok, err, parse_failure}
use go_kube_downscaler.Text.{codes}
use go_kube_downscaler.Time.{parse_rfc3339, weekday, local_seconds}

epoch : parse_rfc3339 (codes "1970-01-01T00:00:00Z") ≡ ok (pos 0)
unfolding parse_rfc3339 ◌+ℤ◌ ◌-ℤ◌ ◌*ℤ◌
epoch = refl

with_offset : parse_rfc3339 (codes "2024-02-29T12:30:00.25+02:00") ≡ ok (pos 1709202600250000000)
unfolding parse_rfc3339 ◌+ℤ◌ ◌-ℤ◌ ◌*ℤ◌
with_offset = refl

before_epoch : parse_rfc3339 (codes "1969-12-31T23:59:59Z") ≡ ok (negsuc 999999999)
unfolding parse_rfc3339 ◌+ℤ◌ ◌-ℤ◌ ◌*ℤ◌
before_epoch = refl

no_such_day :
    parse_rfc3339 (codes "2023-02-29T00:00:00Z")
    ≡ err (parse_failure (codes "2023-02-29T00:00:00Z"))
unfolding parse_rfc3339 ◌+ℤ◌ ◌-ℤ◌ ◌*ℤ◌
no_such_day = refl

-- 2024-02-29 was a Thursday.
leap_day : weekday (record { offset = λ _. pos 0 }) (pos 1709202600250000000) ≡ 4
unfolding weekday local_seconds ◌+ℤ◌
leap_day = refl
