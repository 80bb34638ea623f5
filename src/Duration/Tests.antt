-- ===== src/Duration/Tests.antt =====
-- Runs of the two functions on small inputs, and their theorems there.
use conduit_connector_sdk_py.Prelude.{◌≡◌, refl, pos, negsuc, ok, err}
use conduit_connector_sdk_py.Prelude.Decimal.{show_ℕ, codes, pow10, strip, value_from}
use conduit_connector_sdk_py.Duration.RoundTrip.{parse_go_duration-format_go_duration}
use native.Mathlib.Omega.{arith}
use conduit_connector_sdk_py.Duration.{
  format_go_duration, format_magnitude, format_clock, format_scaled, rjust, rstrip_zeros,
  parse_go_duration, parse_signed, parse_magnitude, components, component, number, number_after,
  fractional, span_digits, find_unit, strip_prefix, add, times, round, timedelta, value_error,
  overflow_error,
}

format_90s : format_go_duration (negsuc 90_499_999) ≡ codes "-1m30.5s"
unfolding format_go_duration format_magnitude format_clock format_scaled rjust rstrip_zeros show_ℕ
format_90s = refl

format_1500us : format_go_duration (pos 1_050) ≡ codes "1.05ms"
unfolding format_go_duration format_magnitude format_clock format_scaled rjust rstrip_zeros show_ℕ
format_1500us = refl

parse_mixed : parse_go_duration (codes " 1h2m.5s3ms ") ≡ ok (pos 3_720_503_000)
unfolding parse_go_duration parse_signed parse_magnitude components component number number_after
    fractional span_digits find_unit strip_prefix add times round timedelta pow10 strip value_from
parse_mixed = refl

parse_tie : parse_go_duration (codes "500ns") ≡ ok (pos 0)
unfolding parse_go_duration parse_signed parse_magnitude components component number number_after
    fractional span_digits find_unit strip_prefix add times round timedelta pow10 strip value_from
parse_tie = refl

parse_bad : parse_go_duration (codes "5x") ≡ err value_error
unfolding parse_go_duration parse_signed parse_magnitude components component number number_after
    fractional span_digits find_unit strip_prefix add times round timedelta pow10 strip value_from
parse_bad = refl

parse_huge : parse_go_duration (codes "24000000000h") ≡ err overflow_error
unfolding parse_go_duration parse_signed parse_magnitude components component number number_after
    fractional span_digits find_unit strip_prefix add times round timedelta pow10 strip value_from
parse_huge = refl

parse_go_duration-format_go_duration_example :
    parse_go_duration (format_go_duration (negsuc 90_499_999)) ≡ ok (negsuc 90_499_999)
parse_go_duration-format_go_duration_example =
    parse_go_duration-format_go_duration (negsuc 90_499_999) (omega arith)
