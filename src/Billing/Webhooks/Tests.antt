-- ===== src/Billing/Webhooks/Tests.antt =====
-- Runs of VerifyPaddle and ParsePaddle, and each theorem at an input that meets its conditions.
use snow_radar.Common.{◌+◌, ◌*◌, ◌≤◌, ◌≡◌, ◌↔◌, refl, true, none, some, [], ◌∷◌, string_eq, arith}
use snow_radar.Common.Texts.{concat, bytes, digits, decimal}
use snow_radar.Common.Scan.{
  trim_prefix, is_digit, is_space, skip_space, scan_digits, scan_number, scan_signed, scan_int, pos,
  negsuc,
}
use snow_radar.Codec.{hex_encode}
use snow_radar.Billing.Checkout.Samples.{sums, total, zeros}
use snow_radar.Billing.Webhooks.{
  second, Payload, split_semi, value_of, read_pieces, is_skewed, mac_of, verify_paddle,
  paddle_state, parse_paddle,
}
use snow_radar.Billing.Webhooks.Headers.{header_of}
use snow_radar.Billing.Webhooks.Paddle.{verify_paddle-header}

tests : Unit {0}
unfolding concat bytes digits decimal trim_prefix is_digit is_space skip_space scan_digits
    scan_number scan_signed scan_int hex_encode total zeros split_semi value_of read_pieces
    is_skewed verify_paddle paddle_state parse_paddle
tests = tt

split_tests :
    (split_semi "" ≡ [])
    × (split_semi ";" ≡ "" ∷ [])
    × (split_semi "a;b;" ≡ "a" ∷ "b" ∷ [])
    × (read_pieces (split_semi "ts=1;h1=a;ts=2;x;h1=") "" "" ≡ ("2", "a"))
unfolding tests
split_tests = (refl, refl, refl, refl)

scan_tests :
    (scan_int " 12x" ≡ some (pos 12, "x"))
    × (scan_int "-1" ≡ some (negsuc 0, ""))
    × (scan_int "+0" ≡ some (pos 0, ""))
    × (scan_int "9223372036854775808" ≡ none)
    × (scan_int "-9223372036854775808" ≡ some (negsuc 9223372036854775807, ""))
    × (scan_int "-9223372036854775809" ≡ none)
    × (scan_int "x" ≡ none)
unfolding tests
scan_tests = (refl, refl, refl, refl, refl, refl, refl)

abbrev event : Payload
event = record { id = "s1"; status = "canceled"; custom_data = none }

parse_tests :
    (parse_paddle (λ raw. some event) [] ≡ none)
    × (parse_paddle (λ raw. none) [] ≡ none)
    × (paddle_state "canceled" ≡ "cancelled")
    × (paddle_state "paused" ≡ "")
unfolding tests
parse_tests = (refl, refl, refl, refl)

-- A header whose time is two minutes ahead.
accepted :
    verify_paddle sums "p" (header_of 125 (mac_of sums "p" "125" (7 ∷ []))) (7 ∷ []) (5 * second)
    ≡ true
unfolding tests
accepted = refl

verify_paddle-header_example :
    (verify_paddle sums "p"
        (header_of 125 (mac_of sums "p" (decimal 125) (7 ∷ [])))
        (7 ∷ [])
        (5 * second)
      ≡ true)
    ↔ ((5 * second ≤ 125 * second + 300 * second) × (125 * second ≤ 5 * second + 120 * second))
verify_paddle-header_example = verify_paddle-header sums "p" (7 ∷ []) 125 (5 * second) (omega arith)
