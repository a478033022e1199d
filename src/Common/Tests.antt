-- ===== src/Common/Tests.antt =====
-- Runs of common/ on the inputs of tests/test_text.cpp and tests/test_endpoint.cpp, and the
-- theorems at concrete inputs.
use loggerlib.Common.Endpoint.RoundTrip.{split-join}
use loggerlib.Common.Endpoint.{split_host_port, join_host_port, parse_port}
use loggerlib.Common.Text.Numbers.{IsDigit, to_string, value, parse_number_iff}
use loggerlib.Common.Text.{parse_number, parse_signed, read_digits}
use loggerlib.Prelude.Int.{pos, negsuc}
use loggerlib.Prelude.{
  ◌-◌, ◌^◌, ◌≤◌, ◌≡◌, refl, ◌≢◌, ◌↔◌, none, some, [], codes, All, find, rfind, find_pair,
}

numbers :
    (parse_number 65535 (codes "5555") ≡ some 5555)
    × (parse_number 65535 (codes "65536") ≡ none)
    × (parse_number 65535 (codes "12x") ≡ none)
    × (parse_number 65535 [] ≡ none)
    × (parse_number 65535 (codes "-1") ≡ none)
    × (parse_signed (2 ^ 63 - 1) (codes "-5") ≡ some (negsuc 4))
    × (parse_signed (2 ^ 63 - 1) (codes "10") ≡ some (pos 10))
unfolding parse_number parse_signed read_digits
numbers = (refl, refl, refl, refl, refl, refl, refl)

endpoints :
    (split_host_port (codes "[::1]:5555")
      ≡ some (record { host = codes "::1"; port = codes "5555" }))
    × (split_host_port (codes ":5555") ≡ some (record { host = []; port = codes "5555" }))
    × (split_host_port (codes "::1:5555") ≡ none)
    × (split_host_port (codes "localhost") ≡ none)
    × (parse_port (codes "0") ≡ none)
unfolding split_host_port parse_port parse_number read_digits find rfind find_pair
endpoints = (refl, refl, refl, refl, refl)

parse_number_iff_example :
    (parse_number 65535 (codes "80") ≡ some 80)
    ↔ ((codes "80" ≢ []) × All IsDigit (codes "80") × (80 ≡ value 0 (codes "80")) × (80 ≤ 65535))
parse_number_iff_example = parse_number_iff 65535 80 (codes "80")

split-join_example :
    split_host_port (join_host_port (codes "::1") 5555)
    ≡ some (record { host = codes "::1"; port = to_string 5555 })
unfolding find_pair find
split-join_example = split-join (codes "::1") 5555 refl (λ h. refl)
