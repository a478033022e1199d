-- ===== src/Common/Text.antt =====
-- common/Text.hpp: case folding, digits, and reading a number with `std::from_chars`.
-- A `char` is its byte; both readings of a byte above 127 fail the range tests alike.
pub mod Numbers
pub mod Case
use loggerlib.Prelude.{
  ℕ, ◌+◌, ◌-◌, ◌*◌, Bool, true, false, not, ◌&&◌, List, [], ◌∷◌, Option, none, some, Bytes, length,
  leb, ltb, ◌==◌, if◌then◌else◌,
}
use loggerlib.Prelude.Int.{ℤ, pos, negsuc}

unfoldable pub to_lower_case : ℕ → ℕ
to_lower_case c = if leb b'A' c && leb c b'Z' then c - b'A' + b'a' else c

-- the loop, over two texts of one length
unfoldable pub same_letters : Bytes → Bytes → Bool
unfolding to_lower_case
same_letters (x ∷ xs) (y ∷ ys) =
    if not (to_lower_case x == to_lower_case y) then false else same_letters xs ys
same_letters _ _ = true

unfoldable pub equals_ignore_case : Bytes → Bytes → Bool
unfolding same_letters
equals_ignore_case lhs rhs = if not (length lhs == length rhs) then false else same_letters lhs rhs

unfoldable pub is_digit : ℕ → Bool
is_digit c = leb b'0' c && leb c b'9'

-- `std::from_chars`: the digits in front with the value that they spell, and the unread rest.
unfoldable pub read_digits : ℕ → Bytes → ℕ × Bytes
unfolding is_digit
read_digits value [] = (value, [])
read_digits value (c ∷ text) = elim (is_digit c) [
  | true ↦ read_digits (value * 10 + (c - b'0')) text
  | false ↦ (value, c ∷ text)
]

-- For an unsigned type with the given largest value. No digit in front is `invalid_argument`,
-- a larger value is `result_out_of_range`; both leave no value.
unfoldable pub from_chars_unsigned : ℕ → Bytes → Option (ℕ × Bytes)
unfolding is_digit
from_chars_unsigned largest [] = none
from_chars_unsigned largest (c ∷ text) =
    let (value, rest) = read_digits 0 (c ∷ text) in
    if not (is_digit c) then none else if ltb largest value then none else some (value, rest)

-- For a signed type that reaches from `-(largest + 1)` to `largest`; one minus sign may lead.
unfoldable pub from_chars_signed : ℕ → Bytes → Option (ℤ × Bytes)
unfolding from_chars_unsigned
from_chars_signed largest [] = none
from_chars_signed largest (c ∷ text) =
    if c == b'-'
    then elim (from_chars_unsigned (largest + 1) text) [
      | none ↦ none
      | some (value, rest) ↦ some (if value == 0 then pos 0 else negsuc (value - 1), rest)
    ]
    else elim (from_chars_unsigned largest (c ∷ text)) [
      | none ↦ none
      | some (value, rest) ↦ some (pos value, rest)
    ]

-- `result.ptr != last` refuses an unread rest.
unfoldable pub whole {ℓ} : {T : Type ℓ} → Option (T × Bytes) → Option T
whole none = none
whole (some (value, [])) = some value
whole (some (value, c ∷ rest)) = none

unfoldable pub parse_number : ℕ → Bytes → Option ℕ
unfolding from_chars_unsigned whole
parse_number largest text = whole (from_chars_unsigned largest text)

unfoldable pub parse_signed : ℕ → Bytes → Option ℤ
unfolding from_chars_signed whole
parse_signed largest text = whole (from_chars_signed largest text)
