-- ===== src/Common/Text/Numbers.antt =====
-- Numbers as text: `std::to_string`, and what `parseNumber` of common/Text.hpp accepts.
use mathlib.Core.List.{concat-ne-nil, cons-ne-nil}
use loggerlib.Prelude.{
  ℕ, zero, suc, ◌+◌, ◌-◌, ◌*◌, ◌/◌, ◌%◌, ◌≤◌, ◌<◌, [], ◌∷◌, ◌++◌, some, ◌≡◌, ◌≢◌, ◌↔◌, refl, sym,
  arith, Bytes, ltb, if◌then◌else◌, All, All-append, Lacks,
}
use loggerlib.Common.Text.{read_digits, parse_number}

-- `std::to_string` of an unsigned number: the digits, the last one by `% 10`. A number has fewer
-- digits than its value plus one, so `suc n` rounds are enough.
unfoldable pub decimal : ℕ → ℕ → Bytes
decimal zero n = []
decimal (suc fuel) n =
    let front = decimal fuel (n / 10) in
    if ltb n 10 then (b'0' + n) ∷ [] else front ++ (b'0' + n % 10) ∷ []

unfoldable pub to_string : ℕ → Bytes
unfolding decimal
to_string n = decimal (suc n) n

abbrev pub IsDigit : ℕ → Type 0
IsDigit c = (b'0' ≤ c) × (c ≤ b'9')

-- The number that digits spell behind `n`, with no bound.
abbrev pub value : ℕ → Bytes → ℕ
value n [] = n
value n (c ∷ s) = value (n * 10 + (c - b'0')) s

pub read_digits-All : (n : ℕ) (s : Bytes) → All IsDigit s → read_digits n s ≡ (value n s, [])
unfolding read_digits
read_digits-All n [] h = refl
read_digits-All n (c ∷ s) (hc, hs) = ground (arith, read_digits-All (n * 10 + (c - b'0')) s hs)

pub read_digits_whole :
    (n : ℕ) (s : Bytes)
    → (read_digits n s).1 ≡ []
    → All IsDigit s × ((read_digits n s).0 ≡ value n s)
unfolding read_digits
read_digits_whole n [] h = (tt, refl)
read_digits_whole n (c ∷ s) h = ground (arith, read_digits_whole (n * 10 + (c - b'0')) s)

-- `parseNumber` of an unsigned type accepts exactly the non-empty digit strings whose value fits,
-- and returns that value.
pub parse_number_iff :
    (largest n : ℕ) (s : Bytes)
    → (parse_number largest s ≡ some n)
      ↔ ((s ≢ []) × All IsDigit s × (n ≡ value 0 s) × (n ≤ largest))
unfolding parse_number
parse_number_iff largest n [] = (λ h. cc, λ h. absurd (h.0 refl))
parse_number_iff largest n (c ∷ s) = (
  λ h. (
    cons-ne-nil c s,
    ground (arith, read_digits_whole 0 (c ∷ s)),
    ground (arith, read_digits_whole 0 (c ∷ s)),
    ground (arith, read_digits_whole 0 (c ∷ s)),
  ),
  λ h. ground (arith, read_digits-All 0 (c ∷ s) h.1),
)

value-append : (n : ℕ) (s t : Bytes) → value n (s ++ t) ≡ value (value n s) t
value-append n [] t = refl
value-append n (c ∷ s) t = value-append (n * 10 + (c - b'0')) s t

decimal-All : (fuel n : ℕ) → All IsDigit (decimal fuel n)
unfolding decimal
decimal-All zero n = tt
decimal-All (suc fuel) n = ground (
  arith,
  All-append IsDigit (decimal fuel (n / 10)) ((b'0' + n % 10) ∷ []) (decimal-All fuel (n / 10)),
)

value-decimal : (fuel n : ℕ) → n < fuel → value 0 (decimal fuel n) ≡ n
unfolding decimal
value-decimal zero n h = absurd (omega arith)
value-decimal (suc fuel) n h = ground (
  arith,
  value-append 0 (decimal fuel (n / 10)) ((b'0' + n % 10) ∷ []),
  value-decimal fuel (n / 10),
)

pub to_string-All : (n : ℕ) → All IsDigit (to_string n)
unfolding to_string
to_string-All n = decimal-All (suc n) n

pub value-to_string : (n : ℕ) → value 0 (to_string n) ≡ n
unfolding to_string
value-to_string n = value-decimal (suc n) n (omega arith)

pub to_string-ne-nil : (n : ℕ) → to_string n ≢ []
unfolding to_string decimal
to_string-ne-nil n h =
    ground (arith, concat-ne-nil (b'0' + n % 10) (decimal n (n / 10)), cons-ne-nil (b'0' + n) [])

-- Every number in range is read back from its decimal print.
pub parse_number-to_string :
    (largest n : ℕ) → n ≤ largest → parse_number largest (to_string n) ≡ some n
parse_number-to_string largest n h =
    (parse_number_iff largest n (to_string n)).1
      (to_string-ne-nil n, to_string-All n, sym (value-to_string n), h)

digits-Lacks : (b : ℕ) (s : Bytes) → b'9' < b → All IsDigit s → Lacks b s
digits-Lacks b [] h _ = tt
digits-Lacks b (c ∷ s) h (hc, hs) = (λ e. absurd (omega arith), digits-Lacks b s h hs)

pub to_string-Lacks : (b n : ℕ) → b'9' < b → Lacks b (to_string n)
to_string-Lacks b n h = digits-Lacks b (to_string n) h (to_string-All n)
