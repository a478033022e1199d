-- ===== src/Logger/LogRecord/Time/Padded.antt =====
-- A number printed with `%0Nd` has its width and is read back.
use loggerlib.Common.Text.Numbers.{
  read_digits-All, IsDigit, value, decimal, to_string, to_string-All, value-to_string,
  to_string-ne-nil,
}
use loggerlib.Common.Text.{parse_signed, parse_number}
use loggerlib.Logger.LogRecord.Time.{padded, parse_int}
use loggerlib.Prelude.Int.{pos}
use loggerlib.Prelude.{
  length-replicate, ℕ, zero, suc, ◌+◌, ◌-◌, ◌/◌, ◌%◌, ◌^◌, ◌≤◌, ◌<◌, ◌≡◌, refl, ◌∙◌, ◌≢◌, some, [],
  ◌∷◌, ◌++◌, arith, Bytes, All, All-append, length, replicate, length-append,
}

decimal-length : (fuel n width : ℕ) → n < 10 ^ width → 0 < width → length (decimal fuel n) ≤ width
unfolding decimal
decimal-length zero n width h p = omega arith
decimal-length (suc fuel) n zero h p = absurd (omega arith)
decimal-length (suc fuel) n (suc zero) h p = ground (arith)
decimal-length (suc fuel) n (suc (suc width)) h p = ground (
  arith,
  decimal-length fuel (n / 10) (suc width),
  length-append (decimal fuel (n / 10)) ((b'0' + n % 10) ∷ []),
)

length-to_string : (n width : ℕ) → n < 10 ^ width → 0 < width → length (to_string n) ≤ width
unfolding to_string
length-to_string n width h p = decimal-length (suc n) n width h p

append-eq-nil : (s t : Bytes) → s ++ t ≡ [] → t ≡ []
append-eq-nil [] t e = e
append-eq-nil (x ∷ s) t e = cc

zeros-All : (k : ℕ) → All IsDigit (replicate k b'0')
zeros-All zero = tt
zeros-All (suc k) = ((omega arith, omega arith), zeros-All k)

value-zeros : (k : ℕ) (s : Bytes) → value 0 (replicate k b'0' ++ s) ≡ value 0 s
value-zeros zero s = refl
value-zeros (suc k) s = value-zeros k s

parse_signed-digits :
    (largest n : ℕ) (s : Bytes)
    → s ≢ []
    → All IsDigit s
    → value 0 s ≡ n
    → n ≤ largest
    → parse_signed largest s ≡ some (pos n)
unfolding parse_signed parse_number
parse_signed-digits largest n [] ne h v fits = absurd (ne refl)
parse_signed-digits largest n (c ∷ s) ne h v fits = ground (arith, read_digits-All 0 (c ∷ s) h)

-- A field of a stamp: so many digits, read as this number.
pub record Field (width n : ℕ) (s : Bytes) : Type 0 where
  pub size : length s ≡ width
  pub digits : All IsDigit s
  pub reads : parse_int s ≡ some (pos n)

pub padded-Field :
    (width n : ℕ) → 0 < width → n < 2 ^ 31 → n < 10 ^ width → Field width n (padded width (pos n))
unfolding padded parse_int
padded-Field width n p small h =
    let zeros = width - length (to_string n) in
    let all =
      All-append IsDigit (replicate zeros b'0') (to_string n) (zeros-All zeros) (to_string-All n) in
    record {
      size = omega (
        arith,
        length-append (replicate zeros b'0') (to_string n),
        length-replicate {A = ℕ} zeros b'0',
        length-to_string n width h p,
      );
      digits = all;
      reads =
          parse_signed-digits (2 ^ 31 - 1) n (replicate zeros b'0' ++ to_string n)
            (λ e. to_string-ne-nil n (append-eq-nil (replicate zeros b'0') (to_string n) e)) all
            (value-zeros zeros (to_string n) ∙ value-to_string n) (omega arith);
    }
