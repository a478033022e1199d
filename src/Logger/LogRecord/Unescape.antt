-- ===== src/Logger/LogRecord/Unescape.antt =====
-- `unescapeMessage` undoes `escapeMessage`, and an escaped message fits on one line.
use loggerlib.Logger.LogRecord.Escape.{
  short_escape, short_unescape, hex_value, hex_digit, escape_byte, escape_message, read_hex,
  unescape_step, unescape_loop, unescape_message,
}
use loggerlib.Prelude.{
  ℕ, ◌/◌, ◌%◌, ◌≤◌, ◌<◌, [], ◌∷◌, ◌++◌, some, ◌≡◌, ◌≢◌, refl, ap, ◌∙◌, arith, Option, none, Bool,
  not, ◌&&◌, sym, ◌||◌, inl, inr, Bool-cases, true, false, every_below, every_below_at, ==_iff,
  Bytes, All, All-append, Lacks, ltb, leb, ◌==◌,
}

abbrev reads_as : ℕ → Option ℕ → Bool
reads_as n none = false
reads_as n (some m) = m == n

reads_as_eq : (n : ℕ) (o : Option ℕ) → reads_as n o ≡ true → o ≡ some n
reads_as_eq n none h = cc
reads_as_eq n (some m) h = ap some ((==_iff m n).0 h)

hex_table : every_below 16 (λ n. reads_as n (hex_value (hex_digit n))) ≡ true
unfolding every_below hex_value hex_digit
hex_table = refl

hex_value-hex_digit : (n : ℕ) → n < 16 → hex_value (hex_digit n) ≡ some n
hex_value-hex_digit n h =
    reads_as_eq n (hex_value (hex_digit n))
      (every_below_at 16 (λ n. reads_as n (hex_value (hex_digit n))) n hex_table h)

unescape_step_plain : (c : ℕ) (rest : Bytes) → c ≢ b'\\' → unescape_step c rest ≡ (c, 0)
unfolding unescape_step
unescape_step_plain c [] h = refl
unescape_step_plain c (d ∷ rest) h = ground arith

unescape_step_short :
    (d : ℕ) (rest : Bytes) (c : ℕ)
    → short_unescape d ≡ c
    → c ≢ 0
    → unescape_step b'\\' (d ∷ rest) ≡ (c, 1)
unfolding unescape_step
unescape_step_short d rest c h pos = ground arith

read_hex-hex_digit :
    (c : ℕ) (rest : Bytes)
    → c < 256
    → read_hex (hex_digit (c / 16) ∷ hex_digit (c % 16) ∷ rest) ≡ some c
unfolding read_hex
read_hex-hex_digit c rest h =
    rw
      (
        read_hex,
        hex_value-hex_digit (c / 16) (omega arith),
        hex_value-hex_digit (c % 16) (omega arith),
      )
      (ap some (omega arith))

unescape_step_hex :
    (c : ℕ) (rest : Bytes)
    → c < 128
    → unescape_step b'\\' (b'x' ∷ hex_digit (c / 16) ∷ hex_digit (c % 16) ∷ rest) ≡ (c, 3)
unfolding unescape_step
unescape_step_hex c rest h = ground (arith, read_hex-hex_digit c rest)

-- The three forms of an escaped byte.
data Form (c : ℕ) : Type 0 where
  short : (d : ℕ) → escape_byte c ≡ b'\\' ∷ d ∷ [] → short_unescape d ≡ c → c ≢ 0 → Form c
  hex :
      c < 128 → escape_byte c ≡ b'\\' ∷ b'x' ∷ hex_digit (c / 16) ∷ hex_digit (c % 16) ∷ [] → Form c
  plain : c ≢ b'\\' → 0x20 ≤ c → c ≢ 0x7F → escape_byte c ≡ c ∷ [] → Form c

escape_byte-Form : (c : ℕ) → Form c
unfolding escape_byte short_escape short_unescape
escape_byte-Form c = elim (Bool-cases (short_escape c == 0)) [
  | inr has ↦ short (short_escape c) (ground arith) (ground arith) (ground arith)
  | inl hasnt ↦ elim (Bool-cases (ltb c 0x20 || c == 0x7F)) [
    | inl control ↦ hex (ground arith) (ground arith)
    | inr printable ↦ plain (ground arith) (ground arith) (ground arith) (ground arith)
  ]
]

loop-escape_byte :
    (c : ℕ) (rest : Bytes)
    → Form c
    → unescape_loop 0 (escape_byte c ++ rest) ≡ c ∷ unescape_loop 0 rest
unfolding unescape_loop
loop-escape_byte c rest (short d e back pos) =
    rw e (ground (arith, unescape_step_short d rest c back pos))
loop-escape_byte c rest (hex small e) = rw e (ground (arith, unescape_step_hex c rest small))
loop-escape_byte c rest (plain ne lo del e) = rw e (ground (arith, unescape_step_plain c rest ne))

-- Every text is read back from its escaped form.
pub unescape-escape : (message : Bytes) → unescape_message (escape_message message) ≡ message
unfolding unescape_message escape_message
unescape-escape [] = refl
unescape-escape (c ∷ message) =
    loop-escape_byte c _ (escape_byte-Form c) ∙ ap (◌∷◌ c) (unescape-escape message)

-- A byte that is written to the log as it is: neither a control byte nor `DEL`.
abbrev pub IsPrintable : ℕ → Type 0
IsPrintable c = (0x20 ≤ c) × (c ≢ 0x7F)

digit_table : every_below 16 (λ n. leb 0x20 (hex_digit n) && not (hex_digit n == 0x7F)) ≡ true
unfolding every_below hex_digit
digit_table = refl

hex_digit-IsPrintable : (n : ℕ) → n < 16 → IsPrintable (hex_digit n)
hex_digit-IsPrintable n h =
    let test = λ (n : ℕ). leb 0x20 (hex_digit n) && not (hex_digit n == 0x7F) in
    let passed = every_below_at 16 test n digit_table h in (ground arith, ground arith)

short_unescape-IsPrintable : (d : ℕ) → short_unescape d ≢ 0 → IsPrintable d
unfolding short_unescape
short_unescape-IsPrintable d h = (ground arith, ground arith)

Form-IsPrintable : (c : ℕ) → Form c → All IsPrintable (escape_byte c)
Form-IsPrintable c (short d e back pos) =
    rw e (omega arith, (short_unescape-IsPrintable d (λ z. pos (sym back ∙ z)), tt))
Form-IsPrintable c (hex small e) = rw e (
  omega arith,
  (
    omega arith,
    (
      hex_digit-IsPrintable (c / 16) (omega arith),
      (hex_digit-IsPrintable (c % 16) (omega arith), tt),
    ),
  ),
)
Form-IsPrintable c (plain ne lo del e) = rw e ((lo, del), tt)

-- An escaped message holds no control byte, whatever the message holds: it stays on its line.
pub escape_message-IsPrintable : (message : Bytes) → All IsPrintable (escape_message message)
unfolding escape_message
escape_message-IsPrintable [] = tt
escape_message-IsPrintable (c ∷ message) =
    All-append IsPrintable (escape_byte c) (escape_message message)
      (Form-IsPrintable c (escape_byte-Form c)) (escape_message-IsPrintable message)

-- Text with no backslash is read as it stands.
pub unescape_plain : (message : Bytes) → Lacks b'\\' message → unescape_message message ≡ message
unfolding unescape_message
unescape_plain [] h = refl
unescape_plain (c ∷ message) (hc, hs) =
    ground (arith, unescape_step_plain c message hc, unescape_plain message hs)
