-- ===== src/Logger/LogRecord/Escape.antt =====
-- The message part of a line, logger/src/LogRecord.cpp: `escapeMessage` and `unescapeMessage`.
use loggerlib.Prelude.{
  ℕ, zero, suc, ◌+◌, ◌-◌, ◌*◌, ◌/◌, ◌%◌, not, ◌&&◌, ◌||◌, [], ◌∷◌, ◌++◌, Option, none, some, Bytes,
  codes, get_elem?, ltb, leb, ◌==◌, if◌then◌else◌,
}

-- `'\0'` is 0 and stands for "no short form".
unfoldable pub short_escape : ℕ → ℕ
short_escape c =
    if c == b'\\'
    then b'\\'
    else if c == b'\n'
    then b'n'
    else if c == b'\r'
    then b'r'
    else if c == b'\t'
    then b't'
    else 0

unfoldable pub short_unescape : ℕ → ℕ
short_unescape c =
    if c == b'\\'
    then b'\\'
    else if c == b'n'
    then b'\n'
    else if c == b'r'
    then b'\r'
    else if c == b't'
    then b'\t'
    else 0

-- The result -1 is `none`.
unfoldable pub hex_value : ℕ → Option ℕ
hex_value c =
    if leb b'0' c && leb c b'9'
    then some (c - b'0')
    else if leb b'A' c && leb c b'F'
    then some (c - b'A' + 10)
    else if leb b'a' c && leb c b'f'
    then some (c - b'a' + 10)
    else none

abbrev or_zero : Option ℕ → ℕ
or_zero none = 0
or_zero (some c) = c

-- `kHexDigits[n]`; the code reads it below 16 only
unfoldable pub hex_digit : ℕ → ℕ
hex_digit n = or_zero (get_elem? (codes "0123456789ABCDEF") n)

-- What one round of the loop appends.
unfoldable pub escape_byte : ℕ → Bytes
escape_byte c =
    if not (short_escape c == 0)
    then b'\\' ∷ short_escape c ∷ []
    else if ltb c 0x20 || c == 0x7F
    then b'\\' ∷ b'x' ∷ hex_digit (c / 16) ∷ hex_digit (c % 16) ∷ []
    else c ∷ []

unfoldable pub escape_message : Bytes → Bytes
escape_message [] = []
escape_message (c ∷ message) = escape_byte c ++ escape_message message

-- `\xNN`, on the bytes behind the `x`; both digits have to be there and to be hexadecimal. The
-- digits are below 16, so `(high << 4) | low` is a sum.
unfoldable pub read_hex : Bytes → Option ℕ
read_hex (h ∷ l ∷ rest) = elim (hex_value h) [
  | none ↦ none
  | some high ↦ elim (hex_value l) [ none ↦ none | some low ↦ some (high * 16 + low) ]
]
read_hex _ = none

-- One round of the loop at `message[i] = c`, with the bytes behind it: the byte appended, and how
-- much more than one the index grows.
unfoldable pub unescape_step : ℕ → Bytes → ℕ × ℕ
unfolding short_unescape
unescape_step c [] = (c, 0)
unescape_step c (d ∷ rest) =
    if not (c == b'\\')
    then (c, 0)
    else if not (short_unescape d == 0)
    then (short_unescape d, 1)
    else if d == b'x'
    then elim (read_hex rest) [ none ↦ (c, 0) | some byte ↦ (byte, 3) ]
    else (c, 0)

-- The loop; the first argument counts the bytes that `i += k` still steps over.
unfoldable pub unescape_loop : ℕ → Bytes → Bytes
unescape_loop skip [] = []
unescape_loop zero (c ∷ message) =
    let (byte, skip) = unescape_step c message in byte ∷ unescape_loop skip message
unescape_loop (suc skip) (c ∷ message) = unescape_loop skip message

unfoldable pub unescape_message : Bytes → Bytes
unfolding unescape_loop
unescape_message message = unescape_loop 0 message
