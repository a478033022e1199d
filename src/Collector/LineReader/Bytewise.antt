-- ===== src/Collector/LineReader/Bytewise.antt =====
-- `feed` against a machine that takes one byte at a time.
use native.Mathlib.Decide.{dec_lt}
use loggerlib.Collector.LineReader.{List, suc, feed, feed_loop, LineReader, Feeding, feed_round}
use loggerlib.Prelude.{
  zero, sym, ℕ, ◌+◌, ◌≤◌, ◌<◌, ◌≡◌, refl, ap, ◌∙◌, ◌≢◌, Bool, true, false, Option, none, some, [],
  ◌∷◌, ◌++◌, append_assoc, append-nil, arith, Bytes, Lacks, length, length-append, take-length,
  drop_past, find, absent, at, find-Cut, ltb, ◌==◌, if◌then◌else◌,
}

-- What one byte does: a newline ends the line, or the skipping; any other byte is kept while the
-- line fits the limit, and the byte that does not fit drops the line.
unfoldable pub take_byte : Feeding → ℕ → Feeding
take_byte f c =
    let r = f.reader in
    if c == b'\n'
    then (if r.skipping
        then record f { reader = record r { skipping = false } }
        else record f { reader = record r { pending = [] }; lines = f.lines ++ r.pending ∷ [] })
    else if r.skipping
    then f
    else if ltb r.limit (length r.pending + 1)
    then record {
      reader = record r { pending = []; skipping = true };
      lines = f.lines;
      complete = false;
    }
    else record f { reader = record r { pending = r.pending ++ c ∷ [] } }

unfoldable pub take_bytes : Feeding → Bytes → Feeding
take_bytes f [] = f
take_bytes f (c ∷ chunk) = take_bytes (take_byte f c) chunk

pub take_bytes-append :
    (f : Feeding) (s t : Bytes) → take_bytes f (s ++ t) ≡ take_bytes (take_bytes f s) t
unfolding take_bytes
take_bytes-append f [] t = refl
take_bytes-append f (c ∷ s) t = take_bytes-append (take_byte f c) s t

-- The line so far fits the limit, and nothing is kept of a line that is skipped.
pub record IsValid (r : LineReader) : Type 0 where
  pub fits : length r.pending ≤ r.limit
  pub empty : r.skipping ≡ true → r.pending ≡ []

pub take_byte-IsValid : (f : Feeding) (c : ℕ) → IsValid f.reader → IsValid (take_byte f c).reader
unfolding take_byte
take_byte-IsValid f c v = record {
  fits = ground (arith, length-append f.reader.pending (c ∷ []));
  empty = ground arith;
}

pub take_bytes-IsValid :
    (f : Feeding) (s : Bytes) → IsValid f.reader → IsValid (take_bytes f s).reader
unfolding take_bytes
take_bytes-IsValid f [] v = v
take_bytes-IsValid f (c ∷ s) v = take_bytes-IsValid (take_byte f c) s (take_byte-IsValid f c v)

-- A piece with no newline, while the reader skips and while it does not.
skipped : (f : Feeding) (s : Bytes) → Lacks b'\n' s → f.reader.skipping ≡ true → take_bytes f s ≡ f
unfolding take_bytes take_byte
skipped f [] h skip = refl
skipped f (c ∷ s) (hc, hs) skip = ground (arith, skipped f s hs skip)

abbrev keep : Feeding → Bytes → Feeding
keep f s = record f { reader = record f.reader { pending = f.reader.pending ++ s } }

abbrev drop_line : Feeding → Bool → Feeding
drop_line f skip = record {
  reader = record f.reader { pending = []; skipping = skip };
  lines = f.lines;
  complete = false;
}

byte_kept :
    (f : Feeding) (c : ℕ)
    → c ≢ b'\n'
    → f.reader.skipping ≡ false
    → length f.reader.pending + 1 ≤ f.reader.limit
    → take_byte f c ≡ keep f (c ∷ [])
unfolding take_byte
byte_kept f c hc on room = ground arith

byte_dropped :
    (f : Feeding) (c : ℕ)
    → c ≢ b'\n'
    → f.reader.skipping ≡ false
    → f.reader.limit < length f.reader.pending + 1
    → take_byte f c ≡ drop_line f true
unfolding take_byte
byte_dropped f c hc on over = ground arith

kept :
    (f : Feeding) (s : Bytes)
    → Lacks b'\n' s
    → f.reader.skipping ≡ false
    → length f.reader.pending + length s ≤ f.reader.limit
    → take_bytes f s ≡ keep f s
unfolding take_bytes
kept f [] h on room = rw append-nil
kept f (c ∷ s) (hc, hs) on room =
    ap (λ g. take_bytes g s) (byte_kept f c hc on (omega arith))
    ∙ kept (keep f (c ∷ [])) s hs on (omega (arith, length-append f.reader.pending (c ∷ [])))
    ∙ rw append_assoc

dropped :
    (f : Feeding) (s : Bytes)
    → Lacks b'\n' s
    → f.reader.skipping ≡ false
    → length f.reader.pending ≤ f.reader.limit
    → f.reader.limit < length f.reader.pending + length s
    → take_bytes f s ≡ drop_line f true
unfolding take_bytes
dropped f [] h on fits over = absurd (omega arith)
dropped f (c ∷ s) (hc, hs) on fits over =
    elim (dec_lt f.reader.limit (length f.reader.pending + 1)) [
      | yes now ↦
          ap (λ g. take_bytes g s) (byte_dropped f c hc on now)
          ∙ skipped (drop_line f true) s hs refl
      | no later ↦
          let longer = length-append f.reader.pending (c ∷ []) in
          ap (λ g. take_bytes g s) (byte_kept f c hc on (omega arith))
          ∙ dropped (keep f (c ∷ [])) s hs on (omega arith) (omega arith)
    ]

-- A round of `feed` takes the bytes that it takes off the chunk; where it leaves the loop, it has
-- taken the whole chunk.
abbrev Took : Feeding → Bytes → Feeding × Option Bytes → Type 0
Took f chunk (f', none) = take_bytes f chunk ≡ f'
Took f chunk (f', some rest) =
    (take_bytes f chunk ≡ take_bytes f' rest) × (length rest < length chunk)

newline_taken :
    (f : Feeding) (front back : Bytes)
    → take_bytes f (front ++ b'\n' ∷ back) ≡ take_bytes (take_byte (take_bytes f front) b'\n') back
newline_taken f front back = take_bytes-append f front (b'\n' ∷ back) ∙ unfold take_bytes in refl

absent-Took :
    (f : Feeding) (chunk : Bytes)
    → find b'\n' chunk ≡ none
    → Lacks b'\n' chunk
    → IsValid f.reader
    → Took f chunk (feed_round f chunk)
unfolding feed_round
absent-Took f chunk nowhere lacks v =
    rw (nowhere, feed_round)
      (ground (arith, skipped f chunk lacks, dropped f chunk lacks, kept f chunk lacks))

at-Took :
    (f : Feeding) (front back : Bytes)
    → find b'\n' (front ++ b'\n' ∷ back) ≡ some (length front)
    → Lacks b'\n' front
    → IsValid f.reader
    → Took f (front ++ b'\n' ∷ back) (feed_round f (front ++ b'\n' ∷ back))
unfolding feed_round take_byte
at-Took f front back place lacks v =
    rw (place, feed_round, take-length, drop_past 1 front (b'\n' ∷ back))
      (ground (
        arith,
        newline_taken f front back,
        skipped f front lacks,
        dropped f front lacks,
        kept f front lacks,
        length-append front (b'\n' ∷ back),
      ))

round-Took : (f : Feeding) (chunk : Bytes) → IsValid f.reader → Took f chunk (feed_round f chunk)
round-Took f chunk v = elim (find-Cut b'\n' chunk) [
  | absent lacks nowhere ↦ absent-Took f chunk nowhere lacks v
  | at front back splits lacks place ↦ rw splits (at-Took f front back (rw splits at place) lacks v)
]

round-IsValid :
    (f : Feeding) (chunk : Bytes) → IsValid f.reader → IsValid (feed_round f chunk).0.reader
unfolding feed_round
round-IsValid f chunk v = record {
  fits = ground (arith, length-append f.reader.pending chunk);
  empty = ground arith;
}

loop_next :
    (fuel : ℕ) (f : Feeding) (chunk : Bytes) (r : Feeding × Option Bytes)
    → Took f chunk r
    → length chunk ≤ fuel
    → IsValid r.0.reader
    → ((g : Feeding) (s : Bytes)
        → length s < fuel
        → IsValid g.reader
        → feed_loop fuel g s ≡ some (take_bytes g s))
    → elim r.1 [ none ↦ some r.0 | some rest ↦ feed_loop fuel r.0 rest ] ≡ some (take_bytes f chunk)
loop_next fuel f chunk (g, none) took short v ih = ap some (sym took)
loop_next fuel f chunk (g, some rest) took short v ih =
    ih g rest (omega arith) v ∙ ap some (sym took.0)

loop-take_bytes :
    (fuel : ℕ) (f : Feeding) (chunk : Bytes)
    → length chunk < fuel
    → IsValid f.reader
    → feed_loop fuel f chunk ≡ some (take_bytes f chunk)
unfolding feed_loop
loop-take_bytes zero f chunk short v = absurd (omega arith)
loop-take_bytes (suc fuel) f [] short v = unfold take_bytes in refl
loop-take_bytes (suc fuel) f (c ∷ chunk) short v =
    loop_next fuel f (c ∷ chunk) (feed_round f (c ∷ chunk)) (round-Took f (c ∷ chunk) v)
      (omega arith) (round-IsValid f (c ∷ chunk) v) (loop-take_bytes fuel)

-- `feed` ends with the rounds that it is given, and does to a chunk what the machine does to its
-- bytes one after the other.
pub feed-take_bytes :
    (r : LineReader) (chunk : Bytes) (lines : List Bytes)
    → IsValid r
    → feed r chunk lines
      ≡ some (take_bytes (record { reader = r; lines = lines; complete = true }) chunk)
unfolding feed
feed-take_bytes r chunk lines v =
    loop-take_bytes (suc (length chunk)) (record { reader = r; lines = lines; complete = true })
      chunk (omega arith) v
