-- ===== src/Collector/LineReader/Stream.antt =====
-- What the reader makes of a whole stream, however it arrives in chunks.
use loggerlib.Collector.LineReader.{new_reader, feed, some, Option, LineReader, Feeding}
use loggerlib.Collector.LineReader.Bytewise.{
  take_bytes-append, take_bytes-IsValid, feed-take_bytes, IsValid, take_byte, take_bytes,
}
use loggerlib.Prelude.{
  refl, ap, flatten, none, ℕ, ◌≤◌, ◌<◌, ◌≡◌, sym, ◌∙◌, ◌≢◌, ◌⊎◌, inl, inr, true, false, List, [],
  ◌∷◌, ◌++◌, append_assoc, append-nil, arith, Bytes, length, length-append, ltb, ◌==◌,
  if◌then◌else◌, ==_iff, Bool-cases,
}

-- The lines of a stream, behind the part `current` of the first; text after the last newline is no
-- line yet.
abbrev pub lines_from : Bytes → Bytes → List Bytes
lines_from current [] = []
lines_from current (c ∷ stream) = elim (c == b'\n') [
  | true ↦ current ∷ lines_from [] stream
  | false ↦ lines_from (current ++ c ∷ []) stream
]

abbrev pub within : ℕ → List Bytes → List Bytes
within limit [] = []
within limit (line ∷ lines) =
    if ltb limit (length line) then within limit lines else line ∷ within limit lines

-- What the reader knows of the line that is being read.
abbrev Holds : LineReader → Bytes → Type 0
Holds r current =
    ((r.skipping ≡ false) × (r.pending ≡ current) × (length current ≤ r.limit))
    ⊎ ((r.skipping ≡ true) × (r.pending ≡ []) × (r.limit < length current))

newline-Holds :
    (f : Feeding) (current : Bytes)
    → Holds f.reader current
    → Holds (take_byte f b'\n').reader []
      × ((take_byte f b'\n').lines ≡ f.lines ++ within f.reader.limit (current ∷ []))
      × ((take_byte f b'\n').reader.limit ≡ f.reader.limit)
unfolding take_byte
newline-Holds f current (inl (on, same, fits)) =
    (inl (ground arith, ground arith, ground arith), ground arith, ground arith)
newline-Holds f current (inr (skip, same, long)) = (
  inl (ground arith, ground arith, ground arith),
  ground (arith, append-nil f.lines),
  ground arith,
)

byte-Holds :
    (f : Feeding) (c : ℕ) (current : Bytes)
    → c ≢ b'\n'
    → Holds f.reader current
    → Holds (take_byte f c).reader (current ++ c ∷ [])
      × ((take_byte f c).lines ≡ f.lines)
      × ((take_byte f c).reader.limit ≡ f.reader.limit)
unfolding take_byte
byte-Holds f c current ne h =
    ground (arith, length-append current (c ∷ []), length-append f.reader.pending (c ∷ []))

within_cons :
    (limit : ℕ) (line : Bytes) (lines : List Bytes)
    → within limit (line ∷ []) ++ within limit lines ≡ within limit (line ∷ lines)
within_cons limit line lines = ground arith

take_bytes-lines :
    (s : Bytes) (f : Feeding) (current : Bytes)
    → Holds f.reader current
    → (take_bytes f s).lines ≡ f.lines ++ within f.reader.limit (lines_from current s)
unfolding take_bytes
take_bytes-lines [] f current h = sym (append-nil f.lines)
take_bytes-lines (c ∷ s) f current h = elim (Bool-cases (c == b'\n')) [
  | inl newline ↦
      let c_eq = (==_iff c b'\n').0 newline in
      let (h', pushed, same) = newline-Holds f current h in
      rw c_eq (
        simp
          (take_bytes-lines s (take_byte f b'\n') [] h', pushed, same, append_assoc, within_cons))
  | inr other ↦
      let (h', pushed, same) = byte-Holds f c current (ground arith) h in
      rw (other, lines_from)
        (take_bytes-lines s (take_byte f c) (current ++ c ∷ []) h' ∙ rw (pushed, same))
]

-- The calls of `feed` that one connection makes, each appending to the lines before it.
unfoldable pub feed_all : LineReader → List Bytes → List Bytes → Option (LineReader × List Bytes)
feed_all r [] lines = some (r, lines)
feed_all r (chunk ∷ chunks) lines = elim (feed r chunk lines) [
  | none ↦ none
  | some f ↦ feed_all f.reader chunks f.lines
]

abbrev seen : Feeding → LineReader × List Bytes
seen f = (f.reader, f.lines)

-- `complete` is only written.
take_byte-seen :
    (f g : Feeding) (c : ℕ) → seen f ≡ seen g → seen (take_byte f c) ≡ seen (take_byte g c)
unfolding take_byte
take_byte-seen f g c h = ground arith

take_bytes-seen :
    (s : Bytes) (f g : Feeding) → seen f ≡ seen g → seen (take_bytes f s) ≡ seen (take_bytes g s)
unfolding take_bytes
take_bytes-seen [] f g h = h
take_bytes-seen (c ∷ s) f g h =
    take_bytes-seen s (take_byte f c) (take_byte g c) (take_byte-seen f g c h)

feed_all-take_bytes :
    (chunks : List Bytes) (r : LineReader) (lines : List Bytes)
    → IsValid r
    → feed_all r chunks lines
      ≡ some (
          seen
            (take_bytes (record { reader = r; lines = lines; complete = true }) (flatten chunks)))
unfolding feed_all take_bytes
feed_all-take_bytes [] r lines v = refl
feed_all-take_bytes (chunk ∷ chunks) r lines v =
    let start : Feeding = record { reader = r; lines = lines; complete = true } in
    let f = take_bytes start chunk in
    rw (feed_all, feed-take_bytes r chunk lines v)
      (feed_all-take_bytes chunks f.reader f.lines (take_bytes-IsValid start chunk v)
        ∙ ap some (
            take_bytes-seen (flatten chunks) (record f { complete = true }) f refl
            ∙ ap seen (sym (take_bytes-append start chunk (flatten chunks)))))

-- A fresh reader gives the lines of the stream that end in a newline and fit the limit, in their
-- order, however the stream is cut into chunks.
pub feed_all-lines :
    (limit : ℕ) (chunks : List Bytes)
    → (r : LineReader) × (feed_all (new_reader limit) chunks []
        ≡ some (r, within limit (lines_from [] (flatten chunks))))
feed_all-lines limit chunks =
    let start : Feeding = record { reader = new_reader limit; lines = []; complete = true } in
    let last = take_bytes start (flatten chunks) in
    (
      last.reader,
      feed_all-take_bytes chunks (new_reader limit) []
            (record { fits = omega arith; empty = λ h. refl })
          ∙ ap (λ (lines : List Bytes). some (last.reader, lines))
              (take_bytes-lines (flatten chunks) start [] (inl (refl, refl, omega arith))),
    )
