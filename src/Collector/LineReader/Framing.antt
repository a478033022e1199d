-- ===== src/Collector/LineReader/Framing.antt =====
-- Lines that are sent over a stream arrive as they were sent, collector/core/LineReader.cpp.
use loggerlib.Collector.LineReader.{new_reader, LineReader}
use loggerlib.Collector.LineReader.Stream.{feed_all-lines, feed_all, lines_from, within}
use loggerlib.Prelude.{
  joined, ℕ, ◌≤◌, ◌≡◌, refl, sym, ap, ◌∙◌, some, List, [], ◌∷◌, ◌++◌, append_assoc, append-nil,
  Bytes, Lacks, All, length, flatten, le→ltb, ==_ne,
}

lines_from-line :
    (current line rest : Bytes)
    → Lacks b'\n' line
    → lines_from current (line ++ (b'\n' ∷ rest)) ≡ (current ++ line) ∷ lines_from [] rest
lines_from-line current [] rest h = ap (λ l. l ∷ lines_from [] rest) (sym (append-nil current))
lines_from-line current (c ∷ line) rest h =
    rw (lines_from, ==_ne c b'\n' h.0)
      (lines_from-line (current ++ (c ∷ [])) line rest h.1
        ∙ ap (λ l. l ∷ lines_from [] rest) (append_assoc current (c ∷ []) line))

lines_from-joined :
    (lines : List Bytes) → All (Lacks b'\n') lines → lines_from [] (joined lines) ≡ lines
unfolding joined
lines_from-joined [] h = refl
lines_from-joined (line ∷ lines) (h, hs) =
    lines_from-line [] line (joined lines) h ∙ ap (◌∷◌ line) (lines_from-joined lines hs)

within-All :
    (limit : ℕ) (lines : List Bytes)
    → All (λ line. length line ≤ limit) lines
    → within limit lines ≡ lines
within-All limit [] h = refl
within-All limit (line ∷ lines) (h, hs) =
    rw (le→ltb limit (length line) h) (ap (◌∷◌ line) (within-All limit lines hs))

-- Lines with no newline inside that fit the limit, sent with a newline behind each, are the lines
-- that a fresh reader gives, in order and no others, however the stream is cut into chunks.
pub feed_all-joined :
    (limit : ℕ) (chunks lines : List Bytes)
    → All (Lacks b'\n') lines
    → All (λ line. length line ≤ limit) lines
    → flatten chunks ≡ joined lines
    → (r : LineReader) × (feed_all (new_reader limit) chunks [] ≡ some (r, lines))
feed_all-joined limit chunks lines whole small sent =
    let (r, read) = feed_all-lines limit chunks in
    (
      r,
      read
          ∙ ap (λ stream. some (r, within limit (lines_from [] stream))) sent
          ∙ ap (λ (ls : List Bytes). some (r, within limit ls)) (lines_from-joined lines whole)
          ∙ ap (λ (ls : List Bytes). some (r, ls)) (within-All limit lines small),
    )
