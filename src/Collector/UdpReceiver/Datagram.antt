-- ===== src/Collector/UdpReceiver/Datagram.antt =====
-- The lines of a datagram are those that the sender joined, collector/core/net/UdpReceiver.cpp.
use loggerlib.Collector.UdpReceiver.{split_datagram, split_loop}
use loggerlib.Prelude.{
  joined, ℕ, zero, suc, ◌+◌, ◌<◌, ◌≡◌, refl, sym, ap, ◌∙◌, ◌≢◌, none, some, List, [], ◌∷◌, ◌++◌,
  append_assoc, append-nil, arith, Bytes, Lacks, All, length, drop, length-append, take-length,
  drop_at, find, ==_ne,
}

find_end :
    (line rest : Bytes)
    → Lacks b'\n' line
    → find b'\n' (line ++ (b'\n' ∷ rest)) ≡ some (length line)
unfolding find
find_end [] rest h = refl
find_end (c ∷ line) rest h = rw (==_ne c b'\n' h.0, find_end line rest h.1)

find_nowhere : (line : Bytes) → Lacks b'\n' line → find b'\n' line ≡ none
unfolding find
find_nowhere [] h = refl
find_nowhere (c ∷ line) h = rw (==_ne c b'\n' h.0, find_nowhere line h.1)

drop_line : (line rest : Bytes) → drop (length line + 1) (line ++ (b'\n' ∷ rest)) ≡ rest
drop_line line rest =
    ap (drop (length line + 1)) (sym (append_assoc line (b'\n' ∷ []) rest))
    ∙ drop_at (length line + 1) (line ++ (b'\n' ∷ [])) rest
        (omega (arith, length-append line (b'\n' ∷ [])))

split_line :
    (fuel : ℕ) (line rest : Bytes) (lines : List Bytes)
    → Lacks b'\n' line
    → split_loop (suc fuel) (line ++ (b'\n' ∷ rest)) lines
      ≡ split_loop fuel rest (lines ++ (line ∷ []))
unfolding split_loop
split_line fuel [] rest lines h = rw (split_loop, find_end [] rest h, drop_line [] rest) refl
split_line fuel (c ∷ line) rest lines h =
    rw
      (
        split_loop,
        find_end (c ∷ line) rest h,
        drop_line (c ∷ line) rest,
        take-length (c ∷ line) (b'\n' ∷ rest),
      )
      refl

split_last :
    (fuel : ℕ) (last : Bytes) (lines : List Bytes)
    → Lacks b'\n' last
    → last ≢ []
    → split_loop (suc fuel) last lines ≡ some (lines ++ (last ∷ []))
unfolding split_loop
split_last fuel [] lines h full = absurd (full refl)
split_last fuel (c ∷ last) lines h full = rw (split_loop, find_nowhere (c ∷ last) h) refl

-- What is left behind the last newline is a line too, unless it is empty.
abbrev pub unended : Bytes → List Bytes
unended [] = []
unended (c ∷ last) = (c ∷ last) ∷ []

split_joined :
    (fuel : ℕ) (sent : List Bytes) (last : Bytes) (lines : List Bytes)
    → All (Lacks b'\n') sent
    → Lacks b'\n' last
    → length (joined sent ++ last) < fuel
    → split_loop fuel (joined sent ++ last) lines ≡ some (lines ++ (sent ++ unended last))
unfolding joined split_loop
split_joined zero sent last lines h l f = absurd (omega arith)
split_joined (suc fuel) [] [] lines h l f = ap some (sym (append-nil lines))
split_joined (suc fuel) [] (c ∷ last) lines h l f =
    split_last fuel (c ∷ last) lines l (λ e. absurd (ground arith))
split_joined (suc fuel) (line ∷ sent) last lines (h, hs) l f =
    let rest = joined sent ++ last in
    let shape : joined (line ∷ sent) ++ last ≡ line ++ (b'\n' ∷ rest) =
      append_assoc line (b'\n' ∷ joined sent) last in
    let shorter : length rest < fuel =
      omega (arith, ap length shape, length-append line (b'\n' ∷ rest), f) in
    ap (λ text. split_loop (suc fuel) text lines) shape
    ∙ split_line fuel line rest lines h
    ∙ split_joined fuel sent last (lines ++ (line ∷ [])) hs l shorter
    ∙ ap some (append_assoc lines (line ∷ []) (sent ++ unended last))

-- The loop ends within its fuel. A datagram of lines, each with its newline, and possibly a last one
-- without, is split into those lines, behind the lines that are there.
pub split_datagram-joined :
    (sent : List Bytes) (last : Bytes) (lines : List Bytes)
    → All (Lacks b'\n') sent
    → Lacks b'\n' last
    → split_datagram (joined sent ++ last) lines ≡ some (lines ++ (sent ++ unended last))
unfolding split_datagram
split_datagram-joined sent last lines h l =
    split_joined (suc (length (joined sent ++ last))) sent last lines h l (omega arith)
