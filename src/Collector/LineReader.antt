-- ===== src/Collector/LineReader.antt =====
-- collector/core/LineReader.hpp and LineReader.cpp: a stream of bytes cut into lines.
pub mod Bytewise
pub mod Stream
pub mod Framing
use loggerlib.Prelude.{
  ℕ, zero, suc, ◌+◌, ◌*◌, Bool, true, false, List, [], ◌∷◌, ◌++◌, Option, none, some, Bytes, length,
  take, drop, find, ltb, if◌then◌else◌,
}

pub record LineReader : Type 0 where
  pub limit : ℕ
  pub pending : Bytes
  pub skipping : Bool

-- `kDefaultLimit`
abbrev pub default_limit : ℕ
default_limit = 1024 * 1024

-- `LineReader(limit)`
abbrev pub new_reader : ℕ → LineReader
new_reader limit = record { limit = limit; pending = []; skipping = false }

-- What the loop of `feed` works on: the reader, the lines pushed so far, and `complete`.
pub record Feeding : Type 0 where
  pub reader : LineReader
  pub lines : List Bytes
  pub complete : Bool

-- One round of the loop on a chunk that is not empty: the state, and the rest of the chunk, or
-- `none` where the loop is left by `break` or `return`.
unfoldable pub feed_round : Feeding → Bytes → Feeding × Option Bytes
feed_round f chunk =
    let r = f.reader in
    elim (find b'\n' chunk) [
      | none ↦
          if r.skipping
          then (f, none)
          else if ltb r.limit (length r.pending + length chunk)
          then (
            record {
              reader = record r { pending = []; skipping = true };
              lines = f.lines;
              complete = false;
            },
            none,
          )
          else (record f { reader = record r { pending = r.pending ++ chunk } }, none)
      | some end ↦
          if r.skipping
          then (record f { reader = record r { skipping = false } }, some (drop (end + 1) chunk))
          else if ltb r.limit (length r.pending + end)
          then (
            record { reader = record r { pending = [] }; lines = f.lines; complete = false },
            some (drop (end + 1) chunk),
          )
          else (
            record f {
              reader = record r { pending = [] };
              lines = f.lines ++ (r.pending ++ take end chunk) ∷ [];
            },
            some (drop (end + 1) chunk),
          )
    ]

-- `while (!chunk.empty())`; `none` means that the fuel ran out.
unfoldable pub feed_loop : ℕ → Feeding → Bytes → Option Feeding
feed_loop zero f chunk = none
feed_loop (suc fuel) f [] = some f
feed_loop (suc fuel) f (c ∷ chunk) =
    let (f', rest) = feed_round f (c ∷ chunk) in
    elim rest [ none ↦ some f' | some chunk' ↦ feed_loop fuel f' chunk' ]

-- Each round takes at least one byte off the chunk.
unfoldable pub feed : LineReader → Bytes → List Bytes → Option Feeding
unfolding feed_loop
feed r chunk lines =
    feed_loop (suc (length chunk)) (record { reader = r; lines = lines; complete = true }) chunk
