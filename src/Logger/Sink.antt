-- ===== src/Logger/Sink.antt =====
-- logger/src/ISink.hpp, logger/src/MultiSink.cpp and logger/src/FileSink.cpp. What a sink writes to,
-- files and sockets, is a state `W` that each call passes on.
pub mod Offers
use loggerlib.Common.Errors.{clear, ErrorCode, errno_error}
use loggerlib.Prelude.{
  ℕ, zero, suc, ◌+◌, ◌-◌, ◌*◌, ◌/◌, ◌%◌, ◌^◌, ◌≤◌, ◌<◌, min, max, ◌≡◌, refl, sym, ap, ◌∙◌, ◌≢◌, ◌↔◌,
  ◌⊎◌, inl, inr, Bool, true, false, not, ◌&&◌, ◌||◌, Option, none, some, List, [], ◌∷◌, ◌++◌, map,
  append_assoc, append-nil, arith, Bytes, codes, Lacks, All, All-append, length, get_elem?, take,
  drop, replicate, length-replicate, modify, flatten, length-append, take-length, take_at, drop_at,
  drop-length, drop_past, take_all, equal, equal_iff, find, rfind, find_pair, substr, Cut, absent,
  at, find-Cut, ltb, leb, ◌==◌, if◌then◌else◌, ltb→lt, leb→le, ltb→le, lt→ltb, le→ltb, ==_iff,
  ==_refl, ==_ne, Bool-cases, Option-cases, every_below, every_below_at,
}

-- What `writeLine` returns, and what it leaves in `ec`, the sink and the world.
pub record Outcome (S : Type 0) (W : Type 0) : Type 0 where
  pub ok : Bool
  pub ec : ErrorCode
  pub sink : S
  pub world : W

-- `ISink::writeLine`: the sink, the world, the line and the given `ec`
abbrev pub WriteLine : Type 0 → Type 0 → Type 0
WriteLine S W = S → W → Bytes → ErrorCode → Outcome S W

module _ {S : Type 0} {W : Type 0} (write_line : WriteLine S W) where
  -- The loop of `MultiSink::writeLine`.
  unfoldable pub write_each : List S → W → Bytes → Bool → ErrorCode → Outcome (List S) W
  write_each [] world line written ec = record { ok = written; ec = ec; sink = []; world = world }
  write_each (sink ∷ sinks) world line written ec =
      let one = write_line sink world line clear in
      let rest =
        write_each sinks one.world line (if one.ok then written else false)
          (if one.ok then ec else if written then one.ec else ec) in
      record { ok = rest.ok; ec = rest.ec; sink = one.sink ∷ rest.sink; world = rest.world }

  unfoldable pub multi_write_line : List S → W → Bytes → ErrorCode → Outcome (List S) W
  multi_write_line sinks world line ec = write_each sinks world line true ec

-- `m_fstream << text << std::flush` after `clear()` with errno 0: whether the stream is good, the
-- errno, and the world.
module _ {W : Type 0} (put : W → Bytes → Bool × ℕ × W) where
  unfoldable pub file_write_line : WriteLine Unit W
  file_write_line stream world line ec =
      let (good, errno, after) = put world (line ++ b'\n' ∷ []) in
      record {
        ok = good;
        ec = if good then ec else errno_error errno;
        sink = stream;
        world = after;
      }

-- The stream that is opened to append, after errno was set to 0: whether it is open, the errno, and
-- the world.
module _ {W : Type 0} (open_stream : W → Bytes → Bool × ℕ × W) where
  unfoldable pub open_file_sink : W → Bytes → ErrorCode → Option (Unit {0}) × ErrorCode × W
  open_file_sink world path ec =
      let (is_open, errno, after) = open_stream world path in
      if is_open then (some tt, ec, after) else (none, errno_error errno, after)
