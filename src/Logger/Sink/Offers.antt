-- ===== src/Logger/Sink/Offers.antt =====
-- A record is offered to every target of a logger, as logger/include/logger/LoggerFactory.hpp
-- promises.
use loggerlib.Logger.Sink.{multi_write_line, Outcome, write_each, WriteLine}
use loggerlib.Common.Errors.{clear, ErrorCode}
use loggerlib.Prelude.{
  ◌≡◌, refl, ap, Bool, true, false, Option, none, some, List, [], ◌∷◌, map, arith, Bytes,
  if◌then◌else◌,
}

abbrev pub reported : ErrorCode → Option ErrorCode → Bool × ErrorCode
reported given none = (true, given)
reported given (some failure) = (false, failure)

module _ {S : Type 0} {W : Type 0} (write_line : WriteLine S W) where
  -- Every sink writes the line once, in order, with a clear code, whatever the others did.
  unfoldable pub offers : List S → W → Bytes → List (Outcome S W)
  offers [] world line = []
  offers (sink ∷ sinks) world line =
      let one = write_line sink world line clear in one ∷ offers sinks one.world line

  -- The code of the first sink that failed.
  unfoldable pub first_failure : List (Outcome S W) → Option ErrorCode
  first_failure [] = none
  first_failure (one ∷ rest) = if one.ok then first_failure rest else some one.ec

  unfoldable pub last_world : W → List (Outcome S W) → W
  last_world world [] = world
  last_world world (one ∷ rest) = last_world one.world rest

  after_failure :
      (sinks : List S) (world : W) (line : Bytes) (ec : ErrorCode)
      → ((write_each write_line sinks world line false ec).ok ≡ false)
        × ((write_each write_line sinks world line false ec).ec ≡ ec)
  unfolding write_each
  after_failure [] world line ec = (refl, refl)
  after_failure (sink ∷ sinks) world line ec =
      ground (arith, after_failure sinks (write_line sink world line clear).world line ec)

  each_sink :
      (sinks : List S) (world : W) (line : Bytes) (written : Bool) (ec : ErrorCode)
      → ((write_each write_line sinks world line written ec).sink
          ≡ map (λ o. o.sink) (offers sinks world line))
        × ((write_each write_line sinks world line written ec).world
            ≡ last_world world (offers sinks world line))
  unfolding write_each offers last_world
  each_sink [] world line written ec = (refl, refl)
  each_sink (sink ∷ sinks) world line written ec =
      let one = write_line sink world line clear in
      let (same, after) =
        each_sink sinks one.world line (if one.ok then written else false)
          (if one.ok then ec else if written then one.ec else ec) in
      (ap (◌∷◌ one.sink) same, after)

  first_reported :
      (sinks : List S) (world : W) (line : Bytes) (ec : ErrorCode)
      → let o = write_each write_line sinks world line true ec in
        (o.ok, o.ec) ≡ reported ec (first_failure (offers sinks world line))
  unfolding write_each offers first_failure
  first_reported [] world line ec = refl
  first_reported (sink ∷ sinks) world line ec =
      let one = write_line sink world line clear in
      ground
        (arith, first_reported sinks one.world line ec, after_failure sinks one.world line one.ec)

  -- A line is offered to every sink once, in order, whatever the others do. The write succeeds when
  -- all do, and leaves the code as it was; otherwise the code is that of the first sink that failed.
  pub multi_write_line_lem :
      (sinks : List S) (world : W) (line : Bytes) (ec : ErrorCode)
      → let o = multi_write_line write_line sinks world line ec in
        ((o.ok, o.ec) ≡ reported ec (first_failure (offers sinks world line)))
        × (o.sink ≡ map (λ one. one.sink) (offers sinks world line))
        × (o.world ≡ last_world world (offers sinks world line))
  unfolding multi_write_line
  multi_write_line_lem sinks world line ec =
      let (same, after) = each_sink sinks world line true ec in
      (first_reported sinks world line ec, same, after)
