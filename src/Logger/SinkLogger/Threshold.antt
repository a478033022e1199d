-- ===== src/Logger/SinkLogger/Threshold.antt =====
-- What reaches the sink of a logger, logger/src/SinkLogger.cpp.
use loggerlib.Logger.LogRecord.Line.{format_record}
use loggerlib.Prelude.Int.{ℤ}
use loggerlib.Logger.SinkLogger.{clear, log, SinkLogger, format_record, is_enabled}
use loggerlib.Logger.LogRecord.Time.{Calendar}
use loggerlib.Logger.Sink.{WriteLine}
use loggerlib.Logger.LogLevel.{is_valid_level, LogLevel}
use loggerlib.Prelude.{
  ◌≡◌, refl, inl, inr, true, false, ◌&&◌, List, [], ◌∷◌, arith, Bytes, drop, if◌then◌else◌,
  Bool-cases,
}

abbrev pub Message : Type 0
Message = LogLevel × Bytes

-- The messages that a threshold lets through; a level out of range is refused.
unfoldable pub passing : LogLevel → List Message → List Message
passing threshold [] = []
passing threshold ((level, text) ∷ messages) =
    if is_valid_level level && is_enabled threshold level
    then (level, text) ∷ passing threshold messages
    else passing threshold messages

module _ {S : Type 0} {W : Type 0} (write_line : WriteLine S W) (calendar : Calendar)
    (now : W → ℤ) where
  -- The sink and the world after the calls of `log` for some messages.
  unfoldable pub log_all : SinkLogger S → W → List Message → S × W
  log_all logger world [] = (logger.sink, world)
  log_all logger world ((level, text) ∷ messages) =
      let o = log write_line calendar now logger world level text in log_all o.sink o.world messages

  -- The sink and the world after the lines of some messages, each stamped when it is written.
  unfoldable pub write_all : S → W → List Message → S × W
  write_all sink world [] = (sink, world)
  write_all sink world ((level, text) ∷ messages) =
      let o = write_line sink world (format_record calendar (now world) level text) clear in
      write_all o.sink o.world messages

  log_dropped :
      (logger : SinkLogger S) (world : W) (level : LogLevel) (text : Bytes)
      → (is_valid_level level && is_enabled logger.level level) ≡ false
      → ((log write_line calendar now logger world level text).sink ≡ logger)
        × ((log write_line calendar now logger world level text).world ≡ world)
  unfolding log
  log_dropped logger world level text h = ground arith

  log_passed :
      (logger : SinkLogger S) (world : W) (level : LogLevel) (text : Bytes)
      → (is_valid_level level && is_enabled logger.level level) ≡ true
      → let o =
          write_line logger.sink world (format_record calendar (now world) level text) clear in
        ((log write_line calendar now logger world level text).sink
          ≡ record { sink = o.sink; level = logger.level })
        × ((log write_line calendar now logger world level text).world ≡ o.world)
  unfolding log
  log_passed logger world level text h = ground arith

  -- The sink sees the lines of the messages that the threshold lets through, in order, and nothing
  -- of the others.
  pub log_all-passing :
      (logger : SinkLogger S) (world : W) (messages : List Message)
      → log_all logger world messages ≡ write_all logger.sink world (passing logger.level messages)
  unfolding log_all write_all passing
  log_all-passing logger world [] = refl
  log_all-passing logger world ((level, text) ∷ messages) =
      elim (Bool-cases (is_valid_level level && is_enabled logger.level level)) [
        | inl pass ↦
            let (sink, after) = log_passed logger world level text pass in
            let o =
              write_line logger.sink world (format_record calendar (now world) level text) clear in
            rw (pass, sink, after)
              (log_all-passing (record { sink = o.sink; level = logger.level }) o.world messages)
        | inr drop ↦
            let (sink, after) = log_dropped logger world level text drop in
            rw (drop, sink, after) (log_all-passing logger world messages)
      ]
