-- ===== src/App/LogWorker.antt =====
-- app/core/LogWorker.hpp and app/core/LogWorker.cpp: the thread that writes the events. The logger is
-- a parameter, what `logger/include/logger/ILogger.hpp` promises; so is the text of an error code.
pub mod Runs
pub mod Counts
use loggerlib.Logger.SinkLogger.{is_enabled}
use loggerlib.App.EventQueue.{
  waits, drained, popped, set_level_event, write_event, Event, EventQueue, close, pop,
}
use loggerlib.Logger.LogLevel.{LogLevel}
use loggerlib.Common.Errors.{is_error, ErrorCode}
use loggerlib.Prelude.{
  ℕ, zero, suc, ◌+◌, ◌-◌, ◌*◌, ◌/◌, ◌%◌, ◌^◌, ◌≤◌, ◌<◌, min, max, ◌≡◌, refl, sym, ap, ◌∙◌, ◌≢◌, ◌↔◌,
  ◌⊎◌, inl, inr, Bool, true, false, not, ◌&&◌, ◌||◌, Option, none, some, List, [], ◌∷◌, ◌++◌, map,
  append_assoc, append-nil, arith, Bytes, codes, Lacks, All, All-append, length, get_elem?, take,
  drop, replicate, length-replicate, modify, flatten, length-append, take-length, take_at, drop_at,
  drop-length, drop_past, take_all, equal, equal_iff, find, rfind, find_pair, substr, Cut, absent,
  at, find-Cut, ltb, leb, ◌==◌, if◌then◌else◌, ltb→lt, leb→le, ltb→le, lt→ltb, le→ltb, ==_iff,
  ==_refl, ==_ne, Bool-cases, Option-cases, every_below, every_below_at,
}

-- What a call of `log` does: it returns, or an exception leaves it.
pub data Logged (L : Type 0) : Type 0 where
  returned : (written : Bool) → (ec : ErrorCode) → L → Logged L
  threw : (what : Bytes) → L → Logged L
  threw_unknown : L → Logged L

pub record ILogger (L : Type 0) : Type 0 where
  pub level_of : L → LogLevel
  pub set_level : LogLevel → L → L
  pub log : LogLevel → Bytes → L → Logged L

-- The counters are `std::size_t`.
pub record Worker : Type 0 where
  pub processed : ℕ
  pub failed : ℕ
  pub last_error : Bytes

abbrev pub new_worker : Worker
new_worker = record { processed = 0; failed = 0; last_error = [] }

-- `fetch_add(1)` on a `std::size_t`
abbrev pub bump : ℕ → ℕ
bump n = (n + 1) % 2 ^ 64

unfoldable pub record_failure : Bytes → Worker → Worker
record_failure reason w = record {
  processed = w.processed;
  failed = bump w.failed;
  last_error = reason;
}

module _ {L : Type 0} (logger : ILogger L) (message_of_code : ErrorCode → Bytes) where
  unfoldable pub record_result : Worker → Logged L → Worker × L
  record_result w (returned written ec l) = (
    if written
        then record { processed = bump w.processed; failed = w.failed; last_error = w.last_error }
        else record_failure (if is_error ec then message_of_code ec else codes "write failed") w,
    l,
  )
  record_result w (threw what l) = (record_failure what w, l)
  record_result w (threw_unknown l) = (record_failure (codes "unknown exception") w, l)

  -- `LogWorker::write`
  unfoldable pub write : LogLevel → Bytes → Worker × L → Worker × L
  write level text (w, l) =
      if not (is_enabled (logger.level_of l) level)
      then (w, l)
      else record_result w (logger.log level text l)

  -- The visitor in `LogWorker::loop`.
  unfoldable pub handle : Event → Worker × L → Worker × L
  handle (write_event level text) s = write level text s
  handle (set_level_event level) (w, l) = (w, logger.set_level level l)

  -- The state of both threads: the queue, the worker, the logger, and whether the loop has ended.
  pub record System : Type 0 where
    pub events : EventQueue
    pub state : Worker × L
    pub ended : Bool

  -- One round of `LogWorker::loop`; a round that has to wait leaves the system as it is.
  unfoldable pub worker_step : System → System
  worker_step s = if s.ended then s else elim (pop s.events) [
    | waits ↦ s
    | drained ↦ record { events = s.events; state = s.state; ended = true }
    | popped event rest ↦ record { events = rest; state = handle event s.state; ended = false }
  ]

  -- `LogWorker::stop` closes the queue, and joins the thread, which runs to its end.
  unfoldable pub run_worker : ℕ → System → System
  run_worker zero s = s
  run_worker (suc fuel) s = run_worker fuel (worker_step s)

  unfoldable pub stop : System → System
  stop s =
      run_worker (suc (length s.events.queue))
        (record { events = close s.events; state = s.state; ended = s.ended })
