-- ===== src/App/EventQueue.antt =====
-- app/core/EventQueue.hpp and app/core/EventQueue.cpp: the queue between the input and the worker.
-- Each call runs under the mutex, so it is one step; a call that waits is one that cannot step yet.
use loggerlib.Logger.LogLevel.{LogLevel}
use loggerlib.Prelude.{Bool, true, false, List, [], ◌∷◌, ◌++◌, Bytes, if◌then◌else◌}

pub data Event : Type 0 where
  write_event : LogLevel → Bytes → Event
  set_level_event : LogLevel → Event

pub record EventQueue : Type 0 where
  pub queue : List Event
  pub closed : Bool

abbrev pub empty_queue : EventQueue
empty_queue = record { queue = []; closed = false }

unfoldable pub push : Event → EventQueue → Bool × EventQueue
push event q =
    if q.closed
    then (false, q)
    else (true, record { queue = q.queue ++ event ∷ []; closed = q.closed })

-- What `pop` does: it waits, it returns false, or it takes the front event.
pub data Popped : Type 0 where
  waits : Popped
  drained : Popped
  popped : Event → EventQueue → Popped

unfoldable pub pop : EventQueue → Popped
pop q = elim q.queue [
  | [] ↦ if q.closed then drained else waits
  | event ∷ rest ↦ popped event (record { queue = rest; closed = q.closed })
]

unfoldable pub close : EventQueue → EventQueue
close q = if q.closed then q else record { queue = q.queue; closed = true }
