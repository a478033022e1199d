-- ===== src/App/LogWorker/Runs.antt =====
-- What the input thread and the worker do together, whatever the order of their steps:
-- app/core/EventQueue.cpp and app/core/LogWorker.cpp.
use loggerlib.App.EventQueue.{EventQueue, pop, empty_queue, close, push}
use loggerlib.Common.Errors.{ErrorCode}
use loggerlib.App.LogWorker.{
  stop, run_worker, worker_step, handle, System, Event, Worker, ErrorCode, ILogger,
}
use loggerlib.Prelude.{
  ℕ, zero, suc, ◌≡◌, refl, sym, ap, ◌∙◌, Bool, true, false, List, [], ◌∷◌, ◌++◌, append_assoc,
  arith, Bytes, length,
}

module _ {L : Type 0} (logger : ILogger L) (message_of_code : ErrorCode → Bytes) where
  unfoldable pub handle_all : List Event → Worker × L → Worker × L
  handle_all [] s = s
  handle_all (event ∷ events) s = handle_all events (handle logger message_of_code event s)

  -- What the two threads can do from a new queue on, in any order; the list holds the events that
  -- `push` accepted.
  pub data Run (start : Worker × L) : List Event → System logger message_of_code → Type 0 where
    begins : Run start [] (record { events = empty_queue; state = start; ended = false })
    pushes :
        {events : List Event} {s : System logger message_of_code} (event : Event)
        → Run start events s
        → (push event s.events).0 ≡ true
        → Run start
            (events ++ (event ∷ []))
            (record { events = (push event s.events).1; state = s.state; ended = s.ended })
    refused :
        {events : List Event} {s : System logger message_of_code} (event : Event)
        → Run start events s
        → (push event s.events).0 ≡ false
        → Run start events
            (record { events = (push event s.events).1; state = s.state; ended = s.ended })
    closes :
        {events : List Event} {s : System logger message_of_code}
        → Run start events s
        → Run start events (record { events = close s.events; state = s.state; ended = s.ended })
    works :
        {events : List Event} {s : System logger message_of_code}
        → Run start events s
        → Run start events (worker_step logger message_of_code s)

  -- The events that were handled, the ones that wait behind them, and what an ended loop leaves.
  pub record IsConsistent (start : Worker × L) (events : List Event)
      (s : System logger message_of_code) : Type 0 where
    pub handled : List Event
    pub in_order : events ≡ handled ++ s.events.queue
    pub state_of : s.state ≡ handle_all handled start
    pub at_end : s.ended ≡ true → (s.events.closed ≡ true) × (s.events.queue ≡ [])

  handle_all-append :
      (xs ys : List Event) (s : Worker × L)
      → handle_all (xs ++ ys) s ≡ handle_all ys (handle_all xs s)
  unfolding handle_all
  handle_all-append [] ys s = refl
  handle_all-append (x ∷ xs) ys s = handle_all-append xs ys (handle logger message_of_code x s)

  push_back :
      (event : Event) (q : EventQueue)
      → (push event q).0 ≡ true
      → (push event q).1.queue ≡ q.queue ++ (event ∷ [])
  unfolding push
  push_back event q h = ground arith

  step_at :
      (start : Worker × L) (events : List Event) (queue : List Event) (closed ended : Bool)
      (state : Worker × L) (handled : List Event)
      → events ≡ handled ++ queue
      → state ≡ handle_all handled start
      → (ended ≡ true → (closed ≡ true) × (queue ≡ []))
      → IsConsistent start events (
          worker_step logger message_of_code (record {
            events = record { queue = queue; closed = closed };
            state = state;
            ended = ended;
          }))
  unfolding worker_step pop handle_all
  step_at start events queue closed true state handled order same at_end = record {
    handled = handled;
    in_order = order;
    state_of = same;
    at_end = at_end;
  }
  step_at start events [] true false state handled order same at_end = record {
    handled = handled;
    in_order = order;
    state_of = same;
    at_end = λ h. (refl, refl);
  }
  step_at start events [] false false state handled order same at_end = record {
    handled = handled;
    in_order = order;
    state_of = same;
    at_end = at_end;
  }
  step_at start events (event ∷ queue) closed false state handled order same at_end = record {
    handled = handled ++ (event ∷ []);
    in_order = order ∙ sym (append_assoc handled (event ∷ []) queue);
    state_of =
        ap (handle logger message_of_code event) same
        ∙ sym (handle_all-append handled (event ∷ []) start);
    at_end = λ h. absurd (ground arith);
  }

  worker_step-IsConsistent :
      (start : Worker × L) (events : List Event) (s : System logger message_of_code)
      → IsConsistent start events s
      → IsConsistent start events (worker_step logger message_of_code s)
  worker_step-IsConsistent start events s c =
      step_at start events s.events.queue s.events.closed s.ended s.state c.handled c.in_order
        c.state_of c.at_end

  -- Whatever the order of the steps, the events that `push` accepted are handled in order, each
  -- once, and the loop ends only when the queue is closed and empty.
  pub Run-IsConsistent :
      (start : Worker × L) (events : List Event) (s : System logger message_of_code)
      → Run start events s
      → IsConsistent start events s
  unfolding push close
  Run-IsConsistent start _ _ begins = record {
    handled = [];
    in_order = refl;
    state_of = unfold handle_all in refl;
    at_end = λ h. absurd (ground arith);
  }
  Run-IsConsistent start _ _ (pushes {events} {s} event run accepted) =
      let c = Run-IsConsistent start events s run in
      record {
        handled = c.handled;
        in_order =
            ap (λ es. es ++ (event ∷ [])) c.in_order
            ∙ append_assoc c.handled s.events.queue (event ∷ [])
            ∙ ap (λ q. c.handled ++ q) (sym (push_back event s.events accepted));
        state_of = c.state_of;
        at_end = λ h. absurd (ground (arith, c.at_end h));
      }
  Run-IsConsistent start _ _ (refused {events} {s} event run denied) =
      let c = Run-IsConsistent start events s run in
      record {
        handled = c.handled;
        in_order = ground (arith, c.in_order);
        state_of = c.state_of;
        at_end = λ h. ground (arith, c.at_end h);
      }
  Run-IsConsistent start _ _ (closes {events} {s} run) =
      let c = Run-IsConsistent start events s run in
      record {
        handled = c.handled;
        in_order = ground (arith, c.in_order);
        state_of = c.state_of;
        at_end = λ h. ground (arith, c.at_end h);
      }
  Run-IsConsistent start _ _ (works {events} {s} run) =
      worker_step-IsConsistent start events s (Run-IsConsistent start events s run)

  -- The rounds that `stop` waits for: one for each queued event, and one to see the queue empty.
  run_worker-queue :
      (queue : List Event) (state : Worker × L)
      → run_worker logger message_of_code (suc (length queue)) (record {
        events = record { queue = queue; closed = true };
        state = state;
        ended = false;
      })
        ≡ record {
          events = record { queue = []; closed = true };
          state = handle_all queue state;
          ended = true;
        }
  unfolding run_worker worker_step pop handle_all
  run_worker-queue [] state = refl
  run_worker-queue (event ∷ queue) state =
      run_worker-queue queue (handle logger message_of_code event state)

  worker_step-ended :
      (s : System logger message_of_code)
      → s.ended ≡ true
      → worker_step logger message_of_code s ≡ s
  unfolding worker_step
  worker_step-ended s h = ground arith

  run_worker-ended :
      (fuel : ℕ) (s : System logger message_of_code)
      → s.ended ≡ true
      → run_worker logger message_of_code fuel s ≡ s
  unfolding run_worker
  run_worker-ended zero s h = refl
  run_worker-ended (suc fuel) s h =
      ap (run_worker logger message_of_code fuel) (worker_step-ended s h)
      ∙ run_worker-ended fuel s h

  stop_at :
      (queue : List Event) (closed ended : Bool) (state : Worker × L)
      → (ended ≡ true → (closed ≡ true) × (queue ≡ []))
      → stop logger message_of_code (record {
        events = record { queue = queue; closed = closed };
        state = state;
        ended = ended;
      })
        ≡ record {
          events = record { queue = []; closed = true };
          state = handle_all queue state;
          ended = true;
        }
  unfolding stop close
  stop_at queue true false state at_end = run_worker-queue queue state
  stop_at queue false false state at_end = run_worker-queue queue state
  stop_at (event ∷ queue) closed true state at_end = absurd (ground (arith, at_end refl))
  stop_at [] false true state at_end = absurd (ground (arith, at_end refl))
  stop_at [] true true state at_end =
      run_worker-ended 1
        (record { events = record { queue = []; closed = true }; state = state; ended = true }) refl
      ∙ unfold handle_all in refl

  -- After any run, `stop` comes to an end with the queue closed and empty, and every event that
  -- `push` accepted has been handled, in order and once.
  pub stop_lem :
      (start : Worker × L) (events : List Event) (s : System logger message_of_code)
      → Run start events s
      → stop logger message_of_code s ≡ record {
        events = record { queue = []; closed = true };
        state = handle_all events start;
        ended = true;
      }
  stop_lem start events s run =
      let c = Run-IsConsistent start events s run in
      let all : handle_all s.events.queue s.state ≡ handle_all events start =
        ap (handle_all s.events.queue) c.state_of
        ∙ sym (handle_all-append c.handled s.events.queue start)
        ∙ ap (λ es. handle_all es start) (sym c.in_order) in
      stop_at s.events.queue s.events.closed s.ended s.state c.at_end
      ∙ ap
          (λ state. record {
            events = record { queue = []; closed = true };
            state = state;
            ended = true;
          })
          all
