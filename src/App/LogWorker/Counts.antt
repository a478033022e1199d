-- ===== src/App/LogWorker/Counts.antt =====
-- The counters of app/core/LogWorker.cpp.
use loggerlib.Logger.SinkLogger.{is_enabled}
use loggerlib.App.LogWorker.Runs.{handle_all}
use loggerlib.Logger.LogLevel.{LogLevel}
use loggerlib.Common.Errors.{is_error, ErrorCode}
use loggerlib.App.LogWorker.{
  inl, inr, Bool-cases, codes, length, Bool, is_error, threw_unknown, threw, returned,
  set_level_event, is_enabled, Logged, record_failure, write, write_event, record_result, handle,
  Worker, Event, ErrorCode, ILogger,
}
use mathlib.Core.Path.{subst}
use loggerlib.Prelude.{
  inl, inr, codes, Bool-cases, length, Bool, ℕ, ◌+◌, ◌^◌, ◌<◌, ◌≡◌, refl, sym, ap, ◌∙◌, true, false,
  List, [], ◌∷◌, arith, Bytes, if◌then◌else◌,
}

-- What the logger left, and whether the message was written.
abbrev pub left_by : {L : Type 0} → Logged L → L
left_by (returned written ec l) = l
left_by (threw what l) = l
left_by (threw_unknown l) = l

abbrev pub was_written : {L : Type 0} → Logged L → Bool
was_written (returned written ec l) = written
was_written (threw what l) = false
was_written (threw_unknown l) = false

unfoldable pub successes : {L : Type 0} → List (Logged L) → ℕ
successes [] = 0
successes (outcome ∷ rest) = (if was_written outcome then 1 else 0) + successes rest

unfoldable pub losses : {L : Type 0} → List (Logged L) → ℕ
losses [] = 0
losses (outcome ∷ rest) = (if was_written outcome then 0 else 1) + losses rest

module _ {L : Type 0} (logger : ILogger L) (message_of_code : ErrorCode → Bytes) where
  -- The calls of the logger for some events, one for each message that the threshold of the moment lets
  -- through.
  unfoldable pub outcomes : List Event → L → List (Logged L)
  outcomes [] l = []
  outcomes (set_level_event level ∷ events) l = outcomes events (logger.set_level level l)
  outcomes (write_event level text ∷ events) l = elim (is_enabled (logger.level_of l) level) [
    | false ↦ outcomes events l
    | true ↦ logger.log level text l ∷ outcomes events (left_by (logger.log level text l))
  ]

  -- Why a message was not written.
  abbrev pub reason_of : Logged L → Bytes
  reason_of (returned written ec l) =
      if is_error ec then message_of_code ec else codes "write failed"
  reason_of (threw what l) = what
  reason_of (threw_unknown l) = codes "unknown exception"

  -- The reason of the last message that was not written, and `old` if there is none.
  unfoldable pub last_loss : Bytes → List (Logged L) → Bytes
  last_loss old [] = old
  last_loss old (outcome ∷ rest) =
      last_loss (if was_written outcome then old else reason_of outcome) rest

  outcomes-pass :
      (level : LogLevel) (text : Bytes) (events : List Event) (l : L)
      → is_enabled (logger.level_of l) level ≡ true
      → outcomes (write_event level text ∷ events) l
        ≡ logger.log level text l ∷ outcomes events (left_by (logger.log level text l))
  unfolding outcomes
  outcomes-pass level text events l pass = rw (outcomes, pass) refl

  outcomes-low :
      (level : LogLevel) (text : Bytes) (events : List Event) (l : L)
      → is_enabled (logger.level_of l) level ≡ false
      → outcomes (write_event level text ∷ events) l ≡ outcomes events l
  unfolding outcomes
  outcomes-low level text events l low = rw (outcomes, low) refl

  handle-pass :
      (level : LogLevel) (text : Bytes) (w : Worker) (l : L)
      → is_enabled (logger.level_of l) level ≡ true
      → handle logger message_of_code (write_event level text) (w, l)
        ≡ record_result logger message_of_code w (logger.log level text l)
  unfolding handle write
  handle-pass level text w l pass = ground arith

  handle-low :
      (level : LogLevel) (text : Bytes) (w : Worker) (l : L)
      → is_enabled (logger.level_of l) level ≡ false
      → handle logger message_of_code (write_event level text) (w, l) ≡ (w, l)
  unfolding handle write
  handle-low level text w l low = ground arith

  -- The counters after some calls of the logger.
  abbrev pub tally : Worker → List (Logged L) → Worker
  tally w done = record {
    processed = w.processed + successes done;
    failed = w.failed + losses done;
    last_error = last_loss w.last_error done;
  }

  tally-cons :
      (w : Worker) (outcome : Logged L) (rest : List (Logged L))
      → w.processed + length (outcome ∷ rest) < 2 ^ 64
      → w.failed + length (outcome ∷ rest) < 2 ^ 64
      → (tally (record_result logger message_of_code w outcome).0 rest ≡ tally w (outcome ∷ rest))
        × ((record_result logger message_of_code w outcome).1 ≡ left_by outcome)
        × ((record_result logger message_of_code w outcome).0.processed + length rest < 2 ^ 64)
        × ((record_result logger message_of_code w outcome).0.failed + length rest < 2 ^ 64)
  unfolding successes losses last_loss record_result record_failure
  tally-cons w (returned true ec l) rest h k = (ground arith, refl, ground arith, ground arith)
  tally-cons w (returned false ec l) rest h k = (ground arith, refl, ground arith, ground arith)
  tally-cons w (threw what l) rest h k = (ground arith, refl, ground arith, ground arith)
  tally-cons w (threw_unknown l) rest h k = (ground arith, refl, ground arith, ground arith)

  fits_as :
      (n : ℕ) (done done' : List (Logged L))
      → done ≡ done'
      → n + length done < 2 ^ 64
      → n + length done' < 2 ^ 64
  fits_as n done done' e h = subst (λ d. n + length d < 2 ^ 64) e h

  -- As long as the counters do not wrap: of the messages that the threshold of the moment lets through,
  -- those that the logger writes count as processed, and those that it refuses or throws on as failed;
  -- the last error is the reason of the last failure; nothing else is counted.
  pub handle_all-counted :
      (events : List Event) (w : Worker) (l : L)
      → w.processed + length (outcomes events l) < 2 ^ 64
      → w.failed + length (outcomes events l) < 2 ^ 64
      → let done = outcomes events l in
        (handle_all logger message_of_code events (w, l)).0 ≡ record {
          processed = w.processed + successes done;
          failed = w.failed + losses done;
          last_error = last_loss w.last_error done;
        }
  unfolding handle_all handle outcomes successes losses last_loss
  handle_all-counted [] w l h k = ground arith
  handle_all-counted (set_level_event level ∷ events) w l h k =
      handle_all-counted events w (logger.set_level level l) h k
  handle_all-counted (write_event level text ∷ events) w l h k =
      elim (Bool-cases (is_enabled (logger.level_of l) level)) [
        | inr low ↦
            let same = outcomes-low level text events l low in
            let all = outcomes (write_event level text ∷ events) l in
            let rest = outcomes events l in
            ap (λ (s : Worker × L). (handle_all logger message_of_code events s).0)
              (handle-low level text w l low)
            ∙ handle_all-counted events w l (fits_as w.processed all rest same h)
                (fits_as w.failed all rest same k)
            ∙ sym (ap (tally w) same)
        | inl pass ↦
            let o = logger.log level text l in
            let rest = outcomes events (left_by o) in
            let all = outcomes (write_event level text ∷ events) l in
            let next = record_result logger message_of_code w o in
            let made = outcomes-pass level text events l pass in
            let (tallied, left, fits, fits') =
              tally-cons w o rest (fits_as w.processed all (o ∷ rest) made h)
                (fits_as w.failed all (o ∷ rest) made k) in
            ap (λ (s : Worker × L). (handle_all logger message_of_code events s).0)
              (handle-pass level text w l pass)
            ∙ ap (λ (l' : L). (handle_all logger message_of_code events (next.0, l')).0) left
            ∙ handle_all-counted events next.0 (left_by o) fits fits'
            ∙ tallied
            ∙ sym (ap (tally w) made)
      ]
