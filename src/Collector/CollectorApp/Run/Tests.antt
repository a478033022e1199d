-- ===== src/Collector/CollectorApp/Run/Tests.antt =====
-- The theorems on the loop of the collector, at concrete inputs.
use loggerlib.Prelude.Int.{pos}
use loggerlib.Collector.CollectorApp.{CollectorApp}
use loggerlib.Collector.CollectorApp.Run.{pos, CollectorApp, Surroundings, ExitCode, run, wait_left}
use loggerlib.Collector.CollectorApp.Run.Waits.{wait_left_bounds, wait_left_wraps}
use loggerlib.Collector.CollectorApp.Run.Stops.{run_returns}
use loggerlib.Collector.Net.Poll.{to_int}
use loggerlib.Collector.Options.{Run}
use loggerlib.Logger.LogRecord.Gregorian.{gregorian}
use loggerlib.Logger.SocketProtocol.{SocketProtocol}
use loggerlib.Common.Net.Machine.{is_negative}
use loggerlib.Prelude.{
  ℕ, zero, suc, ◌+◌, ◌-◌, ◌*◌, ◌/◌, ◌≤◌, ◌<◌, ◌≡◌, refl, Bool, true, false, not, some, [], ◌∷◌,
  arith, codes,
}

-- The world counts the readings of the flag before it is set; each wait brings one line that is no
-- record, and the clock shows 7.
abbrev still_running : ℕ → Bool
still_running zero = false
still_running (suc n) = true

abbrev around : Surroundings ℕ ℕ
around = record {
  receive = λ wait ec s. (record { ok = true; ec = ec; lines = codes "x" ∷ [] }, s);
  dropped = λ s. 0;
  now = λ s. (pos 7, s);
  stopping = λ s. (not (still_running s), s - 1);
  message_of_code = λ ec. codes "io";
  zero_double = 0;
  divide = λ a b. a / b;
  fixed = λ d. codes "0.0";
}

abbrev settings : Run
settings = record {
  host = [];
  port = 5555;
  protocol = SocketProtocol.tcp;
  every = 2;
  timeout = pos 10000;
}

abbrev long_settings : Run
long_settings = record settings { timeout = pos 3_000_000_000 }

wait_left_bounds_example :
    let wait = (wait_left around settings (pos 12_000_000) 0).0 in
    (w : ℕ) × (wait ≡ pos w) × (w ≤ 10000) × (to_int wait ≡ pos w)
wait_left_bounds_example =
    wait_left_bounds around settings (pos 12_000_000) 0 10000 refl (omega arith)

wait_left_wraps_example :
    is_negative (to_int (wait_left around long_settings (pos (7 + 3_000_000_000 * 1_000_000)) 0).0)
    ≡ true
wait_left_wraps_example =
    wait_left_wraps around long_settings 7 3_000_000_000 0 refl (omega arith) (omega arith) refl

fewer : (s : ℕ) → (around.stopping s).0 ≡ false → (around.stopping s).1 < s
fewer zero h = cc
fewer (suc s) h = omega arith

run_returns_example :
    (code : ExitCode) × (app : CollectorApp) × (s : ℕ) × (run around gregorian 4 settings 3
      ≡ some (code, app, s))
run_returns_example =
    run_returns around gregorian (λ s. s) (λ s. omega arith) (λ wait ec s. omega arith) fewer 4
      settings 3 (omega arith)
