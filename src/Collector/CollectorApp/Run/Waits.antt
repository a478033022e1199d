-- ===== src/Collector/CollectorApp/Run/Waits.antt =====
-- The waits of collector/core/CollectorApp.cpp, and what the call of poll makes of them.
use loggerlib.Prelude.Int.{negsuc, ◌-ℤ◌, pos, ℤ}
use loggerlib.Collector.Net.Poll.{to_int}
use loggerlib.Collector.Options.{Run}
use loggerlib.Collector.CollectorApp.Run.{
  negsuc, ◌-ℤ◌, pos, ℤ, Surroundings, wait_left, clamp_wait, ceil_millis,
}
use loggerlib.Common.Net.Machine.{is_negative}
use loggerlib.Prelude.{ℕ, ◌+◌, ◌*◌, ◌^◌, ◌≤◌, ◌<◌, min, ◌≡◌, ap, ◌∙◌, true, arith}

clamp_wait-pos : (left : ℤ) (t : ℕ) → (w : ℕ) × (clamp_wait left (pos t) ≡ pos w) × (w ≤ t)
unfolding clamp_wait
clamp_wait-pos (negsuc n) t = (0, ground arith, omega arith)
clamp_wait-pos (pos n) t = (min n t, ground arith, ground arith)

to_int-pos : (w : ℕ) → w < 2 ^ 31 → to_int (pos w) ≡ pos w
unfolding to_int
to_int-pos w h = ground arith

to_int_negative : (w : ℕ) → 2 ^ 31 ≤ w → w < 2 ^ 32 → is_negative (to_int (pos w)) ≡ true
unfolding to_int
to_int_negative w low high = ground arith

module _ {S Double : Type 0} (around : Surroundings S Double) where
  -- With a timeout of less than 2 ^ 31 milliseconds, each wait is between zero and the timeout, and
  -- poll is given just that wait.
  pub wait_left_bounds :
      (settings : Run) (deadline : ℤ) (s : S) (t : ℕ)
      → settings.timeout ≡ pos t
      → t < 2 ^ 31
      → let wait = (wait_left around settings deadline s).0 in
        (w : ℕ) × (wait ≡ pos w) × (w ≤ t) × (to_int wait ≡ pos w)
  unfolding wait_left
  wait_left_bounds settings deadline s t e h =
      let (w, is, small) = clamp_wait-pos (ceil_millis (deadline -ℤ (around.now s).0)) t in
      let is' : (wait_left around settings deadline s).0 ≡ pos w = rw e is in
      (w, is', small, ap to_int is' ∙ to_int-pos w (omega arith))

  ceil_millis-full : (now t : ℕ) → ceil_millis (pos (now + t * 1_000_000) -ℤ pos now) ≡ pos t
  unfolding ceil_millis ◌-ℤ◌
  ceil_millis-full now t = ground arith

  -- With a timeout of 2 ^ 31 milliseconds or more, less than 2 ^ 32, poll is given a negative wait
  -- when the whole timeout is left.
  pub wait_left_wraps :
      (settings : Run) (now t : ℕ) (s : S)
      → settings.timeout ≡ pos t
      → 2 ^ 31 ≤ t
      → t < 2 ^ 32
      → (around.now s).0 ≡ pos now
      → is_negative (to_int (wait_left around settings (pos (now + t * 1_000_000)) s).0) ≡ true
  unfolding wait_left clamp_wait
  wait_left_wraps settings now t s e low high at_now =
      rw (e, at_now, ceil_millis-full now t) (ground (arith, to_int_negative t low high))
