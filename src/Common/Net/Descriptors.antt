-- ===== src/Common/Net/Descriptors.antt =====
-- Descriptors that are opened and closed, common/net/Socket.cpp.
use loggerlib.Common.Net.Socket.{Socket, no_socket, valid, reset, assign, set_non_blocking}
use loggerlib.Common.Net.Machine.{
  Call, open_socket, accept_on, close_fd, Answer, Environment, Machine, is_negative,
}
use loggerlib.Prelude.{ℕ, ◌+◌, ◌≡◌, Bool, true, false, some, List, [], ◌∷◌, arith, if◌then◌else◌}

abbrev one_if : Bool → ℕ
one_if true = 1
one_if false = 0

abbrev pub fresh : Answer → ℕ
fresh answer = if is_negative answer.result then 0 else 1

-- The calls of a trace that gave a new descriptor, and those that closed one.
abbrev pub opening : Call → Answer → ℕ
opening (open_socket endpoint) answer = fresh answer
opening (accept_on fd) answer = fresh answer
opening _ answer = 0

abbrev pub closing : Call → ℕ
closing (close_fd fd) = 1
closing _ = 0

unfoldable pub opens : List (Call × Answer) → ℕ
opens [] = 0
opens ((call, answer) ∷ trace) = opening call answer + opens trace

unfoldable pub closes : List (Call × Answer) → ℕ
closes [] = 0
closes ((call, answer) ∷ trace) = closing call + closes trace

-- The descriptors that a socket owns.
unfoldable pub owned : Socket → ℕ
unfolding valid
owned socket = if valid socket then 1 else 0

-- From one machine to a later one, with what is owned before and after: every descriptor that was
-- opened in between is owned or was closed.
abbrev pub Balanced : {W : Type 0} → ℕ → Machine W → ℕ → Machine W → Type 0
Balanced before m after m' =
    opens m'.trace + closes m.trace + before ≡ opens m.trace + closes m'.trace + after

module _ {W : Type 0} (environment : Environment W) where
  pub reset-Balanced :
      (socket left : Socket) (m m' : Machine W)
      → reset environment socket m ≡ some (left, m')
      → (left ≡ no_socket) × Balanced (owned socket) m 0 m'
  unfolding reset opens closes owned
  reset-Balanced socket left m m' h = ground arith

  pub set_non_blocking-Balanced :
      (socket : Socket) (done : Bool) (m m' : Machine W)
      → set_non_blocking environment socket m ≡ some (done, m')
      → Balanced 0 m 0 m'
  unfolding set_non_blocking opens closes
  set_non_blocking-Balanced socket done m m' h = ground arith

  pub assign-Balanced :
      (own other own' left : Socket) (m m' : Machine W)
      → assign environment own other m ≡ some ((own', left), m')
      → (own' ≡ other) × (left ≡ no_socket) × Balanced (owned own) m 0 m'
  unfolding assign opens closes owned
  assign-Balanced own other own' left m m' h = ground arith
