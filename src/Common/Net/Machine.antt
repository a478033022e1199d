-- ===== src/Common/Net/Machine.antt =====
-- The system calls that common/net, logger/src/net and collector/core/net make. The environment that
-- answers them is a parameter: it may answer anything, and may change with each call. The machine
-- keeps errno and the calls made so far with their answers, the latest first.
use loggerlib.Prelude.Int.{negsuc, pos, ℤ}
use loggerlib.Prelude.{
  refl, arith, ◌≡◌, ℕ, Bool, true, false, Option, none, some, List, ◌∷◌, Bytes, if◌then◌else◌,
}

pub record Endpoint : Type 0 where
  pub family : ℕ
  pub socktype : ℕ
  pub protocol : ℕ
  pub address : Bytes

-- A descriptor is what the call is given, so it may be negative.
pub data Call : Type 0 where
  getaddrinfo : (host : Option Bytes) → (service : Bytes) → (socktype flags : ℕ) → Call
  open_socket : Endpoint → Call
  get_flags : (fd : ℤ) → Call
  set_flags : (fd : ℤ) → (flags : ℕ) → Call
  reuse_address : (fd : ℤ) → Call
  connect_to : (fd : ℤ) → Endpoint → Call
  bind_to : (fd : ℤ) → Endpoint → Call
  listen_on : (fd : ℤ) → (backlog : ℕ) → Call
  accept_on : (fd : ℤ) → Call
  pending_error : (fd : ℤ) → Call
  socket_name : (fd : ℤ) → Call
  address_text : (family : ℕ) → (address : Bytes) → Call
  poll_for : (fds : List ℤ) → (output : Bool) → (timeout : ℤ) → Call
  send_to : (fd : ℤ) → Bytes → Call
  receive_from : (fd : ℤ) → (size : ℕ) → Call
  close_fd : (fd : ℤ) → Call
  read_clock : Call

-- What a call returns, and what it leaves in its out parameters; `errno` is what a call that fails
-- sets. A call fails where the result is negative.
pub record Answer : Type 0 where
  pub result : ℤ
  pub errno : ℕ
  pub value : ℕ
  pub payload : Bytes
  pub endpoints : List Endpoint
  pub revents : List ℕ

abbrev pub Environment : Type 0 → Type 0
Environment W = W → Call → Answer × W

pub record Machine (W : Type 0) : Type 0 where
  pub world : W
  pub errno : ℕ
  pub trace : List (Call × Answer)

-- `none` means that the fuel of a loop ran out.
abbrev pub M : Type 0 → Type 0 → Type 0
M W A = Machine W → Option (A × Machine W)

abbrev pub pure : {W A : Type 0} → A → M W A
pure a m = some (a, m)

abbrev pub out_of_fuel : {W A : Type 0} → M W A
out_of_fuel m = none

infixl 5 ◌>>=◌ ◌>>◌
abbrev pub ◌>>=◌ : {W A B : Type 0} → M W A → (A → M W B) → M W B
◌>>=◌ f g m = elim (f m) [ none ↦ none | some (a, m') ↦ g a m' ]

abbrev pub ◌>>◌ : {W A B : Type 0} → M W A → M W B → M W B
f >> g = f >>= λ _. g

abbrev pub is_negative : ℤ → Bool
is_negative (pos n) = false
is_negative (negsuc n) = true

abbrev pub set_errno : {W : Type 0} → ℕ → M W (Unit {0})
set_errno errno m = some (tt, record m { errno = errno })

abbrev pub get_errno : {W : Type 0} → M W ℕ
get_errno m = some (m.errno, m)

-- The state after a call.
abbrev pub answered : {W : Type 0} → Machine W → Call → Answer × W → Machine W
answered m call (answer, after) = record {
  world = after;
  errno = if is_negative answer.result then answer.errno else m.errno;
  trace = (call, answer) ∷ m.trace;
}

abbrev pub perform : {W : Type 0} → Environment W → Call → M W Answer
perform environment call m =
    some ((environment m.world call).0, answered m call (environment m.world call))

-- The errno values that the code compares with, as Linux numbers them; EWOULDBLOCK is EAGAIN.
abbrev pub eintr : ℕ
eintr = 4

abbrev pub eagain : ℕ
eagain = 11

abbrev pub econnrefused : ℕ
econnrefused = 111

abbrev pub einprogress : ℕ
einprogress = 115

-- A chain whose first part ends goes on from there.
pub >>=-some :
    {W A B : Type 0} (f : M W A) (g : A → M W B) (a : A) (m m' : Machine W)
    → f m ≡ some (a, m')
    → (f >>= g) m ≡ g a m'
>>=-some f g a m m' h = rw (◌>>=◌, h) refl

-- A chain that ends took its first part to an end, and went on from there.
pub >>=-eq-some :
    {W A B : Type 0} (f : M W A) (g : A → M W B) (m : Machine W) {b : B} {m'' : Machine W}
    → (f >>= g) m ≡ some (b, m'')
    → (a : A) × (m' : Machine W) × (f m ≡ some (a, m')) × (g a m' ≡ some (b, m''))
>>=-eq-some {W} {A} f g m {b} {m''} h = go (f m) refl
  where
    go :
        (r : Option (A × Machine W))
        → f m ≡ r
        → (a : A) × (m' : Machine W) × (f m ≡ some (a, m')) × (g a m' ≡ some (b, m''))
    go none e = absurd (ground arith)
    go (some (a, m')) e = (a, m', e, ground arith)
