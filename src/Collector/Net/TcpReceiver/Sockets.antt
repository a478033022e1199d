-- ===== src/Collector/Net/TcpReceiver/Sockets.antt =====
-- The clients of collector/core/net/TcpReceiver.cpp and their descriptors.
use loggerlib.Common.Errors.{ErrorCode}
use loggerlib.Prelude.Int.{ℤ}
use loggerlib.Common.Net.Socket.{valid, set_non_blocking, Socket, reset}
use loggerlib.Collector.Net.Poll.{
  quiet, failed, ready, ready, failed, Waited, wait_for_input, Received, pollin, poll_any,
  revents_at, has_event,
}
use loggerlib.Collector.Statistics.{word}
use loggerlib.Collector.LineReader.{default_limit, new_reader, LineReader}
use loggerlib.Common.Net.Descriptors.{
  set_non_blocking-Balanced, Balanced, owned, opens, closes, reset-Balanced,
}
use loggerlib.Collector.Net.TcpReceiver.{
  true, descriptors, after_wait, ErrorCode, ℤ, receive, serve, valid, ltb, accept_on, max_clients,
  accept_clients, set_non_blocking, Bool, M, set_up, Socket, reset, word, has_event, after_read,
  read_client, read_clients, read, LineReader, erase, TcpReceiver, Client, Reading,
}
use loggerlib.Common.Net.Machine.{answered, ◌>>=◌, ◌>>◌, M, >>=-eq-some, Environment, Machine, pure}
use loggerlib.Prelude.{
  true, ltb→lt, ltb, length-append, if◌then◌else◌, Bool, length-modify, ℕ, zero, suc, ◌+◌, ◌≤◌, ◌≡◌,
  refl, inl, inr, some, List, [], ◌∷◌, ◌++◌, arith, Bytes, length, get_elem?, modify, Bool-cases,
  Option-cases,
}

-- The descriptors that the clients own.
unfoldable pub held : List Client → ℕ
held [] = 0
held (client ∷ rest) = owned client.socket + held rest

held-append : (xs ys : List Client) → held (xs ++ ys) ≡ held xs + held ys
unfolding held
held-append [] ys = omega arith
held-append (x ∷ xs) ys = omega (arith, held-append xs ys)

held-modify :
    (i : ℕ) (reader : LineReader) (xs : List Client)
    → held (modify i (λ c. record c { reader = reader }) xs) ≡ held xs
unfolding held
held-modify i reader [] = refl
held-modify zero reader (x ∷ xs) = refl
held-modify (suc i) reader (x ∷ xs) = omega (arith, held-modify i reader xs)

held-erase :
    (i : ℕ) (xs : List Client) (client : Client)
    → get_elem? xs i ≡ some client
    → (held (erase i xs) + owned client.socket ≡ held xs) × (length (erase i xs) ≤ length xs)
unfolding held
held-erase i [] client h = cc
held-erase zero (x ∷ xs) client h = let is : x ≡ client = cc in rw (← is) (omega arith, omega arith)
held-erase (suc i) (x ∷ xs) client h =
    let (less, short) = held-erase i xs client h in (omega (arith, less), omega (arith, short))

-- From one state to a later one no client was added, and what was opened is held or was closed.
abbrev Settled : {W : Type 0} → TcpReceiver → Machine W → TcpReceiver → Machine W → Type 0
Settled r m r' m' =
    (length r'.clients ≤ length r.clients) × Balanced (held r.clients) m (held r'.clients) m'

-- The limit, and that what is opened is held or was closed.
abbrev Kept : {W : Type 0} → ℕ → Machine W → TcpReceiver → Machine W → Type 0
Kept before m r' m' = (length r'.clients ≤ max_clients) × Balanced before m (held r'.clients) m'

Kept-eq :
    {W : Type 0} (before : ℕ) (r r' : TcpReceiver) (m m1 m' : Machine W)
    → r' ≡ r
    → m' ≡ m1
    → Kept before m r m1
    → Kept before m r' m'
Kept-eq before r r' m m1 m' is now kept = rw (is, now) kept

module _ {W : Type 0} (environment : Environment W) where
  read-Balanced :
      (client : Client) (lines : List Bytes) (reading : Reading) (m m' : Machine W)
      → read environment client lines m ≡ some (reading, m')
      → Balanced 0 m 0 m'
  unfolding read opens closes
  read-Balanced client lines reading m m' h = ground arith

  after_read-Settled :
      (i : ℕ) (client : Client) (r r' : TcpReceiver) (reading : Reading) (lines : List Bytes)
      (m m' : Machine W)
      → get_elem? r.clients i ≡ some client
      → after_read environment i client r reading m ≡ some ((r', lines), m')
      → Settled r m r' m'
  unfolding after_read
  after_read-Settled i client r r' reading lines m m' at_i h =
      let dropped = word (r.dropped + reading.drops) in
      elim (Bool-cases reading.open_still) [
        | inl on ↦
            let kept = modify i (λ (c : Client). record c { reader = reading.reader }) r.clients in
            let same =
              length-modify i (λ (c : Client). record c { reader = reading.reader }) r.clients in
            let same_held = held-modify i reading.reader r.clients in
            let is : r'.clients ≡ kept = ground arith in
            let now : m' ≡ m = ground arith in
            rw (is, now) (omega (arith, same), omega (arith, same_held))
        | inr off ↦
            let (less, short) = held-erase i r.clients client at_i in
            let rest : Socket → M W (TcpReceiver × List Bytes) = λ closed.
              pure (record r { clients = erase i r.clients; dropped = dropped }, reading.lines) in
            let chain : (reset environment client.socket >>= rest) m ≡ some ((r', lines), m') =
              ground arith in
            let (closed, between, e, after) =
              >>=-eq-some (reset environment client.socket) rest m chain in
            let (shut, even) = reset-Balanced environment client.socket closed m between e in
            let is : r'.clients ≡ erase i r.clients = ground arith in
            let now : m' ≡ between = ground arith in rw (is, now) (short, omega arith)
      ]

  read_client-Settled :
      (i events : ℕ) (r r' : TcpReceiver) (lines lines' : List Bytes) (m m' : Machine W)
      → read_client environment i events (r, lines) m ≡ some ((r', lines'), m')
      → Settled r m r' m'
  unfolding read_client
  read_client-Settled i events r r' lines lines' m m' h =
      let unchanged = λ (is : r' ≡ r) (now : m' ≡ m).
        let both : Settled r m r' m' = rw (is, now) (omega arith, omega arith) in both in
      elim (Bool-cases (has_event poll_any events)) [
        | inr none_set ↦ unchanged (ground arith) (ground arith)
        | inl set ↦ elim (Option-cases (get_elem? r.clients i)) [
          | inl beyond ↦ unchanged (ground arith) (ground arith)
          | inr (client, at_i) ↦
              let rest : Reading → M W (TcpReceiver × List Bytes) =
                λ reading. after_read environment i client r reading in
              let chain : (read environment client lines >>= rest) m ≡ some ((r', lines'), m') =
                ground arith in
              let (reading, between, e, after) =
                >>=-eq-some (read environment client lines) rest m chain in
              let even = read-Balanced client lines reading m between e in
              let (short, rest) =
                after_read-Settled i client r r' reading lines' between m' at_i after in
              (short, omega arith)
        ]
      ]

  read_clients-Settled :
      (n : ℕ) (revents : List ℕ) (r r' : TcpReceiver) (lines lines' : List Bytes) (m m' : Machine W)
      → read_clients environment n revents (r, lines) m ≡ some ((r', lines'), m')
      → Settled r m r' m'
  unfolding read_clients
  read_clients-Settled zero revents r r' lines lines' m m' h =
      let is : r' ≡ r = ground arith in
      let now : m' ≡ m = ground arith in rw (is, now) (omega arith, omega arith)
  read_clients-Settled (suc i) revents r r' lines lines' m m' h =
      let ((r1, lines1), between, e, after) =
        >>=-eq-some (read_client environment i (revents_at revents (suc i)) (r, lines))
          (λ s. read_clients environment i revents s) m h in
      let (short, even) =
        read_client-Settled i (revents_at revents (suc i)) r r1 lines lines1 m between e in
      let (short', even') = read_clients-Settled i revents r1 r' lines1 lines' between m' after in
      (omega arith, omega arith)

  -- What a client that was accepted leads to: it is kept or closed, and the next round begins.
  set_up-cases :
      (resume : TcpReceiver → M W TcpReceiver) (r r' : TcpReceiver) (client : Socket)
      (m m' : Machine W)
      → set_up environment resume r client m ≡ some (r', m')
      → (r1 : TcpReceiver) × (m1 : Machine W) × (resume r1 m1 ≡ some (r', m'))
        × (length r1.clients ≤ length r.clients + 1)
        × Balanced (held r.clients + owned client) m (held r1.clients) m1
  unfolding set_up held
  set_up-cases resume r r' client m m' h =
      let newcomer : Client = record { socket = client; reader = new_reader default_limit } in
      let added : TcpReceiver = record r {
        clients = r.clients ++ record { socket = client; reader = new_reader default_limit } ∷ [];
      } in
      let rest : Bool → M W TcpReceiver =
        λ usable. if usable then resume added else (reset environment client >> resume r) in
      let (usable, between, e, after) =
        >>=-eq-some (set_non_blocking environment client) rest m h in
      let even = set_non_blocking-Balanced environment client usable m between e in
      elim (Bool-cases usable) [
        | inl good ↦ (
          added,
          between,
          ground arith,
          omega (arith, length-append r.clients (newcomer ∷ [])),
          omega (arith, even, held-append r.clients (newcomer ∷ [])),
        )
        | inr bad ↦
            let chain : (reset environment client >>= λ _. resume r) between ≡ some (r', m') =
              ground arith in
            let (closed, m1, e', after') =
              >>=-eq-some (reset environment client) (λ _. resume r) between chain in
            let (shut, even') = reset-Balanced environment client closed between m1 e' in
            (r, m1, after', omega arith, omega arith)
      ]

  -- What `acceptClients` keeps: the limit, and that what is opened is held or was closed.
  accept_clients-Balanced :
      (fuel : ℕ) (r r' : TcpReceiver) (m m' : Machine W)
      → accept_clients environment fuel r m ≡ some (r', m')
      → length r.clients ≤ max_clients
      → (length r'.clients ≤ max_clients) × Balanced (held r.clients) m (held r'.clients) m'
  unfolding accept_clients opens closes owned valid
  accept_clients-Balanced zero r r' m m' h few = absurd (ground arith)
  accept_clients-Balanced (suc fuel) r r' m m' h few =
      let call = accept_on r.listener.socket.fd in
      let answer = (environment m.world call).0 in
      let next = answered m call (environment m.world call) in
      let client : Socket = record { fd = answer.result } in
      elim (Bool-cases (ltb (length r.clients) max_clients)) [
        | inr full ↦
            let is : r' ≡ r = ground arith in
            let now : m' ≡ m = ground arith in rw (is, now) (few, omega arith)
        | inl room ↦ elim (Bool-cases (valid client)) [
          | inr shut ↦
              let is : r' ≡ r = ground arith in
              let now : m' ≡ next = ground arith in rw (is, now) (few, ground arith)
          | inl live ↦
              let chain : set_up environment (accept_clients environment fuel) r client next
                  ≡ some (r', m') =
                ground arith in
              let (r1, m1, after, one, even) =
                set_up-cases (accept_clients environment fuel) r r' client next m' chain in
              let below = ltb→lt (length r.clients) max_clients room in
              let (limit, even') = accept_clients-Balanced fuel r1 r' m1 m' after (omega arith) in
              let opened : Balanced 0 m (owned client) next = ground arith in (limit, omega arith)
        ]
      ]

  serve-Balanced :
      (fuel : ℕ) (revents : List ℕ) (r r' : TcpReceiver) (lines lines' : List Bytes)
      (m m' : Machine W)
      → serve environment fuel revents r lines m ≡ some ((r', lines'), m')
      → length r.clients ≤ max_clients
      → (length r'.clients ≤ max_clients) × Balanced (held r.clients) m (held r'.clients) m'
  unfolding serve
  serve-Balanced fuel revents r r' lines lines' m m' h few =
      let rest : TcpReceiver × List Bytes → M W (TcpReceiver × List Bytes) = λ s.
        if has_event pollin (revents_at revents 0)
        then (accept_clients environment fuel s.0 >>= λ r''. pure (r'', s.1))
        else pure (s.0, s.1) in
      let ((r1, lines1), between, e, after) =
        >>=-eq-some (read_clients environment (length r.clients) revents (r, lines)) rest m h in
      let (short, even) =
        read_clients-Settled (length r.clients) revents r r1 lines lines1 m between e in
      elim (Bool-cases (has_event pollin (revents_at revents 0))) [
        | inr no_sender ↦
            Kept-eq (held r.clients) r1 r' m between m' (ground arith) (ground arith)
              (omega arith, omega arith)
        | inl sender ↦
            let last : TcpReceiver → M W (TcpReceiver × List Bytes) = λ r''. pure (r'', lines1) in
            let chain : (accept_clients environment fuel r1 >>= last) between
                ≡ some ((r', lines'), m') =
              ground arith in
            let (r2, m2, e', after') =
              >>=-eq-some (accept_clients environment fuel r1) last between chain in
            let (limit, even') = accept_clients-Balanced fuel r1 r2 between m2 e' (omega arith) in
            Kept-eq (held r.clients) r2 r' m m2 m' (ground arith) (ground arith)
              (limit, omega arith)
      ]

  wait_for_input-Balanced :
      (fds : List ℤ) (timeout : ℤ) (waited : Waited) (m m' : Machine W)
      → wait_for_input environment fds timeout m ≡ some (waited, m')
      → Balanced 0 m 0 m'
  unfolding wait_for_input opens closes
  wait_for_input-Balanced fds timeout waited m m' h = ground arith

  after_wait-Balanced :
      (fuel : ℕ) (r : TcpReceiver) (lines : List Bytes) (ec : ErrorCode) (waited : Waited)
      (found : Received TcpReceiver) (m m' : Machine W)
      → after_wait environment fuel r lines ec waited m ≡ some (found, m')
      → length r.clients ≤ max_clients
      → (length found.receiver.clients ≤ max_clients)
        × Balanced (held r.clients) m (held found.receiver.clients) m'
  unfolding after_wait
  after_wait-Balanced fuel r lines ec quiet found m m' h few =
      let is : found.receiver ≡ r = ground arith in
      let now : m' ≡ m = ground arith in rw (is, now) (few, omega arith)
  after_wait-Balanced fuel r lines ec (failed reason) found m m' h few =
      let is : found.receiver ≡ r = ground arith in
      let now : m' ≡ m = ground arith in rw (is, now) (few, omega arith)
  after_wait-Balanced fuel r lines ec (ready revents) found m m' h few =
      let rest : TcpReceiver × List Bytes → M W (Received TcpReceiver) =
        λ s. pure (record { ok = true; ec = ec; lines = s.1; receiver = s.0 }) in
      let ((r1, lines1), m1, e, after) =
        >>=-eq-some (serve environment fuel revents r lines) rest m h in
      let (limit, even) = serve-Balanced fuel revents r r1 lines lines1 m m1 e few in
      Kept-eq (held r.clients) r1 found.receiver m m1 m' (ground arith) (ground arith) (limit, even)

  -- A call of `receive` that comes to an end leaves at most 16 clients, if there were no more before;
  -- and as many descriptors are closed, or owned by the clients after it, as are opened in it, or owned
  -- by the clients before it, whatever the system answers.
  pub receive-Balanced :
      (fuel : ℕ) (r : TcpReceiver) (lines : List Bytes) (timeout : ℤ) (ec : ErrorCode)
      (found : Received TcpReceiver) (m m' : Machine W)
      → receive environment fuel r lines timeout ec m ≡ some (found, m')
      → length r.clients ≤ max_clients
      → (length found.receiver.clients ≤ max_clients)
        × Balanced (held r.clients) m (held found.receiver.clients) m'
  unfolding receive
  receive-Balanced fuel r lines timeout ec found m m' h few =
      let (waited, between, e, after) =
        >>=-eq-some (wait_for_input environment (descriptors r) timeout)
          (λ waited. after_wait environment fuel r lines ec waited) m h in
      let even = wait_for_input-Balanced (descriptors r) timeout waited m between e in
      let (limit, rest) = after_wait-Balanced fuel r lines ec waited found between m' after few in
      (limit, omega arith)
